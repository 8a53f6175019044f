-- ===== src/Programs/Execlp/Search.antt =====
-- The search of `execlp` through the prefixes of `PATH`.
use my_notes.Common.{
  ℕ, ◌+◌, ◌≤◌, ◌≡◌, ◌≢◌, refl, sym, ap, ◌∙◌, Bool, true, false, Bool-cases, inl, inr, List, [], ◌∷◌,
  ◌++◌, Lacks, All, All-append, append-nil, append_assoc, Option, none, some, Bytes, leb, ltb, ◌==◌,
  if◌then◌else◌, length, arith,
}
use my_notes.Programs.Execlp.{
  Errno, eacces, enoexec, other, Execve, Outcome, replaced, returned, build_argv, colon,
  contains_slash, prefixes_from, search_path, pathname, after_failure, try_prefixes, execlp,
}

-- No argument is stored outside of `argv`.
pub build_argv-in_bounds :
    (argc argv_size : ℕ) (args : List Bytes)
    → argc ≤ argv_size
    → build_argv argc argv_size args ≡ some (argc + length args)
unfolding build_argv
build_argv-in_bounds argc argv_size [] h = ap some (omega arith)
build_argv-in_bounds argc argv_size (arg ∷ args) h =
    let argv_size' = if leb argv_size (argc + 1) then argv_size + 100 else argv_size in
    let room : ltb argc argv_size' ≡ true = ground arith in
    let rest = build_argv-in_bounds (argc + 1) argv_size' args (ground arith) in
    rw room (rest ∙ ap some (omega arith))

-- the prefixes with colons between them
abbrev pub join_prefixes : List Bytes → Bytes
join_prefixes [] = []
join_prefixes (p ∷ []) = p
join_prefixes (p ∷ q ∷ ps) = p ++ colon ∷ join_prefixes (q ∷ ps)

join_prefixes-cons :
    (p prefix path : Bytes)
    → join_prefixes (p ∷ prefixes_from prefix path)
      ≡ p ++ colon ∷ join_prefixes (prefixes_from prefix path)
join_prefixes-cons p prefix [] = refl
join_prefixes-cons p prefix (c ∷ path) = elim (Bool-cases (c == colon)) [
  | inl is ↦ rw is refl
  | inr isnt ↦ rw isnt (join_prefixes-cons p (prefix ++ c ∷ []) path)
]

join_prefixes-prefixes_from :
    (prefix path : Bytes) → join_prefixes (prefixes_from prefix path) ≡ prefix ++ path
join_prefixes-prefixes_from prefix [] = sym (append-nil prefix)
join_prefixes-prefixes_from prefix (c ∷ path) = elim (Bool-cases (c == colon)) [
  | inl is ↦
      let e : c ≡ colon = ground arith in
      rw is (
        join_prefixes-cons prefix [] path
        ∙ ap (λ t. prefix ++ colon ∷ t) (join_prefixes-prefixes_from [] path)
        ∙ ap (λ b. prefix ++ b ∷ path) (sym e))
  | inr isnt ↦
      rw isnt
        (join_prefixes-prefixes_from (prefix ++ c ∷ []) path ∙ append_assoc prefix (c ∷ []) path)
]

prefixes_from-Lacks :
    (prefix path : Bytes) → Lacks colon prefix → All (Lacks colon) (prefixes_from prefix path)
prefixes_from-Lacks prefix [] h = (h, tt)
prefixes_from-Lacks prefix (c ∷ path) h = elim (Bool-cases (c == colon)) [
  | inl is ↦ rw is (h, prefixes_from-Lacks [] path tt)
  | inr isnt ↦
      let other : c ≢ colon = ground arith in
      rw isnt (
        prefixes_from-Lacks (prefix ++ c ∷ []) path
          (All-append (λ b. b ≢ colon) prefix (c ∷ []) h (other, tt)))
]

-- The prefixes that the search tries are the search path cut at each of its colons: none has a colon, and
-- joined with colons they are the search path.
pub prefixes_from-search_path :
    (path : Option Bytes)
    → All (Lacks colon) (prefixes_from [] (search_path path))
      × (join_prefixes (prefixes_from [] (search_path path)) ≡ search_path path)
prefixes_from-search_path path = (
  prefixes_from-Lacks [] (search_path path) tt,
  join_prefixes-prefixes_from [] (search_path path),
)

abbrev pub is_eacces : Errno → Bool
is_eacces eacces = true
is_eacces enoexec = false
is_eacces (other n) = false

abbrev pub denied : Bool → List Errno → Bool
denied found [] = found
denied found (e ∷ es) = denied (if is_eacces e then true else found) es

abbrev pub last_error : Errno → List Errno → Errno
last_error saved [] = saved
last_error saved (e ∷ es) = last_error e es

-- The search from one call of `execlp`.
module _ (execve : Execve) (filename : Bytes) (argv envp : List Bytes) where
  -- `execve` fails for each of the prefixes, with these errors, none of which is ENOEXEC.
  abbrev pub Fail : List Bytes → List Errno → Type 0
  Fail [] [] = Unit
  Fail [] (e ∷ es) = ⊥
  Fail (p ∷ ps) [] = ⊥
  Fail (p ∷ ps) (e ∷ es) =
      (execve (pathname p filename) argv envp ≡ some e) × (e ≢ enoexec) × Fail ps es

  after_failure-fails :
      (argc : ℕ) (found : Bool) (e : Errno) (rest : Bool → Errno → Outcome)
      → e ≢ enoexec
      → after_failure execve argc argv envp found e rest
        ≡ rest (if is_eacces e then true else found) e
  unfolding after_failure
  after_failure-fails argc found eacces rest h = refl
  after_failure-fails argc found enoexec rest h = absurd (h refl)
  after_failure-fails argc found (other n) rest h = refl

  pub try_prefixes-append :
      (argc : ℕ) (found : Bool) (saved : Errno) (ps qs : List Bytes) (es : List Errno)
      → Fail ps es
      → try_prefixes execve filename argc argv envp found saved (ps ++ qs)
        ≡ try_prefixes execve filename argc argv envp (denied found es) (last_error saved es) qs
  unfolding try_prefixes
  try_prefixes-append argc found saved [] qs [] h = refl
  try_prefixes-append argc found saved [] qs (e ∷ es) h = absurd h
  try_prefixes-append argc found saved (p ∷ ps) qs [] h = absurd h
  try_prefixes-append argc found saved (p ∷ ps) qs (e ∷ es) h =
      let rest : Bool → Errno → Outcome =
        λ f e'. try_prefixes execve filename argc argv envp f e' (ps ++ qs) in
      rw h.0 (
        after_failure-fails argc found e rest h.1
        ∙ try_prefixes-append argc (if is_eacces e then true else found) e ps qs es h.2)

pub execlp-search :
    (execve : Execve) (path : Option Bytes) (environ : List Bytes) (saved : Errno)
    (filename : Bytes) (args : List Bytes)
    → contains_slash filename ≡ false
    → execlp execve path environ saved filename args
      ≡ try_prefixes execve filename
          (1 + length args)
          args
          environ
          false
          saved
          (prefixes_from [] (search_path path))
unfolding execlp
execlp-search execve path environ saved filename args h =
    rw (execlp, build_argv-in_bounds 1 100 args (omega arith), h) refl

-- For a filename without a slash, the prefixes of the search path being `ps`, `p` and `qs`: if
-- `execve` fails for each of `ps`, never with ENOEXEC, and succeeds for `p`, then the program is
-- replaced by the file of the prefix `p`, with the arguments.
pub execlp-replaced :
    (execve : Execve) (path : Option Bytes) (environ : List Bytes) (saved : Errno)
    (filename : Bytes) (args : List Bytes)
    → (ps : List Bytes) (p : Bytes) (qs : List Bytes) (es : List Errno)
    → contains_slash filename ≡ false
    → prefixes_from [] (search_path path) ≡ ps ++ p ∷ qs
    → Fail execve filename args environ ps es
    → execve (pathname p filename) args environ ≡ none
    → execlp execve path environ saved filename args ≡ replaced (pathname p filename) args
unfolding try_prefixes
execlp-replaced execve path environ saved filename args ps p qs es slash e fail ok =
    let argc = 1 + length args in
    execlp-search execve path environ saved filename args slash
    ∙ ap (λ l. try_prefixes execve filename argc args environ false saved l) e
    ∙ try_prefixes-append execve filename args environ argc false saved ps (p ∷ qs) es fail
    ∙ rw (try_prefixes, ok) refl

-- For a filename without a slash, if `execve` fails for every prefix of the search path, never with
-- ENOEXEC, then `execlp` returns with EACCES if one of the errors was EACCES, and with the last
-- error otherwise.
pub execlp-returned :
    (execve : Execve) (path : Option Bytes) (environ : List Bytes) (saved : Errno)
    (filename : Bytes) (args : List Bytes)
    → (es : List Errno) → contains_slash filename ≡ false
    → Fail execve filename args environ (prefixes_from [] (search_path path)) es
    → execlp execve path environ saved filename args
      ≡ returned (if denied false es then eacces else last_error saved es)
unfolding try_prefixes
execlp-returned execve path environ saved filename args es slash fail =
    let argc = 1 + length args in
    let ps = prefixes_from [] (search_path path) in
    execlp-search execve path environ saved filename args slash
    ∙ ap (λ l. try_prefixes execve filename argc args environ false saved l) (sym (append-nil ps))
    ∙ try_prefixes-append execve filename args environ argc false saved ps [] es fail
