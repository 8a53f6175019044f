-- ===== src/Programs/Execlp/Scripts.antt =====
-- What `execlp` does with a file that the kernel does not recognise.
use my_notes.Common.{
  ℕ, zero, suc, ◌+◌, ◌≤◌, ◌<◌, ◌≡◌, refl, ap, ◌∙◌, true, false, Bool-cases, inl, inr, List, [], ◌∷◌,
  ◌++◌, Option, none, some, Bytes, ltb, length, set, replicate, get_elem?, length-set, arith,
}
use my_notes.Programs.Execlp.{
  Errno, enoexec, Execve, overrun, shell_path, writes_outside, store, copy_argv, exec_sh_script,
  after_failure, try_prefixes, exec_pathname, execlp, contains_slash, prefixes_from, search_path,
  pathname,
}
use my_notes.Programs.Execlp.Search.{Fail, build_argv-in_bounds, execlp-search, try_prefixes-append}

-- The last turn of the loop writes behind the array.
copy_argv-none :
    (turns j : ℕ) (argv : List Bytes) (sh_argv : List (Option Bytes))
    → length sh_argv ≤ j + turns
    → 0 < turns
    → copy_argv turns j argv sh_argv ≡ none
unfolding copy_argv store
copy_argv-none zero j argv sh_argv long some_left = absurd (omega arith)
copy_argv-none (suc turns) j argv sh_argv long some_left =
    elim (Bool-cases (ltb (j + 1) (length sh_argv))) [
      | inr outside ↦ rw (copy_argv, store, outside) refl
      | inl inside ↦
          let same = length-set sh_argv (j + 1) (get_elem? argv j) in
          rw (copy_argv, store, inside)
            (copy_argv-none turns (j + 1) argv (set sh_argv (j + 1) (get_elem? argv j))
              (omega (arith, same)) (ground arith))
    ]

length-replicate : (n : ℕ) → length (replicate {A = Option Bytes} n none) ≡ n
length-replicate zero = refl
length-replicate (suc n) = ap suc (length-replicate n)

exec_sh_script_lem :
    (execve : Execve) (argc : ℕ) (argv envp : List Bytes)
    → exec_sh_script execve argc argv envp ≡ writes_outside
unfolding exec_sh_script
exec_sh_script_lem execve argc argv envp =
    let start : List (Option Bytes) = set (replicate (argc + 1) none) 0 (some shell_path) in
    let long =
      length-set (replicate {A = Option Bytes} (argc + 1) none) 0 (some shell_path)
      ∙ length-replicate (argc + 1) in
    rw (exec_sh_script, copy_argv-none (argc + 1) 0 argv start (omega (arith, long)) (omega arith))
      refl

-- The first file that `execve` is called for without another error is not recognised: the one of the filename
-- with a slash, or that of a prefix of the search path behind those that fail with other errors.
pub data Unrecognised (execve : Execve) (path : Option Bytes) (environ : List Bytes)
    (filename : Bytes) (args : List Bytes) : Type 0 where
  by_name :
      contains_slash filename ≡ true
      → execve filename args environ ≡ some enoexec
      → Unrecognised execve path environ filename args
  by_prefix :
      (ps : List Bytes) (p : Bytes) (qs : List Bytes) (es : List Errno)
      → contains_slash filename ≡ false
      → prefixes_from [] (search_path path) ≡ ps ++ p ∷ qs
      → Fail execve filename args environ ps es
      → execve (pathname p filename) args environ ≡ some enoexec
      → Unrecognised execve path environ filename args

-- If the file that `execlp` comes to fails with ENOEXEC, as a script without an interpreter does, then
-- `execShScript` writes one element past the end of `shArgv`, whatever the arguments.
pub execlp-overrun :
    (execve : Execve) (path : Option Bytes) (environ : List Bytes) (saved : Errno)
    (filename : Bytes) (args : List Bytes)
    → Unrecognised execve path environ filename args
    → execlp execve path environ saved filename args ≡ overrun
unfolding execlp exec_pathname try_prefixes after_failure
execlp-overrun execve path environ saved filename args (by_name slash failed) =
    rw
      (
        execlp,
        build_argv-in_bounds 1 100 args (omega arith),
        slash,
        exec_pathname,
        failed,
        exec_sh_script_lem execve (1 + length args) args environ,
      )
      refl
execlp-overrun execve path environ saved filename args
      (by_prefix ps p qs es slash split fail failed) =
    let argc = 1 + length args in
    execlp-search execve path environ saved filename args slash
    ∙ ap (λ l. try_prefixes execve filename argc args environ false saved l) split
    ∙ try_prefixes-append execve filename args environ argc false saved ps (p ∷ qs) es fail
    ∙ rw (try_prefixes, failed, after_failure, exec_sh_script_lem execve argc args environ) refl
