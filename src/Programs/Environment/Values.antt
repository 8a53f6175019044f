-- ===== src/Programs/Environment/Values.antt =====
-- What `setenv` and `unsetenv` leave in the environment.
use mathlib.Core.Path.{subst}
use my_notes.Common.{
  ◌≡◌, ◌≢◌, refl, sym, ap, ◌∙◌, Bool, true, false, Bool-cases, not, ◌&&◌, inl, inr, [], ◌∷◌, ◌++◌,
  some, Bytes, length, drop, starts_with, starts_with-append, append-drop_of_starts_with, arith,
}
use my_notes.Programs.Environment.{
  unset_env, Environ, equals_sign, equals_at, defines, valid_name, remove_entries, success, Libc,
  assignment, set_env,
}

-- An entry that gives no value to the name.
abbrev pub IsOther : Bytes → Bytes → Type 0
IsOther name e = (value : Bytes) → e ≢ name ++ equals_sign ∷ value

-- The second environment is the first one without the entries that give a value to the name: those
-- with an equals sign behind the name. The others are in their order.
pub data Removes (name : Bytes) : Environ → Environ → Type 0 where
  done : Removes name [] []
  drops :
      (value : Bytes) (before after : Environ)
      → Removes name before after
      → Removes name ((name ++ equals_sign ∷ value) ∷ before) after
  keeps :
      (e : Bytes) (before after : Environ)
      → IsOther name e
      → Removes name before after
      → Removes name (e ∷ before) (e ∷ after)

-- What POSIX says of a successful `putenv` of a string `name=value`, where the name has no equals sign and
-- no entry of the environment gives it a value: the string is put somewhere in the environment.
abbrev pub PutsNew : Libc → Type 0
PutsNew libc =
    (name value : Bytes) (environ environ' : Environ)
    → valid_name (some name) ≡ true
    → Removes name environ environ
    → libc.put_env (name ++ equals_sign ∷ value) environ ≡ success environ'
    → (a : Environ) × (b : Environ) × (environ ≡ a ++ b)
      × (environ' ≡ a ++ (name ++ equals_sign ∷ value) ∷ b)

equals_at-append : (s t : Bytes) → equals_at (length s) (s ++ equals_sign ∷ t) ≡ true
equals_at-append [] t = refl
equals_at-append (b ∷ s) t = equals_at-append s t

defines-entry : (name value : Bytes) → defines name (name ++ equals_sign ∷ value) ≡ true
unfolding defines
defines-entry name value =
    rw (starts_with-append name (equals_sign ∷ value), equals_at-append name value) refl

-- the text behind the equals sign
equals_at-split :
    (name t : Bytes)
    → equals_at (length name) (name ++ t) ≡ true
    → (value : Bytes) × (t ≡ equals_sign ∷ value)
equals_at-split [] [] h = cc
equals_at-split [] (c ∷ t) h = let e : c ≡ equals_sign = ground arith in (t, ap (λ b. b ∷ t) e)
equals_at-split (b ∷ name) t h = equals_at-split name t h

entry-defines :
    (name e : Bytes) → defines name e ≡ true → (value : Bytes) × (e ≡ name ++ equals_sign ∷ value)
unfolding defines
entry-defines name e h =
    let begins : starts_with name e ≡ true = ground arith in
    let split = append-drop_of_starts_with name e begins in
    let at : equals_at (length name) e ≡ true = ground arith in
    let (value, rest) = equals_at-split name (drop (length name) e) (rw split at) in
    (value, sym split ∙ ap (λ t. name ++ t) rest)

defines-IsOther : (name e : Bytes) → defines name e ≡ false → IsOther name e
defines-IsOther name e h value same =
    let d = ap (λ s. defines name s) same ∙ defines-entry name value in cc

remove_entries-Removes :
    (name : Bytes) (environ : Environ) → Removes name environ (remove_entries name environ)
unfolding remove_entries
remove_entries-Removes name [] = done
remove_entries-Removes name (e ∷ environ) =
    let rest = remove_entries-Removes name environ in
    elim (Bool-cases (defines name e)) [
      | inl here ↦
          let (value, is) = entry-defines name e here in
          rw (remove_entries, here)
            (subst (λ s. Removes name (s ∷ environ) (remove_entries name environ)) (sym is)
              (drops value environ (remove_entries name environ) rest))
      | inr other ↦
          rw (remove_entries, other)
            (keeps e environ (remove_entries name environ) (defines-IsOther name e other) rest)
    ]

-- What is left has no entry for the name.
Removes-again :
    (name : Bytes) (before after : Environ) → Removes name before after → Removes name after after
Removes-again name before after done = done
Removes-again name before after (drops value b a r) = Removes-again name b a r
Removes-again name before after (keeps e b a other r) = keeps e a a other (Removes-again name b a r)

-- When `setenv` overwrites or the name is not found, the name is valid and `putenv` succeeds, then
-- the environment is the one before without the entries that give a value to the name, however many
-- there were, the others in their order, and with one new entry for it somewhere.
pub set_env-overwrites :
    (libc : Libc) (name value : Bytes) (overwrite : Bool) (environ environ' : Environ)
    → PutsNew libc
    → valid_name (some name) ≡ true
    → (libc.has_env name environ && not overwrite) ≡ false
    → set_env libc (some name) (some value) overwrite environ ≡ success environ'
    → (a : Environ) × (b : Environ) × Removes name environ (a ++ b)
      × (environ' ≡ a ++ (name ++ equals_sign ∷ value) ∷ b)
unfolding set_env assignment
set_env-overwrites libc name value overwrite environ environ' puts valid written ended =
    let removed = remove_entries-Removes name environ in
    let call : libc.put_env (name ++ equals_sign ∷ value) (remove_entries name environ)
        ≡ success environ' =
      rw (valid, written) at ended in
    let (a, b, before, after) =
      puts name value (remove_entries name environ) environ' valid
        (Removes-again name environ (remove_entries name environ) removed) call in
    (a, b, subst (λ l. Removes name environ l) before removed, after)

-- With a valid name `unsetenv` succeeds, removes all entries that give a value to the name, and keeps the
-- others in their order.
pub unset_env-Removes :
    (name : Bytes) (environ : Environ)
    → valid_name (some name) ≡ true
    → (environ' : Environ) × (unset_env (some name) environ ≡ success environ')
      × Removes name environ environ'
unfolding unset_env
unset_env-Removes name environ valid =
    (remove_entries name environ, rw valid refl, remove_entries-Removes name environ)
