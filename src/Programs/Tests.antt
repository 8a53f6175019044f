-- ===== src/Programs/Tests.antt =====
-- Runs of the theorems on the sample programs at concrete inputs.
use my_notes.Common.{
  ℕ, zero, suc, ◌+◌, ◌≡◌, ◌↔◌, ◌≢◌, refl, true, false, [], ◌∷◌, ◌++◌, Option, none, some, codes,
  pos, ◌≤◌, if◌then◌else◌, starts_with, All, Lacks, arith,
}
use my_notes.Programs.Environment.{
  unset_env, Environ, Libc, success, set_env, assignment, valid_name, remove_entries, defines,
}
use my_notes.Programs.Environment.Values.{PutsNew, Removes, set_env-overwrites, unset_env-Removes}
use my_notes.Programs.Execlp.{
  eacces, enoexec, Execve, execlp, replaced, returned, search_path, contains_slash, pathname,
  prefixes_from, overrun, colon,
}
use my_notes.Programs.Execlp.Search.{
  Fail, execlp-replaced, execlp-returned, join_prefixes, prefixes_from-search_path,
}
use my_notes.Programs.Execlp.Scripts.{by_name, execlp-overrun}
use my_notes.Programs.GetNum.{in_int, Flags, Strtol, number, get_long, get_int}
use my_notes.Programs.GetNum.Accepted.{Accepts, get_long_iff, get_int_iff}
use my_notes.Programs.Semaphores.{
  Error, eintr, SemOp, decrement, increment, wait_for_zero, Kernel, retry_loop, init_sem_available,
  reserve_sem, set_event_flag, get_flag_state,
}
use my_notes.Programs.Semaphores.Exclusion.{
  IsDocumented, Steps, start, after, reserved, change_flag, init_sem_available-exclusive,
  get_flag_state-change_flag,
}

-- `putenv` puts a new string first.
abbrev libc : Libc
libc = record { has_env = λ name environ. true; put_env = λ s environ. success (s ∷ environ) }

libc-PutsNew : PutsNew libc
libc-PutsNew name value environ environ' valid removed e = ([], environ, refl, grind arith)

abbrev three_entries : Environ
three_entries = codes "a=1" ∷ codes "b=2" ∷ codes "a=3" ∷ []

a_is_valid : valid_name (some (codes "a")) ≡ true
unfolding valid_name
a_is_valid = refl

overwritten :
    set_env libc (some (codes "a")) (some (codes "9")) true three_entries
    ≡ success (codes "a=9" ∷ codes "b=2" ∷ [])
unfolding set_env valid_name remove_entries defines starts_with assignment
overwritten = refl

set_env-overwrites_example :
    (a : Environ) × (b : Environ) × Removes (codes "a") three_entries (a ++ b)
    × (codes "a=9" ∷ codes "b=2" ∷ [] ≡ a ++ codes "a=9" ∷ b)
set_env-overwrites_example =
    set_env-overwrites libc (codes "a") (codes "9") true three_entries
      (codes "a=9" ∷ codes "b=2" ∷ []) libc-PutsNew a_is_valid refl overwritten

unset_env-Removes_example :
    (environ' : Environ) × (unset_env (some (codes "a")) three_entries ≡ success environ')
    × Removes (codes "a") three_entries environ'
unset_env-Removes_example = unset_env-Removes (codes "a") three_entries a_is_valid

-- Files below /p may not be executed, those below /q may.
abbrev exec : Execve
exec = λ path argv envp. if starts_with (codes "/p/") path then some eacces else none

slash_free : contains_slash (codes "ls") ≡ false
unfolding contains_slash
slash_free = refl

two_prefixes :
    prefixes_from [] (search_path (some (codes "/p:/q"))) ≡ (codes "/p" ∷ []) ++ codes "/q" ∷ []
unfolding search_path
two_prefixes = refl

denied_first : exec (pathname (codes "/p") (codes "ls")) (codes "ls" ∷ []) [] ≡ some eacces
unfolding pathname starts_with
denied_first = refl

runs_second : exec (pathname (codes "/q") (codes "ls")) (codes "ls" ∷ []) [] ≡ none
unfolding pathname starts_with
runs_second = refl

eacces-other : eacces ≢ enoexec
eacces-other h = grind arith

execlp-replaced_example :
    execlp exec (some (codes "/p:/q")) [] enoexec (codes "ls") (codes "ls" ∷ [])
    ≡ replaced (pathname (codes "/q") (codes "ls")) (codes "ls" ∷ [])
execlp-replaced_example =
    execlp-replaced exec (some (codes "/p:/q")) [] enoexec (codes "ls") (codes "ls" ∷ [])
      (codes "/p" ∷ []) (codes "/q") [] (eacces ∷ []) slash_free two_prefixes
      (denied_first, eacces-other, tt) runs_second

all_denied :
    Fail exec
      (codes "ls")
      (codes "ls" ∷ [])
      []
      (prefixes_from [] (search_path (some (codes "/p"))))
      (eacces ∷ [])
unfolding search_path
all_denied = (denied_first, eacces-other, tt)

execlp-returned_example :
    execlp exec (some (codes "/p")) [] enoexec (codes "ls") (codes "ls" ∷ []) ≡ returned eacces
execlp-returned_example =
    execlp-returned exec (some (codes "/p")) [] enoexec (codes "ls") (codes "ls" ∷ []) (eacces ∷ [])
      slash_free all_denied

-- A kernel that does not recognise any file but the shell.
abbrev only_shell : Execve
only_shell = λ path argv envp. if starts_with (codes "/bin/sh") path then none else some enoexec

has_slash : contains_slash (codes "/p/ls") ≡ true
unfolding contains_slash
has_slash = refl

not_recognised : only_shell (codes "/p/ls") (codes "ls" ∷ []) [] ≡ some enoexec
unfolding starts_with
not_recognised = refl

execlp-overrun_example :
    execlp only_shell none [] enoexec (codes "/p/ls") (codes "ls" ∷ []) ≡ overrun
execlp-overrun_example =
    execlp-overrun only_shell none [] enoexec (codes "/p/ls") (codes "ls" ∷ [])
      (by_name has_slash not_recognised)

prefixes_from-search_path_example :
    let ps = prefixes_from [] (search_path (some (codes "/p:/q"))) in
    All (Lacks colon) ps × (join_prefixes ps ≡ search_path (some (codes "/p:/q")))
prefixes_from-search_path_example = prefixes_from-search_path (some (codes "/p:/q"))

-- A `strtol` that reads one digit.
abbrev one_digit : Strtol
one_digit = λ s base. elim s [
  | [] ↦ record { res = pos 0; endptr = []; has_errno = false }
  | c ∷ rest ↦ record { res = pos 7; endptr = rest; has_errno = false }
]

abbrev positive : Flags
positive = record { nonneg = false; gt_0 = true; any_base = false; base_8 = false; base_16 = false }

get_long_iff_example :
    (get_long one_digit (some (codes "7")) positive none ≡ number (pos 7))
    ↔ Accepts one_digit (codes "7") positive (pos 7)
get_long_iff_example = get_long_iff one_digit (codes "7") positive none (pos 7)

get_int_iff_example :
    (get_int one_digit (some (codes "7")) positive none ≡ number (pos 7))
    ↔ (Accepts one_digit (codes "7") positive (pos 7) × (in_int (pos 7) ≡ true))
get_int_iff_example = get_int_iff one_digit (codes "7") positive none (pos 7)

-- A kernel with one semaphore, whose calls are interrupted where they would block.
abbrev one_semop : ℕ → SemOp → ℕ × Option Error
one_semop zero decrement = (zero, some eintr)
one_semop (suc n) decrement = (n, none)
one_semop n increment = (suc n, none)
one_semop zero wait_for_zero = (zero, none)
one_semop (suc n) wait_for_zero = (suc n, some eintr)

abbrev one_semaphore : Kernel ℕ
one_semaphore = record {
  semop = λ s i n op undo. one_semop s op;
  setval = λ s i n v. (v, none);
  getval = λ s i n. (s, some s);
}

one_semop-fails :
    (s : ℕ) (op : SemOp) (e : Error) → (one_semop s op).1 ≡ some e → (one_semop s op).0 ≡ s
one_semop-fails zero decrement e h = refl
one_semop-fails (suc n) decrement e h = grind arith
one_semop-fails zero increment e h = grind arith
one_semop-fails (suc n) increment e h = grind arith
one_semop-fails zero wait_for_zero e h = grind arith
one_semop-fails (suc n) wait_for_zero e h = refl

one_semop-decrements :
    (s : ℕ) → (one_semop s decrement).1 ≡ none → s ≡ (one_semop s decrement).0 + 1
one_semop-decrements zero h = grind arith
one_semop-decrements (suc n) h = omega arith

one_semop-increments : (s : ℕ) → (one_semop s increment).0 ≡ s + 1
one_semop-increments zero = refl
one_semop-increments (suc n) = omega arith

one_semaphore-IsDocumented : IsDocumented one_semaphore 0 0 (λ s. s)
one_semaphore-IsDocumented = record {
  fails_unchanged = λ s op undo e h. one_semop-fails s op e h;
  decrements = λ s undo h. one_semop-decrements s h;
  increments = λ s undo h. one_semop-increments s;
  sets = λ s v h. refl;
  gets = λ s v h. grind arith;
}

reserved_once : Steps one_semaphore 0 0 ((init_sem_available one_semaphore 5 0 0).0, 0) (0, 1)
unfolding init_sem_available reserve_sem retry_loop
reserved_once = after (1, 0) (0, 1) start (reserved false true 1 1 0 0 refl)

available : (init_sem_available one_semaphore 5 0 0).1 ≡ none
unfolding init_sem_available
available = refl

init_sem_available-exclusive_example : ((λ (s : ℕ). s) 0 + 1 ≡ 1) × (1 ≤ 1)
init_sem_available-exclusive_example =
    init_sem_available-exclusive one_semaphore 0 0 (λ s. s) one_semaphore-IsDocumented 5 0 1
      available reserved_once

flag_changed : (change_flag one_semaphore 0 0 (λ s. s) one_semaphore-IsDocumented true 1).1 ≡ none
unfolding set_event_flag
flag_changed = refl

flag_read :
    (get_flag_state one_semaphore
      (change_flag one_semaphore 0 0 (λ s. s) one_semaphore-IsDocumented true 1).0
      0
      0).1
    ≡ some true
unfolding set_event_flag get_flag_state
flag_read = refl

get_flag_state-change_flag_example : true ≡ true
get_flag_state-change_flag_example =
    get_flag_state-change_flag one_semaphore 0 0 (λ s. s) one_semaphore-IsDocumented 1 true true
      flag_changed flag_read
