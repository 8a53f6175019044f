-- ===== src/Programs/Environment.antt =====
-- `unsetenv` and `setenv` of proc/setenv.c.
pub mod Values
use my_notes.Common.{
  ℕ, suc, Bool, true, false, not, ◌||◌, ◌&&◌, List, [], ◌∷◌, ◌++◌, Option, none, some, Bytes, ◌==◌,
  is_some, if◌then◌else◌, length, get_elem?, starts_with,
}

-- `environ`: the strings up to the NULL pointer.
abbrev pub Environ : Type 0
Environ = List Bytes

abbrev pub equals_sign : ℕ
equals_sign = 61

abbrev pub contains : ℕ → Bytes → Bool
contains c [] = false
contains c (b ∷ s) = (b == c) || contains c s

-- A name is a string, or NULL.
unfoldable pub valid_name : Option Bytes → Bool
valid_name none = false
valid_name (some []) = false
valid_name (some (c ∷ name)) = if contains equals_sign (c ∷ name) then false else true

-- `(*ep)[len] == '='`, where the first `len` bytes are there
abbrev pub equals_at : ℕ → Bytes → Bool
equals_at len s = elim (get_elem? s len) [ none ↦ false | some c ↦ c == equals_sign ]

-- `strncmp(*ep, name, len) == 0 && (*ep)[len] == '='`
unfoldable pub defines : Bytes → Bytes → Bool
defines name entry = starts_with name entry && equals_at (length name) entry

-- The loop that removes the entries of the name.
unfoldable pub remove_entries : Bytes → Environ → Environ
remove_entries name [] = []
remove_entries name (entry ∷ environ) =
    let rest = remove_entries name environ in if defines name entry then rest else entry ∷ rest

-- What a call leaves: the environment after it, and whether it returned 0.
pub data Result : Type 0 where
  success : Environ → Result
  failure : Environ → Result

unfoldable pub unset_env : Option Bytes → Environ → Result
unset_env none environ = failure environ
unset_env (some name) environ =
    if valid_name (some name) then success (remove_entries name environ) else failure environ

-- `getenv` and `putenv` of the C library: whether the name is found, and the environment after
-- `putenv` with whether it returned 0.
pub record Libc : Type 0 where
  pub has_env : Bytes → Environ → Bool
  pub put_env : Bytes → Environ → Result

-- The string that `setenv` builds.
unfoldable pub assignment : Bytes → Bytes → Bytes
assignment name value = name ++ equals_sign ∷ value

-- `setenv`; the allocation of the string succeeds. `unsetenv` is called with a valid name.
unfoldable pub set_env : Libc → Option Bytes → Option Bytes → Bool → Environ → Result
set_env libc none value overwrite environ = failure environ
set_env libc (some name) none overwrite environ = failure environ
set_env libc (some name) (some value) overwrite environ =
    if valid_name (some name)
    then (if libc.has_env name environ && not overwrite
        then success environ
        else libc.put_env (assignment name value) (remove_entries name environ))
    else failure environ
