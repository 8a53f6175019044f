-- ===== src/Programs/Execlp.antt =====
-- `execlp` of procexec/execlp.c.
pub mod Search
pub mod Scripts
use my_notes.Common.{
  ℕ, zero, suc, ◌+◌, Bool, true, false, List, [], ◌∷◌, ◌++◌, Option, none, some, Bytes, codes, leb,
  ltb, ◌==◌, if◌then◌else◌, length, set, replicate, get_elem?,
}

pub data Errno : Type 0 where
  eacces : Errno
  enoexec : Errno
  other : ℕ → Errno

-- `execve` of a pathname, with arguments up to the NULL pointer and an environment: `none` when the
-- program is replaced. The file system does not change during the call of `execlp`.
abbrev pub Execve : Type 0
Execve = Bytes → List Bytes → List Bytes → Option Errno

-- The program is replaced by the file with these arguments, or -1 is returned with `errno`;
-- `overrun` is a write outside of `argv`.
pub data Outcome : Type 0 where
  replaced : Bytes → List Bytes → Outcome
  returned : Errno → Outcome
  overrun : Outcome

abbrev pub shell_path : Bytes
shell_path = codes "/bin/sh"

-- What `execShScript` comes to: the shell runs, `execve` fails, or there is a write outside of `shArgv`.
pub data ShScript : Type 0 where
  runs : List Bytes → ShScript
  fails : ShScript
  writes_outside : ShScript

-- A write to an element of an array, where it is inside.
unfoldable pub store : List (Option Bytes) → ℕ → Option Bytes → Option (List (Option Bytes))
store array i v = if ltb i (length array) then some (set array i v) else none

-- The loop, with so many turns left, from `j` on. `argv` has a NULL behind its arguments; the element
-- behind this one, which the last turn reads, is taken to be NULL as well.
unfoldable pub copy_argv : ℕ → ℕ → List Bytes → List (Option Bytes) → Option (List (Option Bytes))
copy_argv zero j argv sh_argv = some sh_argv
copy_argv (suc turns) j argv sh_argv = elim (store sh_argv (j + 1) (get_elem? argv j)) [
  | none ↦ none
  | some sh_argv' ↦ copy_argv turns (j + 1) argv sh_argv'
]

abbrev pub up_to_null : List (Option Bytes) → List Bytes
up_to_null [] = []
up_to_null (none ∷ array) = []
up_to_null (some s ∷ array) = s ∷ up_to_null array

abbrev pub exec_shell : Execve → List Bytes → List Bytes → ShScript
exec_shell execve sh_argv envp = elim (execve shell_path sh_argv envp) [
  | none ↦ runs sh_argv
  | some e ↦ fails
]

-- `execShScript`: `shArgv` has `argc + 1` elements, and `j` runs from 0 to `argc`.
unfoldable pub exec_sh_script : Execve → ℕ → List Bytes → List Bytes → ShScript
exec_sh_script execve argc argv envp =
    elim (copy_argv (argc + 1) 0 argv (set (replicate (argc + 1) none) 0 (some shell_path))) [
      | none ↦ writes_outside
      | some sh_argv ↦ exec_shell execve (up_to_null sh_argv) envp
    ]

-- What the callers do behind `execShScript`, where it returns.
abbrev pub after_script : ShScript → Outcome → Outcome
after_script (runs sh_argv) returns = replaced shell_path sh_argv
after_script fails returns = returns
after_script writes_outside returns = overrun

-- The loop that builds `argv` of the arguments up to NULL, from `argc` and `argvSize`: the elements
-- stored so far, and whether all were stored inside the array. Its allocations succeed.
unfoldable pub build_argv : ℕ → ℕ → List Bytes → Option ℕ
build_argv argc argv_size [] = some argc
build_argv argc argv_size (arg ∷ args) =
    let argv_size' = if leb argv_size (argc + 1) then argv_size + 100 else argv_size in
    let rest = build_argv (argc + 1) argv_size' args in if ltb argc argv_size' then rest else none

abbrev pub slash : ℕ
slash = 47

abbrev pub colon : ℕ
colon = 58

unfoldable pub contains_slash : Bytes → Bool
contains_slash [] = false
contains_slash (c ∷ s) = let rest = contains_slash s in if c == slash then true else rest

-- the prefixes of `PATH`, which the loop finds with `strchr`: `prefix` is the start of the first
abbrev pub prefixes_from : Bytes → Bytes → List Bytes
prefixes_from prefix [] = prefix ∷ []
prefixes_from prefix (c ∷ path) =
    if c == colon then prefix ∷ prefixes_from [] path else prefixes_from (prefix ++ c ∷ []) path

-- `PATH`, with "." where it is undefined or empty
unfoldable pub search_path : Option Bytes → Bytes
search_path none = codes "."
search_path (some []) = codes "."
search_path (some (c ∷ path)) = c ∷ path

-- The pathname built of a prefix and the filename.
unfoldable pub pathname : Bytes → Bytes → Bytes
pathname [] filename = codes "." ++ slash ∷ filename
pathname (c ∷ prefix) filename = (c ∷ prefix) ++ slash ∷ filename

-- What the body of the search loop goes on with after `execve`: `rest` runs the later prefixes, from
-- `fndEACCES` and `savedErrno`.
unfoldable pub after_failure :
    Execve → ℕ → List Bytes → List Bytes → Bool → Errno → (Bool → Errno → Outcome) → Outcome
after_failure execve argc argv envp found eacces rest = rest true eacces
after_failure execve argc argv envp found enoexec rest =
    after_script (exec_sh_script execve argc argv envp) (rest found enoexec)
after_failure execve argc argv envp found (other n) rest = rest found (other n)

-- The search loop and the end of `execlp`.
unfoldable pub try_prefixes :
    Execve → Bytes → ℕ → List Bytes → List Bytes → Bool → Errno → List Bytes → Outcome
try_prefixes execve filename argc argv envp found saved [] =
    returned (if found then eacces else saved)
try_prefixes execve filename argc argv envp found saved (prefix ∷ prefixes) =
    let rest : Bool → Errno → Outcome =
      λ f e. try_prefixes execve filename argc argv envp f e prefixes in
    elim (execve (pathname prefix filename) argv envp) [
      | none ↦ replaced (pathname prefix filename) argv
      | some e ↦ after_failure execve argc argv envp found e rest
    ]

-- The branch for a filename with a slash.
unfoldable pub exec_pathname : Execve → Bytes → ℕ → List Bytes → List Bytes → Outcome
exec_pathname execve filename argc argv envp = elim (execve filename argv envp) [
  | none ↦ replaced filename argv
  | some enoexec ↦ after_script (exec_sh_script execve argc argv envp) (returned enoexec)
  | some eacces ↦ returned eacces
  | some (other n) ↦ returned (other n)
]

-- `execlp`; `environ` is copied to `envp`, and `saved` is the indeterminate `savedErrno`.
unfoldable pub execlp : Execve → Option Bytes → List Bytes → Errno → Bytes → List Bytes → Outcome
execlp execve path environ saved filename args = elim (build_argv 1 100 args) [
  | none ↦ overrun
  | some argc ↦
      if contains_slash filename
      then exec_pathname execve filename argc args environ
      else try_prefixes execve filename argc args environ false saved
          (prefixes_from [] (search_path path))
]
