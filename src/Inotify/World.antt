-- ===== src/Inotify/World.antt =====
-- The global variables of inotify_dtree.c, the system calls it makes, and the monad of its functions.
pub mod Keeps
use my_notes.Common.{ℕ, Bool, List, Option, Bytes, ℤ}
use my_notes.Inotify.Cache.{Cache, Watch}

-- The bits of `ev->mask` that the program reads.
pub record Mask : Type 0 where
  pub isdir : Bool
  pub create : Bool
  pub delete_self : Bool
  pub move_self : Bool
  pub moved_from : Bool
  pub moved_to : Bool
  pub ignored : Bool
  pub q_overflow : Bool
  pub unmount : Bool

-- `struct inotify_event`; `len` counts the bytes of the name field with its padding.
pub record Event : Type 0 where
  pub wd : ℤ
  pub mask : Mask
  pub cookie : ℕ
  pub len : ℕ
  pub name : Bytes

-- The fields of `struct stat` that the program reads.
pub record Stat : Type 0 where
  pub is_dir : Bool
  pub st_ino : ℕ
  pub st_dev : ℕ

-- One result of `read` on the inotify descriptor.
pub data ReadResult : Type 0 where
  bytes : ℕ → List Event → ReadResult
  interrupted : ReadResult
  failed : ReadResult
  at_end : ReadResult

-- The system calls. `K` is the state of the file system and of the kernel's watch lists.
-- A result -1 of `lstat` is `none`; `inotify_add_watch` also says whether `errno` is `ENOENT`,
-- and takes whether `IN_MOVE_SELF` is among the flags; `inotify_rm_watch` says whether it succeeded.
-- `nftw` gives what it visits, in order: the pathname, and whether it is a directory.
pub record Os (K : Type 0) : Type 0 where
  pub inotify_init : K → ℤ × K
  pub inotify_add_watch : K → ℤ → Bytes → Bool → (ℤ × Bool) × K
  pub inotify_rm_watch : K → ℤ → ℤ → Bool × K
  pub nftw : K → Bytes → List (Bytes × Bool) × K
  pub lstat : K → Bytes → Option Stat × K
  pub close : K → ℤ → K

pub record World (K : Type 0) : Type 0 where
  pub kernel : K
  pub cache : Cache
  -- `rootDirPaths`; `numRootDirs` is its length, and `none` is a path that was zapped
  pub root_dir_paths : List (Option Bytes)
  pub ignore_root_dirs : ℕ
  pub dir_cnt : ℕ
  pub reinit_cnt : ℕ
  pub overflow_cnt : ℕ
  pub inotify_read_cnt : ℕ
  pub verbose_mask : ℤ
  pub check_cache : Bool
  pub dump_cache : Bool
  pub abort_on_cache_problem : Bool
  -- is `logfp` open, and what `dumpCacheToLog` wrote to it
  pub has_log : Bool
  pub dumps : List (List (ℕ × Watch))
  -- `inotifyFd` of `main`, which the other functions get by address
  pub inotify_fd : ℤ

-- How the program stops: `exit`, `abort`, undefined behaviour, and a `read` that blocks for ever.
pub data Exit : Type 0 where
  success failure aborted undefined blocked : Exit

pub data Outcome (K A : Type 0) : Type 0 where
  ret : A → World K → Outcome K A
  stop : Exit → World K → Outcome K A

abbrev pub M : Type 0 → Type 0 → Type 0
M K A = World K → Outcome K A

-- The program goes on with the value and the variables of an outcome, or has stopped.
abbrev pub continue : {K A B : Type 0} → Outcome K A → (A → M K B) → Outcome K B
continue (ret a w) f = f a w
continue (stop e w) f = stop e w

infixl 5 ◌>>=◌ ◌>>◌
unfoldable pub ◌>>=◌ : {K A B : Type 0} → M K A → (A → M K B) → M K B
◌>>=◌ m f w = continue (m w) f

abbrev pub ◌>>◌ : {K B : Type 0} → M K (Unit {0}) → M K B → M K B
m >> k = m >>= λ _. k

unfoldable pub pure : {K A : Type 0} → A → M K A
pure a w = ret a w

unfoldable pub halt : {K A : Type 0} → Exit → M K A
halt e w = stop e w

unfoldable pub gets : {K A : Type 0} → (World K → A) → M K A
gets f w = ret (f w) w

unfoldable pub modify : {K : Type 0} → (World K → World K) → M K (Unit {0})
modify f w = ret tt (f w)

-- A system call that returns a result.
unfoldable pub call : {K A : Type 0} → (K → A × K) → M K A
call f w = let (a, k) = f w.kernel in ret a (record w { kernel = k })

-- What a result satisfies, returned or stopped.
abbrev pub Ensures :
    {K A : Type 0} → (A → World K → Type 0) → (World K → Type 0) → Outcome K A → Type 0
Ensures Q R (ret a w) = Q a w
Ensures Q R (stop e w) = R w
