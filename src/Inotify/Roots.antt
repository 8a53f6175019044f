-- ===== src/Inotify/Roots.antt =====
-- The root directories of inotify_dtree.c: the pathnames of its command line.
pub mod Copying
pub mod Zapping
use my_notes.Common.{
  ℕ, suc, ◌+◌, Bool, true, false, ◌&&◌, List, [], ◌∷◌, ◌++◌, Option, none, some, map, Bytes, ◌==◌,
  is_some, if◌then◌else◌, length, set, str_eq,
}
use my_notes.Inotify.World.{
  Os, Stat, M, ret, stop, success, failure, ◌>>=◌, ◌>>◌, pure, halt, modify, call,
}

-- `findRootDirPath`: the index of the first root path equal to `path`, counted from `j`.
root_dir_path_from : List (Option Bytes) → Bytes → ℕ → Option ℕ
root_dir_path_from [] path j = none
root_dir_path_from (none ∷ roots) path j = root_dir_path_from roots path (suc j)
root_dir_path_from (some p ∷ roots) path j =
    let rest = root_dir_path_from roots path (suc j) in if str_eq path p then some j else rest

pub find_root_dir_path : List (Option Bytes) → Bytes → Option ℕ
unfolding root_dir_path_from
find_root_dir_path roots path = root_dir_path_from roots path 0

pub is_root_dir_path : List (Option Bytes) → Bytes → Bool
is_root_dir_path roots path = is_some (find_root_dir_path roots path)

-- `*p = NULL` at the index found; the program ends when it was the last root.
forget_root : {K : Type 0} → Option ℕ → M K (Unit {0})
forget_root none w = stop failure w
forget_root (some j) w =
    let w' = record w {
      root_dir_paths = set w.root_dir_paths j none;
      ignore_root_dirs = w.ignore_root_dirs + 1;
    } in
    if w.ignore_root_dirs + 1 == length w.root_dir_paths then stop success w' else ret tt w'

pub zap_root_dir_path : {K : Type 0} → Bytes → M K (Unit {0})
zap_root_dir_path path w = forget_root (find_root_dir_path w.root_dir_paths path) w

-- the inner loop: is the file one of those before it?
has_same_file : Stat → List Stat → Bool
has_same_file st [] = false
has_same_file st (s ∷ earlier) =
    if (st.st_ino == s.st_ino) && (st.st_dev == s.st_dev) then true else has_same_file st earlier

module _ {K : Type 0} (os : Os K) where
  -- the first loop of `copyRootDirPaths`: every argument is a directory
  check_root_dirs : List Bytes → M K (Unit {0})
  check_root_dirs [] = pure tt
  check_root_dirs (p ∷ argv) = do
    sb ← call (λ k. os.lstat k p)
    elim sb [
      | none ↦ halt failure
      | some st ↦ if st.is_dir then check_root_dirs argv else halt failure
    ]

  -- the second loop: duplicates are refused, by device and i-node number
  stat_root_dirs : List Bytes → List Stat → M K (Unit {0})
  stat_root_dirs [] earlier = pure tt
  stat_root_dirs (p ∷ argv) earlier = do
    sb ← call (λ k. os.lstat k p)
    elim sb [
      | none ↦ halt failure
      | some st ↦
          if has_same_file st earlier
          then halt failure
          else stat_root_dirs argv (earlier ++ st ∷ [])
    ]

  pub copy_root_dir_paths : List Bytes → M K (Unit {0})
  copy_root_dir_paths argv = do
    check_root_dirs argv
    stat_root_dirs argv []
    modify (λ w. record w { root_dir_paths = map some argv; ignore_root_dirs = 0 })
