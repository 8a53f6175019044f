-- ===== src/Inotify/Watching.antt =====
-- Adding and removing watches in inotify_dtree.c, and rebuilding the cache.
pub mod Invariant
pub mod Removing
pub mod Zapping
use my_notes.Common.{
  ℕ, ◌+◌, Bool, true, false, ◌&&◌, List, [], ◌∷◌, Option, none, some, Bytes, ℤ, minus_one, eq_ℤ,
  is_nonneg, if◌then◌else◌,
}
use my_notes.Inotify.Cache.{Cache, empty_slot, find_watch, add_watch_to_cache}
use my_notes.Inotify.World.{
  Os, World, M, ret, stop, failure, ◌>>=◌, ◌>>◌, pure, halt, gets, modify, call,
}
use my_notes.Inotify.Paths.{in_subtree}
use my_notes.Inotify.Roots.{is_root_dir_path}

-- A descriptor that is cached already is left alone; a new one is counted and cached.
cache_unless_found : {K : Type 0} → Option ℕ → Bytes → ℤ → M K (Unit {0})
cache_unless_found (some slot) pathname wd w = ret tt w
cache_unless_found none pathname wd w =
    ret tt
      (record w { dir_cnt = w.dir_cnt + 1; cache = (add_watch_to_cache w.cache wd pathname).1 })

-- The end of `traverseTree`, after `inotify_add_watch` returned `wd`: a failure is tolerated if the
-- directory is gone.
cache_new_watch : {K : Type 0} → Bytes → ℤ → Bool → M K (Unit {0})
cache_new_watch pathname wd is_enoent w =
    if eq_ℤ wd minus_one
    then if is_enoent then ret tt w else stop failure w
    else cache_unless_found (find_watch w.cache wd) pathname wd w

-- What the loop of `zapSubtree` leaves: the slots, the count (`none` is -1) and the kernel.
pub record Zapped (K : Type 0) : Type 0 where
  pub slots : Cache
  pub cnt : Option ℕ
  pub kernel : K

module _ {K : Type 0} (os : Os K) where
  -- The callback of `nftw`. It returns 0 or exits, so it never cuts the traversal short.
  pub traverse_tree : Bytes → Bool → M K (Unit {0})
  traverse_tree pathname false = pure tt
  traverse_tree pathname true = do
    w ← gets (λ w. w)
    let is_root = is_root_dir_path w.root_dir_paths pathname
    res ← call (λ k. os.inotify_add_watch k w.inotify_fd pathname is_root)
    cache_new_watch pathname res.0 res.1

  traverse_all : List (Bytes × Bool) → M K (Unit {0})
  traverse_all [] = pure tt
  traverse_all ((pathname, is_dir) ∷ visits) = do traverse_tree pathname is_dir; traverse_all visits

  -- Returns the number of entries added. (`inotifyFd` is the descriptor of the world.)
  pub watch_dir : Bytes → M K ℕ
  watch_dir pathname = do
    modify (λ w. record w { dir_cnt = 0 })
    visits ← call (λ k. os.nftw k pathname)
    traverse_all visits
    gets (λ w. w.dir_cnt)

  pub watch_subtree : Bytes → M K (Unit {0})
  watch_subtree path = do cnt ← watch_dir path; pure tt

  -- The loop of `zapSubtree`, which stops at the first `inotify_rm_watch` that fails.
  pub zap_slots : ℤ → Bytes → Cache → ℕ → K → Zapped K
  zap_slots fd pn [] cnt k = record { slots = []; cnt = some cnt; kernel = k }
  zap_slots fd pn (w ∷ c) cnt k =
      let (is_ok, k') = os.inotify_rm_watch k fd w.wd in
      let keep = zap_slots fd pn c cnt k in
      let zap = zap_slots fd pn c (cnt + 1) k' in
      if is_nonneg w.wd && in_subtree pn w.path
      then (if is_ok
          then record zap { slots = empty_slot ∷ zap.slots }
          else record { slots = w ∷ c; cnt = none; kernel = k' })
      else record keep { slots = w ∷ keep.slots }

  -- The number of entries zapped, or `none` for -1.
  pub zap_subtree : Bytes → M K (Option ℕ)
  zap_subtree path w =
      let z = zap_slots w.inotify_fd path w.cache 0 w.kernel in
      ret z.cnt (record w { cache = z.slots; kernel = z.kernel })

  watch_roots : List (Option Bytes) → M K (Unit {0})
  watch_roots [] = pure tt
  watch_roots (none ∷ roots) = watch_roots roots
  watch_roots (some path ∷ roots) = do watch_subtree path; watch_roots roots

  reset_reinit_cnt : World K → World K
  reset_reinit_cnt w = record w { reinit_cnt = 0 }

  close_inotify_fd : World K → World K
  close_inotify_fd w = record w {
    kernel = os.close w.kernel w.inotify_fd;
    reinit_cnt = w.reinit_cnt + 1;
  }

  -- With `is_initial` the argument of the source is -1; else it is the current descriptor.
  pub reinitialize : Bool → M K (Unit {0})
  reinitialize is_initial = do
    modify (if is_initial then reset_reinit_cnt else close_inotify_fd)
    fd ← call os.inotify_init
    if eq_ℤ fd minus_one then halt failure else (do
      modify (λ w. record w { inotify_fd = fd; cache = [] })
      roots ← gets (λ w. w.root_dir_paths)
      watch_roots roots)
