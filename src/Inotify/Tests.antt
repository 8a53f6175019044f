-- ===== src/Inotify/Tests.antt =====
-- The theorems about inotify_dtree.c at concrete inputs, and runs of its functions.
use my_notes.Common.{
  ℕ, ◌+◌, ◌≡◌, ◌↔◌, inl, inr, refl, true, false, List, [], ◌∷◌, ◌++◌, none, some, codes, ℤ, pos,
  eq_ℤ, starts_with, if◌then◌else◌, take, arith,
}
use my_notes.Inotify.Cache.{
  first_slot, Cache, path_max, empty_slot, find_watch, mark_cache_slot_empty, add_watch_to_cache,
}
use my_notes.Inotify.Cache.WellFormed.{IsWellFormed}
use my_notes.Inotify.Cache.Lookup.{
  path_of, Finds, find_watch_lem, path_of-mark_cache_slot_empty, path_of-add_watch_to_cache,
}
use my_notes.Inotify.World.{Os, World, Mask, Event, bytes, Ensures}
use my_notes.Inotify.World.Keeps.{IsConsistent, IsDocumented, LeavesConsistent}
use my_notes.Inotify.Paths.{in_subtree, rewrite_cached_paths}
use my_notes.Inotify.Paths.Renaming.{IsUnder, in_subtree_iff, Renamed, rewrite_cached_paths-Renamed}
use my_notes.Inotify.Roots.{zap_root_dir_path}
use my_notes.Inotify.Roots.Zapping.{ZapsRoot, zap_root_dir_path_lem}
use my_notes.Inotify.Watching.{zap_subtree}
use my_notes.Inotify.Watching.Zapping.{Zaps, zap_subtree_lem}
use my_notes.Inotify.Program.{run, start, Ready}
use my_notes.Inotify.Program.Invariant.{run-LeavesConsistent}

-- A kernel whose state is the next watch descriptor, over a file system of single directories.
abbrev toy : Os ℕ
toy = record {
  inotify_init = λ k. (pos 3, k);
  inotify_add_watch = λ k fd p r. ((pos k, false), k + 1);
  inotify_rm_watch = λ k fd wd. (true, k);
  nftw = λ k p. ((p, true) ∷ [], k);
  lstat = λ k p. (some (record { is_dir = true; st_ino = k; st_dev = 0 }), k + 1);
  close = λ k fd. k;
}

toy-IsDocumented : IsDocumented toy
toy-IsDocumented = record { add_watch_result = λ k fd p r. inr refl }

abbrev two_watches : Cache
two_watches =
    record { wd = pos 1; path = codes "a" }
    ∷ empty_slot
    ∷ record { wd = pos 2; path = codes "a/b" }
    ∷ []

one_not_two : ◌≡◌ {A = ℤ} (pos 2) (pos 1) → ⊥
one_not_two e = ground arith

two_watches-IsWellFormed : IsWellFormed two_watches
two_watches-IsWellFormed = record {
  entries = (inr (refl, omega arith), (inl (refl, refl), (inr (refl, omega arith), tt)));
  distinct = (λ _. ((λ e. cc), ((λ e. one_not_two e), tt)), ((λ h. cc), ((λ _. tt), tt)));
}

abbrev world : World ℕ
world = record {
  kernel = 3;
  cache = two_watches;
  root_dir_paths = some (codes "a") ∷ some (codes "c") ∷ [];
  ignore_root_dirs = 0;
  dir_cnt = 0;
  reinit_cnt = 0;
  overflow_cnt = 0;
  inotify_read_cnt = 0;
  verbose_mask = pos 0;
  check_cache = false;
  dump_cache = false;
  abort_on_cache_problem = false;
  has_log = false;
  dumps = [];
  inotify_fd = pos 3;
}

world-IsConsistent : IsConsistent world
world-IsConsistent = record { well_formed = two_watches-IsWellFormed; ignored = refl }

abbrev no_bits : Mask
no_bits = record {
  isdir = false;
  create = false;
  delete_self = false;
  move_self = false;
  moved_from = false;
  moved_to = false;
  ignored = false;
  q_overflow = false;
  unmount = false;
}

-- `a/b` is renamed to `a/x`
abbrev from_b : Event
from_b = record {
  wd = pos 1;
  mask = record no_bits { isdir = true; moved_from = true };
  cookie = 7;
  len = 16;
  name = codes "b";
}

abbrev to_x : Event
to_x = record {
  wd = pos 1;
  mask = record no_bits { isdir = true; moved_to = true };
  cookie = 7;
  len = 16;
  name = codes "x";
}

find_watch_first : find_watch two_watches (pos 1) ≡ some 0
unfolding find_watch first_slot
find_watch_first = refl

find_watch_second : find_watch two_watches (pos 2) ≡ some 2
unfolding find_watch first_slot
find_watch_second = refl

find_watch_missing : find_watch two_watches (pos 3) ≡ none
unfolding find_watch first_slot
find_watch_missing = refl

find_watch_lem_example : Finds two_watches (pos 2) (find_watch two_watches (pos 2))
find_watch_lem_example = find_watch_lem two_watches (pos 2) two_watches-IsWellFormed refl

path_of-mark_cache_slot_empty_example :
    path_of (mark_cache_slot_empty two_watches 2) (pos 1)
    ≡ (if eq_ℤ (pos 2) (pos 1) then none else path_of two_watches (pos 1))
path_of-mark_cache_slot_empty_example =
    path_of-mark_cache_slot_empty two_watches (pos 2) (pos 1) 2 two_watches-IsWellFormed refl refl
      find_watch_second

path_of-add_watch_to_cache_example :
    path_of (add_watch_to_cache two_watches (pos 3) (codes "c")).1 (pos 3) ≡ (
      if eq_ℤ (pos 3) (pos 3)
      then some (take path_max (codes "c"))
      else path_of two_watches (pos 3))
path_of-add_watch_to_cache_example =
    path_of-add_watch_to_cache two_watches (pos 3) (pos 3) (codes "c") refl refl find_watch_missing

-- `ab` is no part of the subtree of `a`
in_subtree_iff_example :
    (in_subtree (codes "a") (codes "ab") ≡ true) ↔ IsUnder (codes "a") (codes "ab")
in_subtree_iff_example = in_subtree_iff (codes "a") (codes "ab")

sibling_outside :
    (in_subtree (codes "a") (codes "ab") ≡ false) × (in_subtree (codes "a") (codes "a/b") ≡ true)
unfolding in_subtree starts_with
sibling_outside = (refl, refl)

rewrite_cached_paths-Renamed_example :
    Renamed (codes "a" ++ (b'/' ∷ codes "b")) (codes "a" ++ (b'/' ∷ codes "x")) (codes "a/b") (
      path_of
        (rewrite_cached_paths two_watches (codes "a") (codes "b") (codes "a") (codes "x"))
        (pos 2))
rewrite_cached_paths-Renamed_example =
    rewrite_cached_paths-Renamed two_watches (codes "a") (codes "b") (codes "a") (codes "x")
      (codes "a/b") (pos 2) refl (omega arith) (omega arith)

zap_root_dir_path_lem_example : ZapsRoot (codes "a") world (zap_root_dir_path (codes "a") world)
zap_root_dir_path_lem_example = zap_root_dir_path_lem (codes "a") world world-IsConsistent

zap_subtree_lem_example :
    Ensures
      (λ cnt w'. Zaps toy (codes "a/b") world cnt w')
      (λ _. ⊥)
      (zap_subtree toy (codes "a/b") world)
zap_subtree_lem_example = zap_subtree_lem toy (codes "a/b") world world-IsConsistent

abbrev one_round : List Ready
one_round = record { stdin = none; inotify = some (bytes 64 (from_b ∷ to_x ∷ []) ∷ []) } ∷ []

run-LeavesConsistent_example :
    LeavesConsistent (run toy (λ s. pos 0) [] (codes "a" ∷ codes "c" ∷ []) one_round (start 1))
run-LeavesConsistent_example =
    run-LeavesConsistent toy (λ s. pos 0) toy-IsDocumented [] (codes "a" ∷ codes "c" ∷ []) one_round
      1
