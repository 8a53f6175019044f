-- ===== src/Inotify/Watching/Invariant.antt =====
-- The functions that add and remove watches keep the variables consistent.
use my_notes.Common.{
  ℕ, ◌≡◌, ◌⊎◌, inl, inr, refl, Bool, true, false, Bool-cases, List, [], ◌∷◌, Option, none, some,
  Bytes, ℤ, minus_one, eq_ℤ, eq_ℤ_iff, is_nonneg, if◌then◌else◌, arith,
}
use my_notes.Inotify.Cache.{find_watch}
use my_notes.Inotify.Cache.WellFormed.{add_watch_to_cache-IsWellFormed}
use my_notes.Inotify.World.{Os, World, failure, ◌>>=◌, gets, modify, call}
use my_notes.Inotify.World.Keeps.{
  IsConsistent, IsDocumented, Keeps, LeavesConsistent, Keeps-bind, Keeps-if, Keeps-modify,
  Keeps-frame, Keeps-gets, Keeps-call, Keeps-halt, Keeps-pure,
}
use my_notes.Inotify.Roots.{is_root_dir_path}
use my_notes.Inotify.Watching.{
  cache_unless_found, cache_new_watch, traverse_tree, traverse_all, watch_dir, watch_subtree,
  zap_subtree, watch_roots, reinitialize, reset_reinit_cnt, close_inotify_fd,
}
use my_notes.Inotify.Watching.Zapping.{zap_slots-IsWellFormed}

cache_unless_found-LeavesConsistent :
    {K : Type 0} (o : Option ℕ) (pathname : Bytes) (wd : ℤ) (w : World K)
    → IsConsistent w
    → is_nonneg wd ≡ true
    → find_watch w.cache wd ≡ o
    → LeavesConsistent (cache_unless_found o pathname wd w)
unfolding cache_unless_found
cache_unless_found-LeavesConsistent (some slot) pathname wd w g h e = g
cache_unless_found-LeavesConsistent none pathname wd w g h e = record {
  well_formed = add_watch_to_cache-IsWellFormed w.cache wd pathname g.well_formed h e;
  ignored = g.ignored;
}

cache_new_watch-Keeps :
    {K : Type 0} (pathname : Bytes) (wd : ℤ) (is_enoent : Bool)
    → (wd ≡ minus_one) ⊎ (is_nonneg wd ≡ true)
    → Keeps {K = K} (cache_new_watch pathname wd is_enoent)
unfolding cache_new_watch
cache_new_watch-Keeps {K} pathname wd is_enoent doc = record { keep = run is_enoent }
  where
    live : eq_ℤ wd minus_one ≡ false → is_nonneg wd ≡ true
    live n = ground (arith, eq_ℤ_iff wd minus_one)

    run :
        (is_enoent : Bool) (w : World K)
        → IsConsistent w
        → LeavesConsistent (cache_new_watch pathname wd is_enoent w)
    run true w g = elim (Bool-cases (eq_ℤ wd minus_one)) [
      | inl y ↦ rw y g
      | inr n ↦ rw n (cache_unless_found-LeavesConsistent _ pathname wd w g (live n) refl)
    ]
    run false w g = elim (Bool-cases (eq_ℤ wd minus_one)) [
      | inl y ↦ rw y g
      | inr n ↦ rw n (cache_unless_found-LeavesConsistent _ pathname wd w g (live n) refl)
    ]

module _ {K : Type 0} (os : Os K) (doc : IsDocumented os) where
  pub traverse_tree-Keeps :
      (pathname : Bytes) (is_dir : Bool) → Keeps (traverse_tree os pathname is_dir)
  unfolding traverse_tree ◌>>=◌ gets call
  traverse_tree-Keeps pathname false = Keeps-pure tt
  traverse_tree-Keeps pathname true = record {
    keep = λ w g.
        let is_root = is_root_dir_path w.root_dir_paths pathname in
        let res = os.inotify_add_watch w.kernel w.inotify_fd pathname is_root in
        (cache_new_watch-Keeps pathname res.0.0 res.0.1
            (doc.add_watch_result w.kernel w.inotify_fd pathname is_root)).keep
          (record w { kernel = res.1 })
          (record { well_formed = g.well_formed; ignored = g.ignored });
  }

  traverse_all-Keeps : (visits : List (Bytes × Bool)) → Keeps (traverse_all os visits)
  unfolding traverse_all
  traverse_all-Keeps [] = Keeps-pure tt
  traverse_all-Keeps ((pathname, is_dir) ∷ visits) =
      Keeps-bind _ _ (traverse_tree-Keeps pathname is_dir) (λ _. traverse_all-Keeps visits)

  pub watch_dir-Keeps : (pathname : Bytes) → Keeps (watch_dir os pathname)
  unfolding watch_dir
  watch_dir-Keeps pathname = Keeps-bind _ _ (Keeps-frame _ (λ w. (refl, refl, refl))) (λ _.
      Keeps-bind _ _ (Keeps-call _)
        (λ visits. Keeps-bind _ _ (traverse_all-Keeps visits) (λ _. Keeps-gets _)))

  pub watch_subtree-Keeps : (path : Bytes) → Keeps (watch_subtree os path)
  unfolding watch_subtree
  watch_subtree-Keeps path = Keeps-bind _ _ (watch_dir-Keeps path) (λ _. Keeps-pure tt)

  watch_roots-Keeps : (roots : List (Option Bytes)) → Keeps (watch_roots os roots)
  unfolding watch_roots
  watch_roots-Keeps [] = Keeps-pure tt
  watch_roots-Keeps (none ∷ roots) = watch_roots-Keeps roots
  watch_roots-Keeps (some path ∷ roots) =
      Keeps-bind _ _ (watch_subtree-Keeps path) (λ _. watch_roots-Keeps roots)

  pub zap_subtree-Keeps : (path : Bytes) → Keeps (zap_subtree os path)
  unfolding zap_subtree
  zap_subtree-Keeps path = record {
    keep = λ w g. record {
      well_formed = zap_slots-IsWellFormed os w.inotify_fd path w.cache w.kernel g.well_formed;
      ignored = g.ignored;
    };
  }

  restart-Keeps :
      (is_initial : Bool)
      → Keeps (modify (if is_initial then reset_reinit_cnt os else close_inotify_fd os))
  unfolding reset_reinit_cnt close_inotify_fd
  restart-Keeps true = Keeps-frame _ (λ w. (refl, refl, refl))
  restart-Keeps false = Keeps-frame _ (λ w. (refl, refl, refl))

  pub reinitialize-Keeps : (is_initial : Bool) → Keeps (reinitialize os is_initial)
  unfolding reinitialize
  reinitialize-Keeps is_initial = Keeps-bind _ _ (restart-Keeps is_initial) (λ _.
      Keeps-bind _ _ (Keeps-call _) (λ fd. Keeps-if (eq_ℤ fd minus_one) _ _ (Keeps-halt failure) (
        Keeps-bind _ _
          (Keeps-modify _ (λ w g. record {
            well_formed = record { entries = tt; distinct = tt };
            ignored = g.ignored;
          }))
          (λ _. Keeps-bind _ _ (Keeps-gets _) watch_roots-Keeps))))
