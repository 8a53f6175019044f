-- ===== src/Inotify/Commands/Invariant.antt =====
-- The interactive commands keep the variables consistent.
use my_notes.Common.{ℕ, ◌+◌, refl, true, List, [], ◌∷◌, Option, none, some, Bytes, ℤ}
use my_notes.Inotify.Cache.{Watch}
use my_notes.Inotify.World.{Os, success, failure, undefined}
use my_notes.Inotify.World.Keeps.{
  IsDocumented, Keeps, Keeps-bind, Keeps-if, Keeps-elim, Keeps-frame, Keeps-gets, Keeps-call,
  Keeps-halt, Keeps-pure,
}
use my_notes.Inotify.Watching.Invariant.{watch_subtree-Keeps, zap_subtree-Keeps, reinitialize-Keeps}
use my_notes.Inotify.Commands.{
  Input, no_input, blank, command, check_pathnames, check_all_cached_pathnames_exist,
  refresh_subtree, zap_command, write_paths, set_verbosity, toggle_dump, toggle_check,
  rebuild_cache, run_command, execute_command,
}

module _ {K : Type 0} (os : Os K) (atoi : Bytes → ℤ) (doc : IsDocumented os) where
  check_pathnames-Keeps :
      (entries : List (ℕ × Watch)) (cnt failures : ℕ)
      → Keeps (check_pathnames os atoi entries cnt failures)
  unfolding check_pathnames
  check_pathnames-Keeps [] cnt failures = Keeps-pure _
  check_pathnames-Keeps ((j, e) ∷ rest) cnt failures = Keeps-bind _ _ (Keeps-call _) (λ res.
      Keeps-elim res _ _ (check_pathnames-Keeps rest cnt (failures + 1))
        (λ st. Keeps-if _ _ _ (check_pathnames-Keeps rest (cnt + 1) failures) (Keeps-halt failure)))

  check_all-Keeps : Keeps (check_all_cached_pathnames_exist os atoi)
  unfolding check_all_cached_pathnames_exist
  check_all-Keeps = Keeps-bind _ _ (Keeps-gets _) (λ c. check_pathnames-Keeps _ 0 0)

  refresh_subtree-Keeps : (arg : Option Bytes) → Keeps (refresh_subtree os atoi arg)
  unfolding refresh_subtree
  refresh_subtree-Keeps none = Keeps-halt undefined
  refresh_subtree-Keeps (some arg) =
      Keeps-bind _ _ (zap_subtree-Keeps os doc arg)
        (λ cnt. Keeps-bind _ _ (watch_subtree-Keeps os doc arg) (λ _. Keeps-pure _))

  zap_command-Keeps : (arg : Option Bytes) → Keeps (zap_command os atoi arg)
  unfolding zap_command
  zap_command-Keeps none = Keeps-halt undefined
  zap_command-Keeps (some arg) = Keeps-bind _ _ (zap_subtree-Keeps os doc arg) (λ cnt. Keeps-pure _)

  write_paths-Keeps : (arg : Option Bytes) → Keeps (write_paths os atoi arg)
  unfolding write_paths
  write_paths-Keeps none = Keeps-halt undefined
  write_paths-Keeps (some arg) = Keeps-gets _

  set_verbosity-Keeps : (arg : Option Bytes) → Keeps (set_verbosity os atoi arg)
  unfolding set_verbosity
  set_verbosity-Keeps none =
      Keeps-bind _ _ (Keeps-gets _)
        (λ old. Keeps-bind _ _ (Keeps-frame _ (λ w. (refl, refl, refl))) (λ _. Keeps-pure _))
  set_verbosity-Keeps (some arg) =
      Keeps-bind _ _ (Keeps-frame _ (λ w. (refl, refl, refl))) (λ _. Keeps-pure _)

  toggle_dump-Keeps : Keeps (toggle_dump os atoi)
  unfolding toggle_dump
  toggle_dump-Keeps =
      Keeps-bind _ _ (Keeps-gets _)
        (λ old. Keeps-bind _ _ (Keeps-frame _ (λ w. (refl, refl, refl))) (λ _. Keeps-pure _))

  toggle_check-Keeps : Keeps (toggle_check os atoi)
  unfolding toggle_check
  toggle_check-Keeps =
      Keeps-bind _ _ (Keeps-gets _)
        (λ old. Keeps-bind _ _ (Keeps-frame _ (λ w. (refl, refl, refl))) (λ _. Keeps-pure _))

  rebuild_cache-Keeps : Keeps (rebuild_cache os atoi)
  unfolding rebuild_cache
  rebuild_cache-Keeps =
      Keeps-bind _ _ (Keeps-frame _ (λ w. (refl, refl, refl)))
        (λ _. Keeps-bind _ _ (reinitialize-Keeps os doc true) (λ _. Keeps-pure _))

  run_command-Keeps : (cmd : ℕ) (arg : Option Bytes) → Keeps (run_command os atoi cmd arg)
  unfolding run_command
  run_command-Keeps cmd arg = Keeps-if _ _ _ (refresh_subtree-Keeps arg) (
      Keeps-if _ _ _ check_all-Keeps (
        Keeps-if _ _ _ (Keeps-gets _) (
          Keeps-if _ _ _ (Keeps-halt success) (
            Keeps-if _ _ _ (set_verbosity-Keeps arg) (
              Keeps-if _ _ _ toggle_dump-Keeps (
                Keeps-if _ _ _ toggle_check-Keeps (
                  Keeps-if _ _ _ (write_paths-Keeps arg) (
                    Keeps-if _ _ _ (zap_command-Keeps arg)
                      (Keeps-if _ _ _ rebuild_cache-Keeps (Keeps-pure _))))))))))

  pub execute_command-Keeps : (input : Input) → Keeps (execute_command os atoi input)
  unfolding execute_command
  execute_command-Keeps no_input = Keeps-halt failure
  execute_command-Keeps blank = Keeps-pure _
  execute_command-Keeps (command cmd arg) = run_command-Keeps cmd arg
