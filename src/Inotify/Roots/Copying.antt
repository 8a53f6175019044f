-- ===== src/Inotify/Roots/Copying.antt =====
-- Copying the root pathnames of the command line.
use my_notes.Common.{◌≡◌, refl, sym, List, [], ◌∷◌, some, map, Bytes}
use my_notes.Inotify.World.{Os, Stat, failure}
use my_notes.Inotify.World.Keeps.{
  zapped_count, Keeps, Keeps-bind, Keeps-if, Keeps-elim, Keeps-modify, Keeps-call, Keeps-halt,
  Keeps-pure,
}
use my_notes.Inotify.Roots.{check_root_dirs, stat_root_dirs, copy_root_dir_paths}

zapped_count-map : (argv : List Bytes) → zapped_count (map some argv) ≡ 0
zapped_count-map [] = refl
zapped_count-map (p ∷ argv) = zapped_count-map argv

module _ {K : Type 0} (os : Os K) where
  check_root_dirs-Keeps : (argv : List Bytes) → Keeps (check_root_dirs os argv)
  unfolding check_root_dirs
  check_root_dirs-Keeps [] = Keeps-pure tt
  check_root_dirs-Keeps (p ∷ argv) = Keeps-bind _ _ (Keeps-call _) (λ sb.
      Keeps-elim sb _ _ (Keeps-halt failure)
        (λ st. Keeps-if _ _ _ (check_root_dirs-Keeps argv) (Keeps-halt failure)))

  stat_root_dirs-Keeps :
      (argv : List Bytes) (earlier : List Stat) → Keeps (stat_root_dirs os argv earlier)
  unfolding stat_root_dirs
  stat_root_dirs-Keeps [] earlier = Keeps-pure tt
  stat_root_dirs-Keeps (p ∷ argv) earlier = Keeps-bind _ _ (Keeps-call _) (λ sb.
      Keeps-elim sb _ _ (Keeps-halt failure)
        (λ st. Keeps-if _ _ _ (Keeps-halt failure) (stat_root_dirs-Keeps argv _)))

  pub copy_root_dir_paths-Keeps : (argv : List Bytes) → Keeps (copy_root_dir_paths os argv)
  unfolding copy_root_dir_paths
  copy_root_dir_paths-Keeps argv = Keeps-bind _ _ (check_root_dirs-Keeps argv) (λ _.
      Keeps-bind _ _ (stat_root_dirs-Keeps argv []) (λ _.
        Keeps-modify _
          (λ w g. record { well_formed = g.well_formed; ignored = sym (zapped_count-map argv) })))
