-- ===== src/Inotify/Roots/Zapping.antt =====
-- Forgetting root directories: the count of forgotten ones, and when the program ends.
use mathlib.Core.Path.{subst}
use my_notes.Common.{
  inl, inr, Option-cases, ℕ, suc, ◌+◌, ◌<◌, ◌≤◌, ◌≡◌, refl, sym, ◌≢◌, zero, true, false, Bool-cases,
  Option, none, some, List, [], ◌∷◌, Bytes, ◌==◌, length, get_elem?, set, length-set, str_eq,
  str_eq_iff, arith,
}
use my_notes.Inotify.World.{
  World, Outcome, ret, stop, success, failure, aborted, undefined, blocked,
}
use my_notes.Inotify.World.Keeps.{zapped_count, IsConsistent, Keeps}
use my_notes.Inotify.Roots.{root_dir_path_from, find_root_dir_path, zap_root_dir_path, forget_root}

pub zapped_count-le-length : (roots : List (Option Bytes)) → zapped_count roots ≤ length roots
zapped_count-le-length [] = omega arith
zapped_count-le-length (none ∷ roots) = omega (arith, zapped_count-le-length roots)
zapped_count-le-length (some p ∷ roots) = omega (arith, zapped_count-le-length roots)

-- No root path up to a place is the path.
abbrev pub NotBefore : List (Option Bytes) → Bytes → ℕ → Type 0
NotBefore roots path j = (i : ℕ) → i < j → get_elem? roots i ≢ some (some path)

NotBefore-cons :
    (o : Option Bytes) (roots : List (Option Bytes)) (path : Bytes) (j : ℕ)
    → o ≢ some path
    → NotBefore roots path j
    → NotBefore (o ∷ roots) path (suc j)
NotBefore-cons o roots path j other rest zero h e = other (grind arith)
NotBefore-cons o roots path j other rest (suc i) h e = rest i (omega arith) e

none-other : (path : Bytes) → none ≢ some path
none-other path e = cc

some-other : (path p : Bytes) → str_eq path p ≡ false → some p ≢ some path
some-other path p h e =
    let same : p ≡ path = grind arith in
    let eq : str_eq path p ≡ true = (str_eq_iff path p).1 (sym same) in cc

root_dir_path_from_at :
    (roots : List (Option Bytes)) (path : Bytes) (i j : ℕ)
    → root_dir_path_from roots path i ≡ some j
    → (k : ℕ) × (j ≡ i + k)
      × (get_elem? roots k ≡ some (some path))
      × NotBefore roots path k
      × (zapped_count (set roots k none) ≡ zapped_count roots + 1)
unfolding root_dir_path_from
root_dir_path_from_at [] path i j h = cc
root_dir_path_from_at (none ∷ roots) path i j h =
    let (k, e, at, first, n) = root_dir_path_from_at roots path (suc i) j h in
    (suc k, omega arith, at, NotBefore-cons none roots path k (none-other path) first, omega arith)
root_dir_path_from_at (some p ∷ roots) path i j h = elim (Bool-cases (str_eq path p)) [
  | inl y ↦
      (0, ground arith, ground (arith, str_eq_iff path p), (λ i h. absurd (omega arith)), refl)
  | inr n ↦
      let (k, e, at, first, c) = root_dir_path_from_at roots path (suc i) j (ground arith) in
      (suc k, omega arith, at, NotBefore-cons (some p) roots path k (some-other path p n) first, c)
]

root_dir_path_from-none :
    (roots : List (Option Bytes)) (path : Bytes) (i k : ℕ)
    → root_dir_path_from roots path i ≡ none
    → get_elem? roots k ≢ some (some path)
unfolding root_dir_path_from
root_dir_path_from-none [] path i k h e = cc
root_dir_path_from-none (none ∷ roots) path i zero h e = grind arith
root_dir_path_from-none (none ∷ roots) path i (suc k) h e =
    root_dir_path_from-none roots path (suc i) k h e
root_dir_path_from-none (some p ∷ roots) path i zero h e =
    let same : p ≡ path = grind arith in
    let eq : str_eq path p ≡ true = (str_eq_iff path p).1 (sym same) in ground arith
root_dir_path_from-none (some p ∷ roots) path i (suc k) h e =
    root_dir_path_from-none roots path (suc i) k (ground arith) e

-- A root path that is found is the first that is the path looked for; forgetting it counts one more.
pub find_root_dir_path_at :
    (roots : List (Option Bytes)) (path : Bytes) (j : ℕ)
    → find_root_dir_path roots path ≡ some j
    → (get_elem? roots j ≡ some (some path))
      × NotBefore roots path j
      × (zapped_count (set roots j none) ≡ zapped_count roots + 1)
unfolding find_root_dir_path
find_root_dir_path_at roots path j h =
    let (k, e, at, first, n) = root_dir_path_from_at roots path 0 j h in
    let same : k ≡ j = omega arith in
    subst
      (λ x.
        (get_elem? roots x ≡ some (some path))
        × NotBefore roots path x
        × (zapped_count (set roots x none) ≡ zapped_count roots + 1))
      same (at, first, n)

-- The first root that is the path is forgotten, and nothing else is changed but the count of the
-- forgotten roots, which is then the number of the roots that are NULL.
abbrev pub ForgetsRoot : {K : Type 0} → Bytes → World K → World K → Type 0
ForgetsRoot path w w' =
    (j : ℕ) × (get_elem? w.root_dir_paths j ≡ some (some path))
    × NotBefore w.root_dir_paths path j
    × (w' ≡ record w {
      root_dir_paths = set w.root_dir_paths j none;
      ignore_root_dirs = w.ignore_root_dirs + 1;
    })
    × (zapped_count w'.root_dir_paths ≡ zapped_count w.root_dir_paths + 1)

-- What `zapRootDirPath` may do, from the variables `w`.
abbrev pub ZapsRoot : {K : Type 0} → Bytes → World K → Outcome K (Unit {0}) → Type 0
ZapsRoot path w (ret _ w') =
    ForgetsRoot path w w' × (zapped_count w'.root_dir_paths < length w'.root_dir_paths)
ZapsRoot path w (stop success w') =
    ForgetsRoot path w w' × (zapped_count w'.root_dir_paths ≡ length w'.root_dir_paths)
ZapsRoot path w (stop failure w') =
    ((j : ℕ) → get_elem? w.root_dir_paths j ≢ some (some path)) × (w' ≡ w)
ZapsRoot path w (stop aborted w') = ⊥
ZapsRoot path w (stop undefined w') = ⊥
ZapsRoot path w (stop blocked w') = ⊥

-- Zapping a root path sets the first root that is this path to NULL and changes no other root. The
-- program goes on if a root is left, and ends successfully if none is left. If no root is the path, it
-- fails with nothing changed.
pub zap_root_dir_path_lem :
    {K : Type 0} (path : Bytes) (w : World K)
    → IsConsistent w
    → ZapsRoot path w (zap_root_dir_path path w)
unfolding zap_root_dir_path find_root_dir_path forget_root
zap_root_dir_path_lem path w g =
    let roots = w.root_dir_paths in
    elim (Option-cases (find_root_dir_path roots path)) [
      | inl e ↦ rw e ((λ j. root_dir_path_from-none roots path 0 j e), refl)
      | inr (j, e) ↦
          let (at, first, n) = find_root_dir_path_at roots path j e in
          let len = length-set roots j none in
          let le = zapped_count-le-length (set roots j none) in
          elim (Bool-cases (w.ignore_root_dirs + 1 == length roots)) [
            | inl y ↦ rw (e, y) ((j, at, first, refl, n), ground (arith, n, len))
            | inr more ↦ rw (e, more) ((j, at, first, refl, n), ground (arith, n, len, le))
          ]
    ]

pub zap_root_dir_path-Keeps : {K : Type 0} (path : Bytes) → Keeps {K = K} (zap_root_dir_path path)
unfolding zap_root_dir_path forget_root
zap_root_dir_path-Keeps path = record {
  keep = λ w g. elim (Option-cases (find_root_dir_path w.root_dir_paths path)) [
    | inl e ↦ rw e g
    | inr (j, e) ↦
        let n = (find_root_dir_path_at w.root_dir_paths path j e).2 in
        elim (Bool-cases (w.ignore_root_dirs + 1 == length w.root_dir_paths)) [
          | inl y ↦ rw (e, y) (record { well_formed = g.well_formed; ignored = omega (arith, n) })
          | inr m ↦ rw (e, m) (record { well_formed = g.well_formed; ignored = omega (arith, n) })
        ]
  ];
}
