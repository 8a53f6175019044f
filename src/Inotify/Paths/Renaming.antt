-- ===== src/Inotify/Paths/Renaming.antt =====
-- Which pathnames belong to a subtree, and what a rename does to the cached ones.
use mathlib.Core.Path.{subst}
use my_notes.Common.{
  ℕ, zero, suc, ◌+◌, ◌-◌, ◌<◌, ◌≡◌, ◌≢◌, ◌↔◌, ◌⊎◌, inl, inr, refl, sym, ap, ◌∙◌, true, false,
  Bool-cases, Option, some, [], ◌∷◌, ◌++◌, append-nil, map, Bytes, ℤ, if◌then◌else◌, length, take,
  drop, starts_with-append, starts_with-nil, append-drop_of_starts_with, drop-append, length-append,
  length-take_le, take_self, All, arith,
}
use my_notes.Inotify.Cache.{Cache, Watch, path_max}
use my_notes.Inotify.Cache.WellFormed.{IsEntry, Absent, Distinct, IsWellFormed}
use my_notes.Inotify.Cache.Lookup.{path_of}
use my_notes.Inotify.Paths.{
  join_path, at_component_end, in_subtree, rewrite_path, rewrite_cached_paths,
}

-- `path` is the directory itself, or lies below it.
abbrev pub IsUnder : Bytes → Bytes → Type 0
IsUnder dir path = (path ≡ dir) ⊎ ((rest : Bytes) × (path ≡ dir ++ (b'/' ∷ rest)))

component_end-cases :
    (r : Bytes) → at_component_end r ≡ true → (r ≡ []) ⊎ ((rest : Bytes) × (r ≡ b'/' ∷ rest))
component_end-cases [] h = inl refl
component_end-cases (b ∷ r) h = inr (r, ground arith)

-- The test of the C code accepts exactly the directory and what lies below it: a sibling whose name
-- only begins with the same letters is not taken.
pub in_subtree_iff : (dir path : Bytes) → (in_subtree dir path ≡ true) ↔ IsUnder dir path
unfolding in_subtree
in_subtree_iff dir path = (to, from)
  where
    to : in_subtree dir path ≡ true → IsUnder dir path
    to h =
        let whole = append-drop_of_starts_with dir path (ground arith) in
        elim (component_end-cases (drop (length dir) path) (ground arith)) [
          | inl e ↦ inl (sym whole ∙ ap (λ r. dir ++ r) e ∙ append-nil dir)
          | inr (rest, e) ↦ inr (rest, sym whole ∙ ap (λ r. dir ++ r) e)
        ]

    split : (r : Bytes) → at_component_end r ≡ true → path ≡ dir ++ r → in_subtree dir path ≡ true
    split r h e = rw (e, starts_with-append dir r, drop-append dir r) h

    from : IsUnder dir path → in_subtree dir path ≡ true
    from (inl e) = split [] refl (e ∙ sym (append-nil dir))
    from (inr (rest, e)) = split (b'/' ∷ rest) refl e

pub in_subtree-nil : (dir path : Bytes) → dir ≢ [] → path ≡ [] → in_subtree dir path ≡ false
unfolding in_subtree
in_subtree-nil dir path h e = rw (e, starts_with-nil dir h)

module _ (full new : Bytes) where
  rewrite_path-wd : (w : Watch) → (rewrite_path full new w).wd ≡ w.wd
  unfolding rewrite_path
  rewrite_path-wd w = ground arith

  path_of-rewrite :
      (c : Cache) (wd : ℤ) (p : Bytes)
      → path_of c wd ≡ some p
      → path_of (map (rewrite_path full new) c) wd
        ≡ some (if in_subtree full p then take (path_max - 1) (new ++ drop (length full) p) else p)
  unfolding rewrite_path
  path_of-rewrite [] wd p h = cc
  path_of-rewrite (w ∷ c) wd p h = ground (arith, path_of-rewrite c wd p)

  Absent-rewrite : (c : Cache) (wd : ℤ) → Absent wd c → Absent wd (map (rewrite_path full new) c)
  Absent-rewrite [] wd a = tt
  Absent-rewrite (w ∷ c) wd a = (rw (rewrite_path-wd w) a.0, Absent-rewrite c wd a.1)

  Distinct-rewrite : (c : Cache) → Distinct c → Distinct (map (rewrite_path full new) c)
  Distinct-rewrite [] d = tt
  Distinct-rewrite (w ∷ c) d =
      (rw (rewrite_path-wd w) (λ h. Absent-rewrite c w.wd (d.0 h)), Distinct-rewrite c d.1)

  rewrite_path-IsEntry : (w : Watch) → full ≢ [] → IsEntry w → IsEntry (rewrite_path full new w)
  unfolding rewrite_path
  rewrite_path-IsEntry w h (inl e) = rw (in_subtree-nil full w.path h e.1) (inl e)
  rewrite_path-IsEntry w h (inr e) = elim (Bool-cases (in_subtree full w.path)) [
    | inl under ↦
        rw under (
          inr
            (e.0, omega (arith, length-take_le (path_max - 1) (new ++ drop (length full) w.path))))
    | inr out ↦ rw out (inr e)
  ]

  entries-rewrite :
      (c : Cache) → full ≢ [] → All IsEntry c → All IsEntry (map (rewrite_path full new) c)
  entries-rewrite [] h a = tt
  entries-rewrite (w ∷ c) h a = (rewrite_path-IsEntry w h a.0, entries-rewrite c h a.1)

join_path-ne-nil : (size : ℕ) (prefix name : Bytes) → 1 < size → join_path size prefix name ≢ []
join_path-ne-nil size [] name h = first (size - 1) (omega arith)
  where
    first : (n : ℕ) → 0 < n → take n (b'/' ∷ name) ≢ []
    first zero l = absurd (omega arith)
    first (suc n) l = λ e. cc
join_path-ne-nil size (b ∷ prefix) name h = first (size - 1) (omega arith)
  where
    first : (n : ℕ) → 0 < n → take n (b ∷ (prefix ++ (b'/' ∷ name))) ≢ []
    first zero l = absurd (omega arith)
    first (suc n) l = λ e. cc

-- A rename keeps the invariant of the cache, whatever the lengths of the names.
pub rewrite_cached_paths-IsWellFormed :
    (c : Cache) (old_path_prefix old_name new_path_prefix new_name : Bytes)
    → IsWellFormed c
    → IsWellFormed (rewrite_cached_paths c old_path_prefix old_name new_path_prefix new_name)
unfolding rewrite_cached_paths
rewrite_cached_paths-IsWellFormed c op on np nn f =
    let full = join_path path_max op on in
    let new = join_path path_max np nn in
    record {
      entries =
          entries-rewrite full new c (join_path-ne-nil path_max op on (omega arith)) f.entries;
      distinct = Distinct-rewrite full new c f.distinct;
    }

join_path-fits :
    (size : ℕ) (prefix name : Bytes)
    → length (prefix ++ (b'/' ∷ name)) < size
    → join_path size prefix name ≡ prefix ++ (b'/' ∷ name)
join_path-fits size prefix name h = take_self (size - 1) (prefix ++ (b'/' ∷ name)) (omega arith)

-- What a rename does to one watch whose path was `p`: the directory gets its new name, what lies
-- below it keeps its rest behind the new name, and every other path stays.
pub record Renamed (full new p : Bytes) (after : Option Bytes) : Type 0 where
  pub itself : p ≡ full → after ≡ some new
  pub below : (rest : Bytes) → p ≡ full ++ (b'/' ∷ rest) → after ≡ some (new ++ (b'/' ∷ rest))
  pub others : ¬ IsUnder full p → after ≡ some p

rewritten_under :
    (full new p r : Bytes)
    → length new + length p < path_max
    → IsUnder full p
    → p ≡ full ++ r
    → (if in_subtree full p then take (path_max - 1) (new ++ drop (length full) p) else p)
      ≡ new ++ r
rewritten_under full new p r h u e =
    let fits : length new + length (full ++ r) < path_max =
      subst (λ q. length new + length q < path_max) e h in
    rw ((in_subtree_iff full p).1 u) (
      ap (λ q. take (path_max - 1) (new ++ drop (length full) q)) e
      ∙ ap (λ q. take (path_max - 1) (new ++ q)) (drop-append full r)
      ∙ take_self (path_max - 1) (new ++ r)
          (omega (arith, length-append new r, length-append full r)))

rewritten-Renamed :
    (full new p : Bytes)
    → length new + length p < path_max
    → Renamed full new p
        (some (if in_subtree full p then take (path_max - 1) (new ++ drop (length full) p) else p))
rewritten-Renamed full new p h = record {
  itself = λ e.
      ap some
        (rewritten_under full new p [] h (inl e) (e ∙ sym (append-nil full)) ∙ append-nil new);
  below = λ rest e. ap some (rewritten_under full new p (b'/' ∷ rest) h (inr (rest, e)) e);
  others = λ no. elim (Bool-cases (in_subtree full p)) [
    | inl y ↦ absurd (no ((in_subtree_iff full p).0 y))
    | inr n ↦ rw n
  ];
}

-- If no pathname is too long, a rename of `old_path_prefix/old_name` to `new_path_prefix/new_name`
-- gives every cached watch the path that the file system now has for it.
pub rewrite_cached_paths-Renamed :
    (c : Cache) (old_path_prefix old_name new_path_prefix new_name p : Bytes) (wd : ℤ)
    → path_of c wd ≡ some p
    → length (old_path_prefix ++ (b'/' ∷ old_name)) < path_max
    → length (new_path_prefix ++ (b'/' ∷ new_name)) + length p < path_max
    → Renamed
        (old_path_prefix ++ (b'/' ∷ old_name))
        (new_path_prefix ++ (b'/' ∷ new_name))
        p
        (path_of (rewrite_cached_paths c old_path_prefix old_name new_path_prefix new_name) wd)
unfolding rewrite_cached_paths
rewrite_cached_paths-Renamed c op on np nn p wd e fits_old fits =
    let full = op ++ (b'/' ∷ on) in
    let new = np ++ (b'/' ∷ nn) in
    rw
      (
        join_path-fits path_max op on fits_old,
        join_path-fits path_max np nn (omega arith),
        path_of-rewrite full new c wd p e,
      )
      (rewritten-Renamed full new p fits)
