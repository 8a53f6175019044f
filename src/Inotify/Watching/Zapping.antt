-- ===== src/Inotify/Watching/Zapping.antt =====
-- The loop of `zapSubtree`: which watches it removes, and what it leaves.
use mathlib.Core.Path.{subst}
use my_notes.Common.{
  ◌⊎◌, ℕ, ◌+◌, ◌≡◌, inl, inr, refl, true, length, Bool-cases, Option, none, some, [], ◌∷◌, Bytes, ℤ,
  eq_ℤ, eq_ℤ_iff, is_nonneg, ◌&&◌, if◌then◌else◌, All, arith,
}
use my_notes.Inotify.Cache.{Cache}
use my_notes.Inotify.Cache.WellFormed.{IsEntry, Absent, Absent_empty, Distinct, IsWellFormed}
use my_notes.Inotify.Cache.Lookup.{path_of, path_of-Absent}
use my_notes.Inotify.World.{Os, World, Ensures}
use my_notes.Inotify.World.Keeps.{IsConsistent}
use my_notes.Inotify.Paths.{in_subtree}
use my_notes.Inotify.Watching.Removing.{
  wds_below, Removes, FailsAt, zap_slots-Removes, zap_slots-FailsAt,
}
use my_notes.Inotify.Watching.{Zapped, zap_slots, zap_subtree}

-- The number of live slots.
abbrev pub live_count : Cache → ℕ
live_count [] = 0
live_count (w ∷ c) = (if is_nonneg w.wd then 1 else 0) + live_count c

-- What is left of a cached path when the subtree of `pn` is gone.
abbrev pub outside : Bytes → Option Bytes → Option Bytes
outside pn none = none
outside pn (some p) = if in_subtree pn p then none else some p

module _ {K : Type 0} (os : Os K) (fd : ℤ) (pn : Bytes) where
  zap_slots-entries :
      (c : Cache) (cnt : ℕ) (k : K) → All IsEntry c → All IsEntry (zap_slots os fd pn c cnt k).slots
  unfolding zap_slots
  zap_slots-entries [] cnt k a = tt
  zap_slots-entries (w ∷ c) cnt k a = elim (Bool-cases (is_nonneg w.wd && in_subtree pn w.path)) [
    | inl y ↦ elim (Bool-cases (os.inotify_rm_watch k fd w.wd).0) [
      | inl good ↦
          rw (y, good)
            (inl (refl, refl), zap_slots-entries c (cnt + 1) (os.inotify_rm_watch k fd w.wd).1 a.1)
      | inr bad ↦ rw (y, bad) a
    ]
    | inr n ↦ rw n (a.0, zap_slots-entries c cnt k a.1)
  ]

  zap_slots-Absent :
      (c : Cache) (cnt : ℕ) (k : K) (wd : ℤ)
      → is_nonneg wd ≡ true
      → Absent wd c
      → Absent wd (zap_slots os fd pn c cnt k).slots
  unfolding zap_slots
  zap_slots-Absent [] cnt k wd h a = tt
  zap_slots-Absent (w ∷ c) cnt k wd h a =
      elim (Bool-cases (is_nonneg w.wd && in_subtree pn w.path)) [
        | inl y ↦ elim (Bool-cases (os.inotify_rm_watch k fd w.wd).0) [
          | inl good ↦
              rw (y, good)
                (
                  Absent_empty wd h,
                  zap_slots-Absent c (cnt + 1) (os.inotify_rm_watch k fd w.wd).1 wd h a.1,
                )
          | inr bad ↦ rw (y, bad) a
        ]
        | inr n ↦ rw n (a.0, zap_slots-Absent c cnt k wd h a.1)
      ]

  zap_slots-Distinct :
      (c : Cache) (cnt : ℕ) (k : K) → Distinct c → Distinct (zap_slots os fd pn c cnt k).slots
  unfolding zap_slots
  zap_slots-Distinct [] cnt k d = tt
  zap_slots-Distinct (w ∷ c) cnt k d = elim (Bool-cases (is_nonneg w.wd && in_subtree pn w.path)) [
    | inl y ↦ elim (Bool-cases (os.inotify_rm_watch k fd w.wd).0) [
      | inl good ↦
          rw (y, good)
            (
              λ h. absurd (ground arith),
              zap_slots-Distinct c (cnt + 1) (os.inotify_rm_watch k fd w.wd).1 d.1,
            )
      | inr bad ↦ rw (y, bad) d
    ]
    | inr n ↦ rw n (λ h. zap_slots-Absent c cnt k w.wd h (d.0 h), zap_slots-Distinct c cnt k d.1)
  ]

  -- Removing a subtree keeps the invariant of the cache, also where a removal fails half way.
  pub zap_slots-IsWellFormed :
      (c : Cache) (k : K) → IsWellFormed c → IsWellFormed (zap_slots os fd pn c 0 k).slots
  zap_slots-IsWellFormed c k f = record {
    entries = zap_slots-entries c 0 k f.entries;
    distinct = zap_slots-Distinct c 0 k f.distinct;
  }

  zap_slots-path_of :
      (c : Cache) (cnt n : ℕ) (k : K) (wd : ℤ)
      → Distinct c
      → is_nonneg wd ≡ true
      → (zap_slots os fd pn c cnt k).cnt ≡ some n
      → path_of (zap_slots os fd pn c cnt k).slots wd ≡ outside pn (path_of c wd)
  unfolding zap_slots
  zap_slots-path_of [] cnt n k wd d h e = refl
  zap_slots-path_of (w ∷ c) cnt n k wd d h e =
      let k' = (os.inotify_rm_watch k fd w.wd).1 in
      let missing : eq_ℤ w.wd wd ≡ true → path_of c wd ≡ none = λ s.
        let q : w.wd ≡ wd = (eq_ℤ_iff w.wd wd).0 s in
        path_of-Absent c wd (subst (λ x. Absent x c) q (d.0 (rw q h))) in
      elim (Bool-cases (eq_ℤ w.wd wd)) [
        | inl s ↦ ground (
          arith,
          missing s,
          eq_ℤ_iff w.wd wd,
          zap_slots-path_of c (cnt + 1) n k' wd d.1 h,
          zap_slots-path_of c cnt n k wd d.1 h,
        )
        | inr s ↦ ground (
          arith,
          zap_slots-path_of c (cnt + 1) n k' wd d.1 h,
          zap_slots-path_of c cnt n k wd d.1 h,
        )
      ]

  zap_slots-count :
      (c : Cache) (cnt n : ℕ) (k : K)
      → (zap_slots os fd pn c cnt k).cnt ≡ some n
      → n + live_count (zap_slots os fd pn c cnt k).slots ≡ cnt + live_count c
  unfolding zap_slots
  zap_slots-count [] cnt n k e = ground arith
  zap_slots-count (w ∷ c) cnt n k e = ground (
    arith,
    zap_slots-count c (cnt + 1) n (os.inotify_rm_watch k fd w.wd).1,
    zap_slots-count c cnt n k,
  )

  zap_slots_lem :
      (c : Cache) (k : K) (n : ℕ)
      → IsWellFormed c
      → (zap_slots os fd pn c 0 k).cnt ≡ some n
      → ((wd : ℤ)
          → is_nonneg wd ≡ true
          → path_of (zap_slots os fd pn c 0 k).slots wd ≡ outside pn (path_of c wd))
        × (n + live_count (zap_slots os fd pn c 0 k).slots ≡ live_count c)
  zap_slots_lem c k n f e = (
    λ wd h. zap_slots-path_of c 0 n k wd f.distinct h e,
    omega (arith, zap_slots-count c 0 n k e),
  )

  zap_slots-partly :
      (c : Cache) (cnt : ℕ) (k : K) (wd : ℤ)
      → Distinct c
      → is_nonneg wd ≡ true
      → (path_of (zap_slots os fd pn c cnt k).slots wd ≡ path_of c wd)
        ⊎ (path_of (zap_slots os fd pn c cnt k).slots wd ≡ outside pn (path_of c wd))
  unfolding zap_slots
  zap_slots-partly [] cnt k wd d h = inl refl
  zap_slots-partly (w ∷ c) cnt k wd d h =
      let k' = (os.inotify_rm_watch k fd w.wd).1 in
      let missing : eq_ℤ w.wd wd ≡ true → path_of c wd ≡ none = λ s.
        let q : w.wd ≡ wd = (eq_ℤ_iff w.wd wd).0 s in
        path_of-Absent c wd (subst (λ x. Absent x c) q (d.0 (rw q h))) in
      elim (Bool-cases (eq_ℤ w.wd wd)) [
        | inl s ↦ ground (
          arith,
          missing s,
          eq_ℤ_iff w.wd wd,
          zap_slots-partly c (cnt + 1) k' wd d.1 h,
          zap_slots-partly c cnt k wd d.1 h,
        )
        | inr s ↦
            ground
              (arith, zap_slots-partly c (cnt + 1) k' wd d.1 h, zap_slots-partly c cnt k wd d.1 h)
      ]

-- What `zapSubtree` leaves, by its result.
abbrev pub Zaps : {K : Type 0} → Os K → Bytes → World K → Option ℕ → World K → Type 0
Zaps os path w (some n) w' =
    Removes os w.inotify_fd (wds_below path w.cache) w.kernel w'.kernel
    × (n ≡ length (wds_below path w.cache))
    × ((wd : ℤ) → is_nonneg wd ≡ true → path_of w'.cache wd ≡ outside path (path_of w.cache wd))
    × (n + live_count w'.cache ≡ live_count w.cache)
Zaps os path w none w' =
    FailsAt os w.inotify_fd (wds_below path w.cache) w.kernel w'.kernel
    × ((wd : ℤ)
        → is_nonneg wd ≡ true
        → (path_of w'.cache wd ≡ path_of w.cache wd)
          ⊎ (path_of w'.cache wd ≡ outside path (path_of w.cache wd)))

-- `zapSubtree` always returns. With a count, the kernel has successfully removed the watch of each
-- cached directory that is the given one or lies below it, and no other, and the cache has lost exactly
-- these; the count is their number. It returns -1 exactly where the kernel fails to remove one of these
-- watches; those before it are removed, and each cached watch is as before or gone because it lies in the
-- subtree.
pub zap_subtree_lem :
    {K : Type 0} (os : Os K) (path : Bytes) (w : World K)
    → IsConsistent w
    → Ensures (λ cnt w'. Zaps os path w cnt w') (λ _. ⊥) (zap_subtree os path w)
unfolding zap_subtree
zap_subtree_lem {K} os path w g = go (zap_slots os w.inotify_fd path w.cache 0 w.kernel).cnt refl
  where
    fd : ℤ
    fd = w.inotify_fd

    z : Zapped K
    z = zap_slots os fd path w.cache 0 w.kernel

    go :
        (o : Option ℕ)
        → z.cnt ≡ o
        → Zaps os path w o (record w { cache = z.slots; kernel = z.kernel })
    go (some n) e =
        let (calls, count) = zap_slots-Removes os fd path w.cache 0 n w.kernel e in
        let (paths, lives) = zap_slots_lem os fd path w.cache w.kernel n g.well_formed e in
        (calls, omega (arith, count), paths, lives)
    go none e = (
      zap_slots-FailsAt os fd path w.cache 0 w.kernel e,
      λ wd h. zap_slots-partly os fd path w.cache 0 w.kernel wd g.well_formed.distinct h,
    )
