-- ===== src/Inotify/Watching/Removing.antt =====
-- The calls of `inotify_rm_watch` that `zapSubtree` makes.

use my_notes.Common.{
  ℕ, ◌+◌, ◌≡◌, inl, inr, refl, ap, Bool, true, false, List, ◌++◌, length, Bool-cases, none, some,
  [], ◌∷◌, Bytes, ℤ, is_nonneg, ◌&&◌, if◌then◌else◌, arith,
}
use my_notes.Inotify.Cache.{Cache}
use my_notes.Inotify.World.{Os}
use my_notes.Inotify.Paths.{in_subtree}
use my_notes.Inotify.Watching.{zap_slots}

-- The descriptors of the live slots of the directory and of what lies below it, in their order.
abbrev pub wds_below : Bytes → Cache → List ℤ
wds_below pn [] = []
wds_below pn (w ∷ c) =
    if is_nonneg w.wd && in_subtree pn w.path then w.wd ∷ wds_below pn c else wds_below pn c

-- `inotify_rm_watch` succeeds for each of the descriptors in turn, and takes the kernel from the
-- first state to the last one.
pub data Removes {K : Type 0} (os : Os K) (fd : ℤ) : List ℤ → K → K → Type 0 where
  none_left : (k : K) → Removes os fd [] k k
  removes :
      (wd : ℤ) (wds : List ℤ) (k k1 k' : K)
      → os.inotify_rm_watch k fd wd ≡ (true, k1)
      → Removes os fd wds k1 k'
      → Removes os fd (wd ∷ wds) k k'

-- `inotify_rm_watch` succeeds for some of the descriptors, and fails for the next one.
abbrev pub FailsAt : {K : Type 0} → Os K → ℤ → List ℤ → K → K → Type 0
FailsAt {K} os fd wds k k' =
    (before : List ℤ) × (wd : ℤ) × (behind : List ℤ) × (k1 : K) × (wds ≡ before ++ wd ∷ behind)
    × Removes os fd before k k1
    × (os.inotify_rm_watch k1 fd wd ≡ (false, k'))

module _ {K : Type 0} (os : Os K) (fd : ℤ) (pn : Bytes) where
  rm_watch-result :
      (b : Bool) (k : K) (wd : ℤ)
      → (os.inotify_rm_watch k fd wd).0 ≡ b
      → os.inotify_rm_watch k fd wd ≡ (b, (os.inotify_rm_watch k fd wd).1)
  rm_watch-result b k wd e = ap (λ r. (r, (os.inotify_rm_watch k fd wd).1)) e

  pub zap_slots-Removes :
      (c : Cache) (cnt n : ℕ) (k : K)
      → (zap_slots os fd pn c cnt k).cnt ≡ some n
      → Removes os fd (wds_below pn c) k (zap_slots os fd pn c cnt k).kernel
        × (n ≡ cnt + length (wds_below pn c))
  unfolding zap_slots
  zap_slots-Removes [] cnt n k e = (none_left k, grind arith)
  zap_slots-Removes (w ∷ c) cnt n k e =
      let k1 = (os.inotify_rm_watch k fd w.wd).1 in
      elim (Bool-cases (is_nonneg w.wd && in_subtree pn w.path)) [
        | inl y ↦ elim (Bool-cases (os.inotify_rm_watch k fd w.wd).0) [
          | inl good ↦
              let (rest, count) =
                zap_slots-Removes c (cnt + 1) n k1 (rw (zap_slots, y, good) at e) in
              rw (zap_slots, y, good)
                (
                  removes w.wd (wds_below pn c) k k1 _ (rm_watch-result true k w.wd good) rest,
                  omega (arith, count),
                )
          | inr bad ↦ absurd (grind (arith, y, bad))
        ]
        | inr n0 ↦ rw (zap_slots, n0) (zap_slots-Removes c cnt n k (rw (zap_slots, n0) at e))
      ]

  pub zap_slots-FailsAt :
      (c : Cache) (cnt : ℕ) (k : K)
      → (zap_slots os fd pn c cnt k).cnt ≡ none
      → FailsAt os fd (wds_below pn c) k (zap_slots os fd pn c cnt k).kernel
  unfolding zap_slots
  zap_slots-FailsAt [] cnt k e = cc
  zap_slots-FailsAt (w ∷ c) cnt k e =
      let k1 = (os.inotify_rm_watch k fd w.wd).1 in
      elim (Bool-cases (is_nonneg w.wd && in_subtree pn w.path)) [
        | inl y ↦ elim (Bool-cases (os.inotify_rm_watch k fd w.wd).0) [
          | inl good ↦
              let (before, wd, behind, k2, split, removed, failed) =
                zap_slots-FailsAt c (cnt + 1) k1 (rw (zap_slots, y, good) at e) in
              rw (zap_slots, y, good)
                (
                  w.wd ∷ before,
                  wd,
                  behind,
                  k2,
                  ap (λ l. w.wd ∷ l) split,
                  removes w.wd before k k1 k2 (rm_watch-result true k w.wd good) removed,
                  failed,
                )
          | inr bad ↦
              rw (zap_slots, y, bad)
                ([], w.wd, wds_below pn c, k, refl, none_left k, rm_watch-result false k w.wd bad)
        ]
        | inr n0 ↦ rw (zap_slots, n0) (zap_slots-FailsAt c cnt k (rw (zap_slots, n0) at e))
      ]
