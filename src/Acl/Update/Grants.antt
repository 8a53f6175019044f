-- ===== src/Acl/Update/Grants.antt =====
-- What the entries of an ACL grant, and what a changed or new entry does to it.

use my_notes.Common.{
  ℕ, ◌≡◌, refl, sym, ap, ◌∙◌, true, false, Bool-cases, inl, inr, List, [], ◌∷◌, Option, none, some,
  ◌==◌, All, arith,
}
use my_notes.Acl.Spec.{Tag, Perms}
use my_notes.Acl.Update.{Visited, same_key, matching_entry}
use my_notes.Acl.Update.Library.{Listed, Puts, Puts-this}

-- Keys that agree with the same key agree with one another.
pub same_key_swap :
    (tag : Tag) (qual : ℕ) (t : Tag) (q : ℕ) (vt : Tag) (vq : ℕ)
    → same_key tag qual vt vq ≡ true
    → same_key t q vt vq ≡ same_key tag qual t q
same_key_swap tag qual t q vt vq h = ground arith

same_key_trans :
    (tag : Tag) (qual : ℕ) (t : Tag) (q : ℕ) (vt : Tag) (vq : ℕ)
    → same_key tag qual t q ≡ true
    → same_key t q vt vq ≡ true
    → same_key tag qual vt vq ≡ true
same_key_trans tag qual t q vt vq k h = ground arith

abbrev pub Has : Tag → ℕ → Visited → Type 0
Has t q v = same_key t q v.tag v.qual ≡ true

module _ {A : Type 0} (entry_of : A → ℕ → Option Visited) where
  -- What the ACL grants to a tag and qualifier: exactly one entry has the key, and it has these
  -- permissions, or no entry has it.
  abbrev pub Grants : A → Tag → ℕ → Option Perms → Type 0
  Grants a t q none =
      (i : ℕ) (v : Visited) → entry_of a i ≡ some v → same_key t q v.tag v.qual ≡ false
  Grants a t q (some p) =
      (i : ℕ) × (v : Visited) × (entry_of a i ≡ some v)
      × (same_key t q v.tag v.qual ≡ true)
      × (v.perms ≡ p)
      × ((j : ℕ) (w : Visited) → entry_of a j ≡ some w → same_key t q w.tag w.qual ≡ true → j ≡ i)

  -- At most the descriptor refers to an entry with the key, and if it refers to one, that has it.
  abbrev pub OnlyAt : Tag → ℕ → ℕ → A → Type 0
  OnlyAt t q i a = (j : ℕ) (v : Visited) → entry_of a j ≡ some v → Has t q v → j ≡ i

  other-entry :
      (i j : ℕ) (v w : Visited) (a a' : A)
      → Puts entry_of i w a a'
      → (j == i) ≡ false
      → entry_of a' j ≡ some v
      → entry_of a j ≡ some v
  other-entry i j v w a a' put that h = sym (put j ∙ rw that refl) ∙ h

  put-entry :
      (i j : ℕ) (v w : Visited) (a a' : A)
      → Puts entry_of i w a a'
      → (j == i) ≡ true
      → entry_of a' j ≡ some v
      → w ≡ v
  put-entry i j v w a a' put this h =
      let put_there : entry_of a' j ≡ some w = put j ∙ rw this refl in grind arith

  -- The entry of a key is put: this key has the entry's permissions.
  pub Puts-this_key :
      (tag : Tag) (qual : ℕ) (t : Tag) (q : ℕ) (i : ℕ) (w : Visited) (a a' : A)
      → Puts entry_of i w a a'
      → Has tag qual w
      → same_key tag qual t q ≡ true
      → OnlyAt tag qual i a
      → Grants a' t q (some w.perms)
  Puts-this_key tag qual t q i w a a' put key same only = (
    i,
    w,
    Puts-this entry_of i w a a' put,
    same_key_swap tag qual t q w.tag w.qual key ∙ same,
    refl,
    λ j v there has. elim (Bool-cases (j == i)) [
      | inl this ↦ ground arith
      | inr that ↦
          only j v (other-entry i j v w a a' put that there)
            (same_key_trans tag qual t q v.tag v.qual same has)
    ],
  )

  -- Other keys have what they had, where no entry of them is overwritten.
  pub Puts-other_key :
      (t : Tag) (q : ℕ) (i : ℕ) (w : Visited) (a a' : A) (o : Option Perms)
      → Puts entry_of i w a a'
      → same_key t q w.tag w.qual ≡ false
      → ((v : Visited) → entry_of a i ≡ some v → same_key t q v.tag v.qual ≡ false)
      → Grants a t q o
      → Grants a' t q o
  Puts-other_key t q i w a a' none put other was before = λ j v there. elim (Bool-cases (j == i)) [
    | inl this ↦
        let same : w ≡ v = put-entry i j v w a a' put this there in
        ap (λ x. same_key t q x.tag x.qual) (sym same) ∙ other
    | inr that ↦ before j v (other-entry i j v w a a' put that there)
  ]
  Puts-other_key t q i w a a' (some p) put other was (j, v, there, has, perms, only) =
      elim (Bool-cases (j == i)) [
        | inl this ↦
            let at : j ≡ i = ground arith in
            let not_has = was v (ap (λ n. entry_of a n) (sym at) ∙ there) in absurd (cc)
        | inr that ↦ (
          j,
          v,
          put j ∙ rw that there,
          has,
          perms,
          λ n u here key. elim (Bool-cases (n == i)) [
            | inl this ↦
                let same : w ≡ u = put-entry i n u w a a' put this here in
                let not_has = ap (λ x. same_key t q x.tag x.qual) (sym same) ∙ other in absurd (cc)
            | inr away ↦ only n u (other-entry i n u w a a' put away here) key
          ],
        )
      ]

  -- What `findEntry` finds among the entries that the iteration gives.
  pub matching_entry-Has :
      (a : A) (t : Tag) (q : ℕ) (vs : List (ℕ × Visited)) (i : ℕ)
      → All (λ x. entry_of a x.0 ≡ some x.1) vs
      → matching_entry t q vs ≡ some i
      → (v : Visited) × (entry_of a i ≡ some v) × Has t q v
  unfolding matching_entry
  matching_entry-Has a t q [] i all found = cc
  matching_entry-Has a t q ((n, v) ∷ vs) i all found =
      elim (Bool-cases (same_key t q v.tag v.qual)) [
        | inl this ↦
            let at : n ≡ i = grind (arith, this) in
            (v, ap (λ j. entry_of a j) (sym at) ∙ all.0, this)
        | inr other ↦ matching_entry-Has a t q vs i all.1 (rw (matching_entry, other) at found)
      ]

pub matching_entry-none :
    (t : Tag) (q : ℕ) (vs : List (ℕ × Visited)) (i : ℕ) (v : Visited)
    → matching_entry t q vs ≡ none
    → Listed i v vs
    → same_key t q v.tag v.qual ≡ false
unfolding matching_entry
matching_entry-none t q [] i v missing listed = absurd listed
matching_entry-none t q ((n, w) ∷ vs) i v missing listed =
    elim (Bool-cases (same_key t q w.tag w.qual)) [
      | inl this ↦ absurd (grind (arith, this))
      | inr other ↦
          let further = matching_entry-none t q vs i v (rw (matching_entry, other) at missing) in
          elim listed [
            | inl here ↦
                let same : w ≡ v = ap (λ x. x.1) here in
                ap (λ x. same_key t q x.tag x.qual) (sym same) ∙ other
            | inr there ↦ further there
          ]
    ]
