-- ===== src/Acl/Update/Library.antt =====
-- What the manual pages of libacl say of its functions on entries, and what `setPerms` does by it.
use my_notes.Common.{
  ℕ, ◌≡◌, ◌≢◌, refl, sym, ap, ◌∙◌, Bool, Bool-cases, true, false, List, [], ◌∷◌, Option, none, some,
  if◌then◌else◌, ◌==◌, ◌⊎◌, inl, inr, All, arith,
}
use my_notes.Acl.Spec.{Tag, mask, Perms, no_perms}
use my_notes.Acl.Update.{
  Perm, read, write, execute, Visited, AclLib, ◌>>=◌, tag_code, add_if, set_perms,
}

abbrev pub with_perm : Perm → Perms → Perms
with_perm read p = record p { readable = true }
with_perm write p = record p { writable = true }
with_perm execute p = record p { executable = true }

abbrev pub Listed : ℕ → Visited → List (ℕ × Visited) → Type 0
Listed i v [] = ⊥
Listed i v (x ∷ xs) = (x ≡ (i, v)) ⊎ Listed i v xs

-- What an ACL is: the entry that a descriptor refers to, if there is one. The descriptor refers to
-- the entry `v` in the second ACL, and all others refer to what they refer to in the first.
abbrev pub Puts : {A : Type 0} → (A → ℕ → Option Visited) → ℕ → Visited → A → A → Type 0
Puts entry_of i v a a' = (j : ℕ) → entry_of a' j ≡ (if j == i then some v else entry_of a j)

-- A descriptor keeps referring to its entry whatever is done to other entries, and nothing is said of the
-- order of the entries. The iteration gives each descriptor that refers to an entry, and no other. A
-- new entry has a new descriptor and any contents. Setting a tag type may change the qualifier and the
-- permissions, setting a qualifier the permissions; `acl_calc_mask` leaves all but mask entries alone.
pub record IsDocumented {A K : Type 0} (lib : AclLib A K) (entry_of : A → ℕ → Option Visited)
    : Type 0 where
  pub visits :
      (a : A) (vs : List (ℕ × Visited))
      → lib.visit a ≡ some vs
      → All (λ x. entry_of a x.0 ≡ some x.1) vs
        × ((i : ℕ) (v : Visited) → entry_of a i ≡ some v → Listed i v vs)
  pub creates :
      (a : A) (r : A × ℕ)
      → lib.create_entry a ≡ some r
      → (entry_of a r.1 ≡ none) × (v : Visited) × Puts entry_of r.1 v a r.0
  pub tags :
      (a a' : A) (i : ℕ) (tag : Tag) (v : Visited)
      → entry_of a i ≡ some v
      → lib.set_tag_type a i tag ≡ some a'
      → (v' : Visited) × (v'.tag ≡ tag) × Puts entry_of i v' a a'
  pub qualifies :
      (a a' : A) (i qual : ℕ) (v : Visited)
      → entry_of a i ≡ some v
      → lib.set_qualifier a i qual ≡ some a'
      → (v' : Visited) × (v'.tag ≡ v.tag) × (v'.qual ≡ qual) × Puts entry_of i v' a a'
  pub clears :
      (a a' : A) (i : ℕ) (v : Visited)
      → entry_of a i ≡ some v
      → lib.clear_perms a i ≡ some a'
      → Puts entry_of i (record v { perms = no_perms }) a a'
  pub adds :
      (a a' : A) (i : ℕ) (p : Perm) (v : Visited)
      → entry_of a i ≡ some v
      → lib.add_perm a i p ≡ some a'
      → Puts entry_of i (record v { perms = with_perm p v.perms }) a a'
  pub stores :
      (a a' : A) (i : ℕ) → lib.set_permset a i ≡ some a' → (j : ℕ) → entry_of a' j ≡ entry_of a j
  pub calculates :
      (a a' : A) (i : ℕ) (v : Visited)
      → tag_code v.tag ≢ tag_code mask
      → lib.calc_mask a ≡ some a'
      → (entry_of a i ≡ some v → entry_of a' i ≡ some v)
        × (entry_of a' i ≡ some v → entry_of a i ≡ some v)

pub >>=-some :
    {A B : Type 0} (o : Option A) (f : A → Option B) {b : B}
    → (o >>= f) ≡ some b
    → (a : A) × (o ≡ some a) × (f a ≡ some b)
>>=-some none f h = cc
>>=-some (some a) f h = (a, refl, h)

module _ {A : Type 0} (entry_of : A → ℕ → Option Visited) where
  pub Puts-this : (i : ℕ) (v : Visited) (a a' : A) → Puts entry_of i v a a' → entry_of a' i ≡ some v
  Puts-this i v a a' put = let same : (i == i) ≡ true = ground arith in put i ∙ rw same refl

  pub Puts-again :
      (i : ℕ) (v w : Visited) (a b c : A)
      → Puts entry_of i v a b
      → Puts entry_of i w b c
      → Puts entry_of i w a c
  Puts-again i v w a b c first second j = elim (Bool-cases (j == i)) [
    | inl this ↦ rw this (second j ∙ rw this refl)
    | inr that ↦ rw that (second j ∙ rw that (first j ∙ rw that refl))
  ]

module _ {A K : Type 0} (lib : AclLib A K) (entry_of : A → ℕ → Option Visited)
    (doc : IsDocumented lib entry_of) where
  abbrev granted : Bool → Perm → Perms → Perms
  granted b p perms = if b then with_perm p perms else perms

  granted_all :
      (p : Perms)
      → granted p.executable execute (granted p.writable write (granted p.readable read no_perms))
        ≡ p
  granted_all p = ground arith

  add_if-Puts :
      (b : Bool) (p : Perm) (i : ℕ) (v : Visited) (a a1 a' : A)
      → Puts entry_of i v a a1
      → add_if lib b a1 i p ≡ some a'
      → Puts entry_of i (record v { perms = granted b p v.perms }) a a'
  unfolding add_if
  add_if-Puts true p i v a a1 a' put h =
      let there = Puts-this entry_of i v a a1 put in
      Puts-again entry_of i v _ a a1 a' put (doc.adds a1 a' i p v there h)
  add_if-Puts false p i v a a1 a' put h =
      let same : a1 ≡ a' = grind arith in λ j. ap (λ b. entry_of b j) (sym same) ∙ put j

  -- The entry has exactly the permissions asked for, and nothing else is changed.
  pub set_perms-Puts :
      (i : ℕ) (v : Visited) (p : Perms) (a a' : A)
      → entry_of a i ≡ some v
      → set_perms lib a i p ≡ some a'
      → Puts entry_of i (record v { perms = p }) a a'
  unfolding set_perms
  set_perms-Puts i v p a a' there h =
      let (a1, cleared, h1) = >>=-some (lib.clear_perms a i) _ h in
      let (a2, readable, h2) = >>=-some (add_if lib p.readable a1 i read) _ h1 in
      let (a3, writable, h3) = >>=-some (add_if lib p.writable a2 i write) _ h2 in
      let (a4, executable, stored) = >>=-some (add_if lib p.executable a3 i execute) _ h3 in
      let q1 = doc.clears a a1 i v there cleared in
      let q2 = add_if-Puts p.readable read i _ a a1 a2 q1 readable in
      let q3 = add_if-Puts p.writable write i _ a a2 a3 q2 writable in
      let q4 = add_if-Puts p.executable execute i _ a a3 a4 q3 executable in
      λ j.
        doc.stores a4 a' i stored j
        ∙ q4 j
        ∙ ap (λ q. if j == i then some (record v { perms = q }) else entry_of a j) (granted_all p)
