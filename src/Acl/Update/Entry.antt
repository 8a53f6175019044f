-- ===== src/Acl/Update/Entry.antt =====
-- What the operation of -m on one entry, and the recalculation of the mask, do to an ACL.
use mathlib.Core.Path.{subst}
use my_notes.Common.{
  ℕ, ◌≡◌, ◌≢◌, refl, sym, ◌∙◌, Bool, true, false, Bool-cases, Option-cases, ◌⊎◌, inl, inr, List,
  Option, none, some, if◌then◌else◌, arith,
}
use my_notes.Acl.Spec.{Tag, mask, Perms, AccessControlEntry}
use my_notes.Acl.Update.{
  Visited, AclLib, tag_code, has_qual, same_key, matching_entry, set_perms, qualify, find_or_create,
  modify_entry, recalculate,
}
use my_notes.Acl.Update.Library.{
  Puts, Puts-this, Puts-again, IsDocumented, >>=-some, set_perms-Puts,
}
use my_notes.Acl.Update.Grants.{
  same_key_swap, Has, Grants, OnlyAt, Puts-this_key, Puts-other_key, matching_entry-Has,
  matching_entry-none,
}

module _ {A K : Type 0} (lib : AclLib A K) (entry_of : A → ℕ → Option Visited)
    (doc : IsDocumented lib entry_of) where
  qualify-Puts :
      (i : ℕ) (tag : Tag) (qual : ℕ) (v : Visited) (a a1 a' : A)
      → Puts entry_of i v a a1
      → v.tag ≡ tag
      → qualify lib a1 i tag qual ≡ some a'
      → (w : Visited) × Has tag qual w × Puts entry_of i w a a'
  unfolding qualify
  qualify-Puts i tag qual v a a1 a' put is done = elim (Bool-cases (has_qual tag)) [
    | inl named ↦
        let (w, tagged, qualified, again) =
          doc.qualifies a1 a' i qual v (Puts-this entry_of i v a a1 put)
            (rw (qualify, named) at done) in
        (w, rw (tagged ∙ is, qualified) (ground arith), Puts-again entry_of i v w a a1 a' put again)
    | inr nameless ↦
        let same : a1 ≡ a' = grind (arith, nameless) in
        (v, rw is (ground (arith, nameless)), subst (λ b. Puts entry_of i v a b) same put)
  ]

  -- The descriptor that `updateACL` goes on with, of an entry that has the key.
  find_or_create-Puts :
      (a : A) (tag : Tag) (qual : ℕ) (r : A × ℕ)
      → find_or_create lib a tag qual none ≡ some r
      → (entry_of a r.1 ≡ none) × (w : Visited) × Has tag qual w × Puts entry_of r.1 w a r.0
  unfolding find_or_create
  find_or_create-Puts a tag qual r h =
      let (c, made, h1) = >>=-some (lib.create_entry a) _ h in
      let (a2, tagged, h2) = >>=-some (lib.set_tag_type c.0 c.1 tag) _ h1 in
      let (a3, qualified, h3) = >>=-some (qualify lib a2 c.1 tag qual) _ h2 in
      let (fresh, v, put) = doc.creates a c made in
      let (u, is, set) = doc.tags c.0 a2 c.1 tag v (Puts-this entry_of c.1 v a c.0 put) tagged in
      let second = Puts-again entry_of c.1 v u a c.0 a2 put set in
      let (w, has, third) = qualify-Puts c.1 tag qual u a a2 a3 second is qualified in
      let whole : (a3, c.1) ≡ r = grind arith in
      subst
        (λ b. (entry_of a b.1 ≡ none) × (x : Visited) × Has tag qual x × Puts entry_of b.1 x a b.0)
        whole (fresh, w, has, third)

  -- An entry with the key is changed, or one is added.
  modify_entry-Puts :
      (a a' : A) (e : AccessControlEntry) (p : Perms) (vs : List (ℕ × Visited))
      → e.perms ≡ some p
      → lib.visit a ≡ some vs
      → modify_entry lib a e (matching_entry e.tag e.qual vs) ≡ some a'
      → (i : ℕ) × (w : Visited) × Has e.tag e.qual w
        × (w.perms ≡ p)
        × ((v : Visited) → entry_of a i ≡ some v → Has e.tag e.qual v)
        × Puts entry_of i w a a'
        × (((v : Visited) × (entry_of a i ≡ some v)) ⊎ Grants entry_of a e.tag e.qual none)
  unfolding modify_entry find_or_create
  modify_entry-Puts a a' e p vs given visited done =
      let (all, complete) = doc.visits a vs visited in
      elim (Option-cases (matching_entry e.tag e.qual vs)) [
        | inr (i, found) ↦
            let (v, there, has) = matching_entry-Has entry_of a e.tag e.qual vs i all found in
            let set : set_perms lib a i p ≡ some a' =
              rw (modify_entry, find_or_create, found, given) at done in
            (
              i,
              record v { perms = p },
              has,
              refl,
              (λ u here.
                  let same : v ≡ u = grind arith in subst (λ x. Has e.tag e.qual x) same has),
              set_perms-Puts lib entry_of doc i v p a a' there set,
              inl (v, there),
            )
        | inl missing ↦
            let (r, made, set) =
              >>=-some (find_or_create lib a e.tag e.qual none) _ (rw missing at done) in
            let set_them : set_perms lib r.0 r.1 p ≡ some a' = rw given at set in
            let (fresh, w, has, put) = find_or_create-Puts a e.tag e.qual r made in
            let there = Puts-this entry_of r.1 w a r.0 put in
            let stored = set_perms-Puts lib entry_of doc r.1 w p r.0 a' there set_them in
            (
              r.1,
              record w { perms = p },
              has,
              refl,
              (λ u here. absurd (grind arith)),
              Puts-again entry_of r.1 w _ a r.0 a' put stored,
              inr (λ j u at. matching_entry-none e.tag e.qual vs j u missing (complete j u at)),
            )
      ]

  OnlyAt-Grants :
      (tag : Tag) (qual : ℕ) (t : Tag) (q : ℕ) (i : ℕ) (a : A) (o : Option Perms)
      → same_key tag qual t q ≡ true
      → Grants entry_of a t q o
      → ((v : Visited) → entry_of a i ≡ some v → Has tag qual v)
      → ((v : Visited) × (entry_of a i ≡ some v)) ⊎ Grants entry_of a tag qual none
      → OnlyAt entry_of tag qual i a
  OnlyAt-Grants tag qual t q i a o same before has (inr absent) =
      λ j v there key. let no = absent j v there in absurd (cc)
  OnlyAt-Grants tag qual t q i a o same before has (inl (u, here)) =
      let own = has u here in let u_key : Has t q u = ground arith in at_place o before u here u_key
    where
      at_place :
          (o : Option Perms)
          → Grants entry_of a t q o
          → (u : Visited) → entry_of a i ≡ some u
          → Has t q u
          → OnlyAt entry_of tag qual i a
      at_place none before u here u_key = let no = before i u here in absurd (cc)
      at_place (some p) (n, w, at, is, perms, only) u here u_key = λ j v there key.
          let v_key : Has t q v = ground arith in only j v there v_key ∙ sym (only i u here u_key)

  pub modify_entry-Grants :
      (a a' : A) (e : AccessControlEntry) (p : Perms) (vs : List (ℕ × Visited)) (t : Tag) (q : ℕ)
      (o : Option Perms)
      → e.perms ≡ some p
      → lib.visit a ≡ some vs
      → modify_entry lib a e (matching_entry e.tag e.qual vs) ≡ some a'
      → Grants entry_of a t q o
      → Grants entry_of a' t q (if same_key e.tag e.qual t q then some p else o)
  modify_entry-Grants a a' e p vs t q o given visited done before =
      let (i, w, key, perms, was, put, found) = modify_entry-Puts a a' e p vs given visited done in
      elim (Bool-cases (same_key e.tag e.qual t q)) [
        | inl same ↦
            let only = OnlyAt-Grants e.tag e.qual t q i a o same before was found in
            let now = Puts-this_key entry_of e.tag e.qual t q i w a a' put key same only in
            rw same (subst (λ x. Grants entry_of a' t q (some x)) perms now)
        | inr differs ↦ rw differs (
            Puts-other_key entry_of t q i w a a' o put
              (same_key_swap e.tag e.qual t q w.tag w.qual key ∙ differs)
              (λ v here. same_key_swap e.tag e.qual t q v.tag v.qual (was v here) ∙ differs) before)
      ]

  not_mask :
      (t : Tag) (q : ℕ) (v : Visited)
      → tag_code t ≢ tag_code mask
      → Has t q v
      → tag_code v.tag ≢ tag_code mask
  not_mask t q v other has = ground arith

  pub recalculate-Grants :
      (recalc_mask : Bool) (a a' : A) (t : Tag) (q : ℕ) (o : Option Perms)
      → (recalc_mask ≡ false) ⊎ (tag_code t ≢ tag_code mask)
      → recalculate lib recalc_mask a ≡ some a'
      → Grants entry_of a t q o
      → Grants entry_of a' t q o
  unfolding recalculate
  recalculate-Grants false a a' t q o unmasked e before =
      let same : a ≡ a' = grind arith in subst (λ b. Grants entry_of b t q o) same before
  recalculate-Grants true a a' t q o (inl h) e before = absurd (cc)
  recalculate-Grants true a a' t q none (inr h) e before = λ i v there.
      elim (Bool-cases (same_key t q v.tag v.qual)) [
        | inr other ↦ other
        | inl has ↦ before i v ((doc.calculates a a' i v (not_mask t q v h has) e).1 there)
      ]
  recalculate-Grants true a a' t q (some p) (inr h) e (i, v, there, has, perms, only) = (
    i,
    v,
    (doc.calculates a a' i v (not_mask t q v h has) e).0 there,
    has,
    perms,
    λ j w here key. only j w ((doc.calculates a a' j w (not_mask t q w h key) e).1 here) key,
  )
