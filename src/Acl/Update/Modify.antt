-- ===== src/Acl/Update/Modify.antt =====
-- What `updateACL` does to an ACL with the option -m.
use mathlib.Core.Path.{subst}
use my_notes.Common.{
  ℕ, ◌≡◌, ◌≢◌, sym, Bool, true, false, Option-cases, ◌⊎◌, inl, inr, List, [], ◌∷◌, Option, none,
  some, Bytes, if◌then◌else◌, All, arith,
}
use my_notes.Acl.Spec.{Tag, mask, Perms, AccessControlEntry}
use my_notes.Acl.Update.{
  Visited, AclLib, tag_code, same_key, matching_entry, modify_entries, find_entry, modify_entry,
  apply_operation, recalculate, apply_entry, updated, update_entries, update_acl,
}
use my_notes.Acl.Update.Library.{IsDocumented, >>=-some}
use my_notes.Acl.Update.Entry.{modify_entry-Grants, recalculate-Grants}
use my_notes.Acl.Update.Grants.{Grants}

some-if : {A : Type 0} (b : Bool) (x y : A) → (if b then some x else none) ≡ some y → x ≡ y
some-if true x y h = grind arith
some-if false x y h = cc

-- The permissions that a list of entries leaves, from those before it.
abbrev pub granted_by : List AccessControlEntry → Tag → ℕ → Option Perms → Option Perms
granted_by [] t q before = before
granted_by (e ∷ es) t q before =
    granted_by es t q (if same_key e.tag e.qual t q then e.perms else before)

module _ {A K : Type 0} (lib : AclLib A K) (entry_of : A → ℕ → Option Visited)
    (doc : IsDocumented lib entry_of) where
  -- One round of the loop.
  apply_entry-Grants :
      (recalc_mask : Bool) (a a' : A) (e : AccessControlEntry) (p : Perms) (t : Tag) (q : ℕ)
      (o : Option Perms)
      → e.perms ≡ some p
      → (recalc_mask ≡ false) ⊎ (tag_code t ≢ tag_code mask)
      → apply_entry lib modify_entries recalc_mask a e ≡ some a'
      → Grants entry_of a t q o
      → Grants entry_of a' t q (if same_key e.tag e.qual t q then e.perms else o)
  unfolding apply_entry find_entry apply_operation recalculate
  apply_entry-Grants recalc_mask a a' e p t q o given unmasked h before =
      let (entry, found, h1) = >>=-some (find_entry lib a e.tag e.qual) _ h in
      let (vs, visited, this) = >>=-some (lib.visit a) _ found in
      let (a2, changed, h2) = >>=-some (apply_operation lib modify_entries a e entry) _ h1 in
      let (a3, masked, h3) = >>=-some (recalculate lib recalc_mask a2) _ h2 in
      let place : matching_entry e.tag e.qual vs ≡ entry = grind arith in
      let modified : modify_entry lib a e (matching_entry e.tag e.qual vs) ≡ some a2 =
        rw place changed in
      let after =
        modify_entry-Grants lib entry_of doc a a2 e p vs t q o given visited modified before in
      let with_mask =
        recalculate-Grants lib entry_of doc recalc_mask a2 a3 t q _ unmasked masked after in
      let same = some-if (lib.is_valid a3) a3 a' h3 in
      subst (λ b. Grants entry_of b t q (if same_key e.tag e.qual t q then e.perms else o)) same
        (subst (λ x. Grants entry_of a3 t q (if same_key e.tag e.qual t q then x else o))
          (sym given) with_mask)

  -- The loop of `updateACL` with -m.
  update_entries-Grants :
      (recalc_mask : Bool) (file : Bytes) (use_default : Bool) (es : List AccessControlEntry)
      → (a a' : A) (k k' : K) (t : Tag) (q : ℕ) (o : Option Perms)
      → All (λ e. (p : Perms) × (e.perms ≡ some p)) es
      → (recalc_mask ≡ false) ⊎ (tag_code t ≢ tag_code mask)
      → update_entries lib modify_entries recalc_mask file use_default es a k ≡ updated a' k'
      → Grants entry_of a t q o
      → Grants entry_of a' t q (granted_by es t q o)
  unfolding update_entries
  update_entries-Grants recalc_mask file use_default [] a a' k k' t q o given unmasked h before =
      let same : a ≡ a' = grind arith in subst (λ b. Grants entry_of b t q o) same before
  update_entries-Grants recalc_mask file use_default (e ∷ es) a a' k k' t q o given unmasked h
        before =
      elim (Option-cases (apply_entry lib modify_entries recalc_mask a e)) [
        | inl fails ↦ absurd (grind (arith, fails))
        | inr (a2, applied) ↦ elim (Option-cases (lib.set_file k file use_default a2)) [
          | inl unset ↦ absurd (grind (arith, applied, unset))
          | inr (k2, stored) ↦
              let round =
                apply_entry-Grants recalc_mask a a2 e given.0.0 t q o given.0.1 unmasked applied
                  before in
              update_entries-Grants recalc_mask file use_default es a2 a' k2 k' t q _ given.1
                unmasked (rw (update_entries, applied, stored) at h) round
        ]
      ]

  update_entries_stores :
      (recalc_mask : Bool) (file : Bytes) (use_default : Bool) (es : List AccessControlEntry)
      → (a a' : A) (k0 k k' : K) → lib.set_file k0 file use_default a ≡ some k
      → update_entries lib modify_entries recalc_mask file use_default es a k ≡ updated a' k'
      → (k1 : K) × (lib.set_file k1 file use_default a' ≡ some k')
  unfolding update_entries
  update_entries_stores recalc_mask file use_default [] a a' k0 k k' stored h = (k0, grind arith)
  update_entries_stores recalc_mask file use_default (e ∷ es) a a' k0 k k' stored h =
      elim (Option-cases (apply_entry lib modify_entries recalc_mask a e)) [
        | inl fails ↦ absurd (grind (arith, fails))
        | inr (a2, applied) ↦ elim (Option-cases (lib.set_file k file use_default a2)) [
          | inl unset ↦ absurd (grind (arith, applied, unset))
          | inr (k2, next) ↦
              update_entries_stores recalc_mask file use_default es a2 a' k k2 k' next
                (rw (update_entries, applied, next) at h)
        ]
      ]

  -- If `updateACL` with -m and at least one entry does not exit, and each entry gives permissions, then
  -- it has written an ACL to the file. For every tag and qualifier that at most one entry of the file's ACL
  -- had, but for the mask if it is recalculated, at most one entry of the ACL written has it, and what
  -- it grants is what the last entry given for it says, and what was granted before if none is given.
  -- libacl behaves as documented.
  pub update_acl-Grants :
      (recalc_mask : Bool) (file : Bytes) (use_default : Bool) (e : AccessControlEntry)
      → (es : List AccessControlEntry) (a a' : A) (k k' : K) (t : Tag) (q : ℕ) (o : Option Perms)
      → All (λ e. (p : Perms) × (e.perms ≡ some p)) (e ∷ es)
      → (recalc_mask ≡ false) ⊎ (tag_code t ≢ tag_code mask)
      → lib.get_file k file use_default ≡ some a
      → Grants entry_of a t q o
      → update_acl lib file use_default (e ∷ es) modify_entries recalc_mask k ≡ updated a' k'
      → (k1 : K) × (lib.set_file k1 file use_default a' ≡ some k')
        × Grants entry_of a' t q (granted_by (e ∷ es) t q o)
  unfolding update_acl update_entries
  update_acl-Grants recalc_mask file use_default e es a a' k k' t q o given unmasked there before
        h =
      let ran : update_entries lib modify_entries recalc_mask file use_default (e ∷ es) a k
          ≡ updated a' k' =
        rw (update_acl, there) at h in
      elim (Option-cases (apply_entry lib modify_entries recalc_mask a e)) [
        | inl fails ↦ absurd (grind (arith, fails))
        | inr (a2, applied) ↦ elim (Option-cases (lib.set_file k file use_default a2)) [
          | inl unset ↦ absurd (grind (arith, applied, unset))
          | inr (k2, next) ↦
              let (k1, last) =
                update_entries_stores recalc_mask file use_default es a2 a' k k2 k' next
                  (rw (update_entries, applied, next) at ran) in
              (
                k1,
                last,
                update_entries-Grants recalc_mask file use_default (e ∷ es) a a' k k' t q o given
                    unmasked ran before,
              )
        ]
      ]
