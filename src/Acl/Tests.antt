-- ===== src/Acl/Tests.antt =====
-- Runs of the theorems on acl_update.c at concrete inputs.
use mathlib.Core.Path.{subst}
use my_notes.Common.{
  ℕ, zero, suc, ◌<◌, inl, Bool-cases, Option-cases, Option, ◌==◌, if◌then◌else◌, ◌∙◌, ◌≡◌, refl,
  sym, ap, true, false, inr, List, [], ◌∷◌, map, none, some, codes, length, All, pos, arith,
}
use my_notes.Acl.Ids.{Libc, user_id_from_name, number_or_entry, to_id}
use my_notes.Acl.Spec.{
  user_obj, user, other, mask, Perms, no_perms, AccessControlEntry, ok, parse_acl,
}
use my_notes.Acl.Spec.RoundTrip.{EntryText, IsEntryText, meaning, parse_acl-join_entries}
use my_notes.Acl.Update.{
  Visited, AclLib, modify_entries, updated, update_acl, update_entries, apply_entry, find_entry,
  matching_entry, same_key, apply_operation, recalculate, modify_entry, find_or_create, qualify,
  set_perms, add_if,
}
use my_notes.Acl.Update.Library.{with_perm, Listed, Puts, IsDocumented}
use my_notes.Acl.Update.Grants.{Grants}
use my_notes.Acl.Update.Modify.{granted_by, update_acl-Grants}

-- Every user has the number 7.
abbrev libc : Libc
libc = record {
  strtol = λ s. (pos 7, []);
  getpwnam = λ s. none;
  getpwuid = λ i. none;
  getgrnam = λ s. none;
  getgrgid = λ i. none;
}

abbrev read_write : Perms
read_write = record { readable = true; writable = true; executable = false }

abbrev joe : EntryText
joe = record { tag = user; long = false; name = codes "joe"; perms = some read_write }

abbrev all_others : EntryText
all_others = record { tag = other; long = true; name = []; perms = some no_perms }

both-IsEntryText : All (IsEntryText libc true) (joe ∷ all_others ∷ [])
unfolding user_id_from_name number_or_entry to_id
both-IsEntryText = (
  (((λ e. grind arith), omega arith), refl, omega arith, omega arith),
  ((refl, refl, tt, tt), tt),
)

parse_acl-join_entries_example :
    parse_acl libc true (codes "u:joe:rw-,other::---")
    ≡ ok (map (meaning libc) (joe ∷ all_others ∷ []))
parse_acl-join_entries_example =
    parse_acl-join_entries libc true joe (all_others ∷ []) both-IsEntryText (omega arith)

some-injective : {A : Type 0} {x y : A} → some x ≡ some y → x ≡ y
some-injective e = grind arith

-- ACLs as lists of entries, the newest one first, in a file system with one file. The descriptor of an
-- entry is the number of the entries behind it.
abbrev entry_of : List Visited → ℕ → Option Visited
entry_of [] i = none
entry_of (v ∷ vs) i = if i == length vs then some v else entry_of vs i

abbrev numbered : List Visited → List (ℕ × Visited)
numbered [] = []
numbered (v ∷ vs) = (length vs, v) ∷ numbered vs

abbrev change : ℕ → (Visited → Visited) → List Visited → List Visited
change i f [] = []
change i f (v ∷ vs) = if i == length vs then f v ∷ vs else v ∷ change i f vs

abbrev new_entry : Visited
new_entry = record { tag = mask; qual = 0; perms = no_perms }

abbrev lists : AclLib (List Visited) (List Visited)
lists = record {
  visit = λ a. some (numbered a);
  create_entry = λ a. some (new_entry ∷ a, length a);
  set_tag_type = λ a i t. some (change i (λ v. record v { tag = t }) a);
  set_qualifier = λ a i q. some (change i (λ v. record v { qual = q }) a);
  delete_entry = λ a i. none;
  clear_perms = λ a i. some (change i (λ v. record v { perms = no_perms }) a);
  add_perm = λ a i p. some (change i (λ v. record v { perms = with_perm p v.perms }) a);
  set_permset = λ a i. some a;
  calc_mask = some;
  is_valid = λ a. true;
  get_file = λ k file use_default. some k;
  set_file = λ k file use_default a. some a;
  delete_def_file = λ k file. some k;
}

entry_of_below : (a : List Visited) (i : ℕ) (v : Visited) → entry_of a i ≡ some v → i < length a
entry_of_below [] i v h = cc
entry_of_below (w ∷ a) i v h = elim (Bool-cases (i == length a)) [
  | inl this ↦ ground arith
  | inr that ↦ let below = entry_of_below a i v (rw that at h) in omega arith
]

entry_of_outside : (a : List Visited) → entry_of a (length a) ≡ none
entry_of_outside a = elim (Option-cases (entry_of a (length a))) [
  | inl e ↦ e
  | inr (v, e) ↦ let below = entry_of_below a (length a) v e in absurd (omega arith)
]

entry_of-cons :
    (w : Visited) (a : List Visited) (i : ℕ) (v : Visited)
    → entry_of a i ≡ some v
    → entry_of (w ∷ a) i ≡ some v
entry_of-cons w a i v h =
    let below = entry_of_below a i v h in
    let other : (i == length a) ≡ false = ground arith in rw other h

numbered-All :
    (a b : List Visited)
    → ((i : ℕ) (v : Visited) → entry_of a i ≡ some v → entry_of b i ≡ some v)
    → All (λ x. entry_of b x.0 ≡ some x.1) (numbered a)
numbered-All [] b inside = tt
numbered-All (w ∷ a) b inside = (
  inside (length a) w (let same : (length a == length a) ≡ true = ground arith in rw same refl),
  numbered-All a b (λ i v h. inside i v (entry_of-cons w a i v h)),
)

numbered-Listed :
    (a : List Visited) (i : ℕ) (v : Visited) → entry_of a i ≡ some v → Listed i v (numbered a)
numbered-Listed [] i v h = cc
numbered-Listed (w ∷ a) i v h = elim (Bool-cases (i == length a)) [
  | inl this ↦
      let at : i ≡ length a = ground arith in
      let same : w ≡ v = some-injective (rw this at h) in inl (rw (at, same) refl)
  | inr that ↦ inr (numbered-Listed a i v (rw that at h))
]

length-change :
    (i : ℕ) (f : Visited → Visited) (a : List Visited) → length (change i f a) ≡ length a
length-change i f [] = refl
length-change i f (v ∷ a) = elim (Bool-cases (i == length a)) [
  | inl this ↦ rw this refl
  | inr that ↦ rw that (ap suc (length-change i f a))
]

change-Puts :
    (i : ℕ) (f : Visited → Visited) (v : Visited) (a : List Visited)
    → entry_of a i ≡ some v
    → Puts entry_of i (f v) a (change i f a)
change-Puts i f v [] h j = cc
change-Puts i f v (w ∷ a) h j = elim (Bool-cases (i == length a)) [
  | inl this ↦
      let same : w ≡ v = some-injective (rw this at h) in
      let at : i ≡ length a = ground arith in
      rw (this, same, at)
        (elim (Bool-cases (j == length a)) [ inl here ↦ rw here refl | inr there ↦ rw there refl ])
  | inr that ↦
      let rest = change-Puts i f v a (rw that at h) j in
      rw (that, length-change i f a)
        (elim (Bool-cases (j == length a)) [
          | inl here ↦ let other : (j == i) ≡ false = ground arith in rw (here, other) refl
          | inr there ↦ rw there rest
        ])
]

changed :
    (i : ℕ) (f : Visited → Visited) (v : Visited) (a a' : List Visited)
    → entry_of a i ≡ some v
    → some (change i f a) ≡ some a'
    → Puts entry_of i (f v) a a'
changed i f v a a' h e =
    subst (λ b. Puts entry_of i (f v) a b) (some-injective e) (change-Puts i f v a h)

created :
    (a : List Visited) (r : List Visited × ℕ)
    → some (new_entry ∷ a, length a) ≡ some r
    → (entry_of a r.1 ≡ none) × (v : Visited) × Puts entry_of r.1 v a r.0
created a r e =
    subst (λ b. (entry_of a b.1 ≡ none) × (v : Visited) × Puts entry_of b.1 v a b.0)
      (some-injective e) (entry_of_outside a, new_entry, λ j. refl)

lists-IsDocumented : IsDocumented lists entry_of
lists-IsDocumented = record {
  visits = λ a vs e.
      subst
        (λ l.
          All (λ x. entry_of a x.0 ≡ some x.1) l
          × ((i : ℕ) (v : Visited) → entry_of a i ≡ some v → Listed i v l))
        (some-injective e) (numbered-All a a (λ i v h. h), numbered-Listed a);
  creates = λ a r e. created a r e;
  tags = λ a a' i t v h e.
      (record v { tag = t }, refl, changed i (λ v. record v { tag = t }) v a a' h e);
  qualifies = λ a a' i q v h e.
      (record v { qual = q }, refl, refl, changed i (λ v. record v { qual = q }) v a a' h e);
  clears = λ a a' i v h e. changed i (λ v. record v { perms = no_perms }) v a a' h e;
  adds = λ a a' i p v h e. changed i (λ v. record v { perms = with_perm p v.perms }) v a a' h e;
  stores = λ a a' i e j. ap (λ b. entry_of b j) (sym (some-injective e));
  calculates = λ a a' i v ne e.
      let same = ap (λ b. entry_of b i) (some-injective e) in ((λ h. sym same ∙ h), λ h. same ∙ h);
}

abbrev for_joe : AccessControlEntry
for_joe = record { tag = user; qual = 7; perms = some read_write }

abbrev owner : Visited
owner = record { tag = user_obj; qual = 0; perms = read_write }

abbrev joes : Visited
joes = record { tag = user; qual = 7; perms = read_write }

joe_added :
    update_acl lists (codes "f") false (for_joe ∷ []) modify_entries true (owner ∷ [])
    ≡ updated (joes ∷ owner ∷ []) (joes ∷ owner ∷ [])
unfolding update_acl update_entries apply_entry find_entry matching_entry apply_operation
    recalculate modify_entry find_or_create qualify set_perms add_if
joe_added = refl

no_joe : Grants entry_of (owner ∷ []) user 7 none
no_joe zero v h =
    let same : owner ≡ v = some-injective h in ap (λ x. same_key user 7 x.tag x.qual) (sym same)
no_joe (suc i) v h = grind arith

update_acl-Grants_example :
    (k1 : List Visited) × (lists.set_file k1 (codes "f") false (joes ∷ owner ∷ [])
      ≡ some (joes ∷ owner ∷ []))
    × Grants entry_of (joes ∷ owner ∷ []) user 7 (granted_by (for_joe ∷ []) user 7 none)
update_acl-Grants_example =
    update_acl-Grants lists entry_of lists-IsDocumented true (codes "f") false for_joe []
      (owner ∷ []) (joes ∷ owner ∷ []) (owner ∷ []) (joes ∷ owner ∷ []) user 7 none
      ((read_write, refl), tt) (inr (omega arith)) refl no_joe joe_added
