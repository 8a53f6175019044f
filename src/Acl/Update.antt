-- ===== src/Acl/Update.antt =====
-- `findEntry`, `setPerms` and `updateACL` of acl/acl_update.c.
pub mod Entry
pub mod Grants
pub mod Library
pub mod Modify
use my_notes.Common.{
  ℕ, zero, suc, Bool, true, false, not, ◌&&◌, ◌||◌, List, [], ◌∷◌, Option, none, some, Bytes, ◌==◌,
  if◌then◌else◌,
}
use my_notes.Acl.Spec.{
  Tag, user_obj, user, group_obj, group, other, mask, Perms, AccessControlEntry,
}

-- One of the three permissions.
pub data Perm : Type 0 where
  read write execute : Perm

-- What libacl reports of an entry.
pub record Visited : Type 0 where
  pub tag : Tag
  pub qual : ℕ
  pub perms : Perms

-- libacl, over its type of ACLs and a state of the file system; `none` is a failure. An entry is given by
-- its descriptor, a number, whatever its place in the ACL. `visit` is the whole iteration with
-- `acl_get_entry`: the descriptors that it gives, with the tag types and qualifiers. `clear_perms` and
-- `add_perm` act on the permission set of an entry, which `acl_set_permset` stores.
pub record AclLib (A K : Type 0) : Type 0 where
  pub visit : A → Option (List (ℕ × Visited))
  pub create_entry : A → Option (A × ℕ)
  pub set_tag_type : A → ℕ → Tag → Option A
  pub set_qualifier : A → ℕ → ℕ → Option A
  pub delete_entry : A → ℕ → Option A
  pub clear_perms : A → ℕ → Option A
  pub add_perm : A → ℕ → Perm → Option A
  pub set_permset : A → ℕ → Option A
  pub calc_mask : A → Option A
  pub is_valid : A → Bool
  pub get_file : K → Bytes → Bool → Option A
  pub set_file : K → Bytes → Bool → A → Option K
  pub delete_def_file : K → Bytes → Option K

infixl 5 ◌>>=◌
abbrev pub ◌>>=◌ : {A B : Type 0} → Option A → (A → Option B) → Option B
none >>= f = none
some a >>= f = f a

abbrev pub tag_code : Tag → ℕ
tag_code user_obj = 1
tag_code user = 2
tag_code group_obj = 4
tag_code group = 8
tag_code mask = 16
tag_code other = 32

-- `tag == ACL_USER || tag == ACL_GROUP`
abbrev pub has_qual : Tag → Bool
has_qual tag = (tag_code tag == 2) || (tag_code tag == 8)

-- Is an entry with this tag and qualifier the one that is looked for?
abbrev pub same_key : Tag → ℕ → Tag → ℕ → Bool
same_key tag qual entry_tag entry_qual =
    (tag_code tag == tag_code entry_tag) && (not (has_qual tag) || (qual == entry_qual))

-- The loop of `findEntry`: the descriptor of the first entry that matches.
unfoldable pub matching_entry : Tag → ℕ → List (ℕ × Visited) → Option ℕ
matching_entry tag qual [] = none
matching_entry tag qual ((entry, v) ∷ vs) =
    let further = matching_entry tag qual vs in
    if same_key tag qual v.tag v.qual then some entry else further

pub data Operation : Type 0 where
  modify_entries remove_entries : Operation

module _ {A K : Type 0} (lib : AclLib A K) where
  unfoldable pub find_entry : A → Tag → ℕ → Option (Option ℕ)
  find_entry acl tag qual = lib.visit acl >>= λ vs. some (matching_entry tag qual vs)

  unfoldable pub add_if : Bool → A → ℕ → Perm → Option A
  add_if false acl entry p = some acl
  add_if true acl entry p = lib.add_perm acl entry p

  unfoldable pub set_perms : A → ℕ → Perms → Option A
  set_perms acl entry perms = do
    cleared ← lib.clear_perms acl entry
    with_read ← add_if perms.readable cleared entry read
    with_write ← add_if perms.writable with_read entry write
    with_execute ← add_if perms.executable with_write entry execute
    lib.set_permset with_execute entry

  unfoldable pub qualify : A → ℕ → Tag → ℕ → Option A
  qualify acl entry tag qual = if has_qual tag then lib.set_qualifier acl entry qual else some acl

  -- An entry of the tag and qualifier is added where none was found.
  unfoldable pub find_or_create : A → Tag → ℕ → Option ℕ → Option (A × ℕ)
  find_or_create acl tag qual (some entry) = some (acl, entry)
  find_or_create acl tag qual none = do
    created ← lib.create_entry acl
    tagged ← lib.set_tag_type created.0 created.1 tag
    qualified ← qualify tagged created.1 tag qual
    some (qualified, created.1)

  -- `perms` is assigned in the entries for `modifyEntries`.
  unfoldable pub modify_entry : A → AccessControlEntry → Option ℕ → Option A
  modify_entry acl e entry = do
    target ← find_or_create acl e.tag e.qual entry
    perms ← e.perms
    set_perms target.0 target.1 perms

  unfoldable pub remove_entry : A → Option ℕ → Option A
  remove_entry acl none = some acl
  remove_entry acl (some entry) = lib.delete_entry acl entry

  unfoldable pub apply_operation : Operation → A → AccessControlEntry → Option ℕ → Option A
  apply_operation modify_entries acl e entry = modify_entry acl e entry
  apply_operation remove_entries acl e entry = remove_entry acl entry

  unfoldable pub recalculate : Bool → A → Option A
  recalculate recalc_mask acl = if recalc_mask then lib.calc_mask acl else some acl

  -- The body of the loop, up to the update of the file.
  unfoldable pub apply_entry : Operation → Bool → A → AccessControlEntry → Option A
  apply_entry operation recalc_mask acl e = do
    entry ← find_entry acl e.tag e.qual
    changed ← apply_operation operation acl e entry
    masked ← recalculate recalc_mask changed
    if lib.is_valid masked then some masked else none

  -- How the loop ends: the process exits, or the ACL and the files after it.
  pub data Updated : Type 0 where
    exits : K → Updated
    updated : A → K → Updated

  unfoldable pub update_entries :
      Operation → Bool → Bytes → Bool → List AccessControlEntry → A → K → Updated
  update_entries operation recalc_mask file use_default [] acl k = updated acl k
  update_entries operation recalc_mask file use_default (e ∷ es) acl k =
      elim (apply_entry operation recalc_mask acl e) [
        | none ↦ exits k
        | some acl' ↦ elim (lib.set_file k file use_default acl') [
          | none ↦ exits k
          | some k' ↦ update_entries operation recalc_mask file use_default es acl' k'
        ]
      ]

  unfoldable pub update_acl :
      Bytes → Bool → List AccessControlEntry → Operation → Bool → K → Updated
  update_acl file use_default es operation recalc_mask k = elim (lib.get_file k file use_default) [
    | none ↦ exits k
    | some acl ↦ update_entries operation recalc_mask file use_default es acl k
  ]
