-- ===== src/Acl/Spec.antt =====
-- `parseEntrySpec` and `parseACL` of acl/acl_update.c.
pub mod RoundTrip
use my_notes.Common.{
  ℕ, zero, suc, Bool, true, false, not, ◌&&◌, ◌||◌, List, [], ◌∷◌, Option, none, some, Bytes, codes,
  str_eq, ◌==◌, if◌then◌else◌, cut,
}
use my_notes.Acl.Ids.{Libc, no_id, user_id_from_name, group_id_from_name}

-- `acl_tag_t`
pub data Tag : Type 0 where
  user_obj user group_obj group other mask : Tag

-- The bits ACL_READ, ACL_WRITE and ACL_EXECUTE.
pub record Perms : Type 0 where
  pub readable : Bool
  pub writable : Bool
  pub executable : Bool

abbrev pub no_perms : Perms
no_perms = record { readable = false; writable = false; executable = false }

-- `struct AccessControlEntry`; `perms` is `none` where the code does not assign it.
pub record AccessControlEntry : Type 0 where
  pub tag : Tag
  pub qual : ℕ
  pub perms : Option Perms

-- The diagnostics.
pub data BadSpec : Type 0 where
  missing_colon perms_given perms_missing bad_tag bad_user bad_group bad_perm too_many : BadSpec

pub data Result (A : Type 0) : Type 0 where
  bad : BadSpec → Result A
  ok : A → Result A

-- `*s != '\0' && *s != ':'`
has_qualifier : Bytes → Bool
has_qualifier [] = false
has_qualifier (c ∷ s) = not (c == b':')

is_nonempty : Bytes → Bool
is_nonempty [] = false
is_nonempty (c ∷ s) = true

-- The text behind the second colon, if it is not empty.
perms_text : Option Bytes → Option Bytes
perms_text none = none
perms_text (some []) = none
perms_text (some (c ∷ s)) = some (c ∷ s)

tag_of : Bytes → Bool → Option Tag
tag_of name has_qual =
    if str_eq name (codes "u") || str_eq name (codes "user")
    then some (if has_qual then user else user_obj)
    else if str_eq name (codes "g") || str_eq name (codes "group")
    then some (if has_qual then group else group_obj)
    else if str_eq name (codes "o") || str_eq name (codes "other")
    then some other
    else if str_eq name (codes "m") || str_eq name (codes "mask")
    then some mask
    else none

checked_id : ℕ → BadSpec → Result ℕ
checked_id id e = if id == no_id then bad e else ok id

qual_of : Libc → Tag → Bytes → Result ℕ
qual_of libc user name = checked_id (user_id_from_name libc (some name)) bad_user
qual_of libc group name = checked_id (group_id_from_name libc (some name)) bad_group
qual_of libc user_obj name = ok 0
qual_of libc group_obj name = ok 0
qual_of libc other name = ok 0
qual_of libc mask name = ok 0

-- The loop over the permissions.
parse_perms : Perms → Bytes → Result Perms
parse_perms p [] = ok p
parse_perms p (c ∷ s) =
    let with_read = parse_perms (record p { readable = true }) s in
    let with_write = parse_perms (record p { writable = true }) s in
    let with_execute = parse_perms (record p { executable = true }) s in
    let same = parse_perms p s in
    if c == b'r'
    then with_read
    else if c == b'w'
    then with_write
    else if c == b'x'
    then with_execute
    else if c == b'-'
    then same
    else bad bad_perm

-- The permissions, if a text for them is there.
add_perms : Tag → ℕ → Option Bytes → Result AccessControlEntry
add_perms tag qual none = ok (record { tag = tag; qual = qual; perms = none })
add_perms tag qual (some text) = elim (parse_perms no_perms text) [
  | bad e ↦ bad e
  | ok p ↦ ok (record { tag = tag; qual = qual; perms = some p })
]

-- From the test of the tag on.
parse_tag : Libc → Bytes → Bool → Bytes → Option Bytes → Result AccessControlEntry
parse_tag libc name has_qual qualifier perms = elim (tag_of name has_qual) [
  | none ↦ bad bad_tag
  | some tag ↦ elim (qual_of libc tag qualifier) [
    | bad e ↦ bad e
    | ok qual ↦ add_perms tag qual perms
  ]
]

is_given : Option Bytes → Bool
is_given none = false
is_given (some s) = true

-- What stands behind the first colon is cut at the second; then the permissions are checked.
parse_fields : Libc → Bool → Bytes → Bytes → Result AccessControlEntry
parse_fields libc perms_reqd name rest =
    let fields = cut b':' rest in
    let perms = perms_text fields.1 in
    if is_given perms && not perms_reqd
    then bad perms_given
    else if not (is_given perms) && perms_reqd
    then bad perms_missing
    else parse_tag libc name (has_qualifier rest) fields.0 perms

pub parse_entry_spec : Libc → Bool → Bytes → Result AccessControlEntry
parse_entry_spec libc perms_reqd entry_str =
    let colon1 = cut b':' entry_str in
    elim colon1.1 [
      | none ↦ bad missing_colon
      | some rest ↦ parse_fields libc perms_reqd colon1.0 rest
    ]

prepend : AccessControlEntry → Result (List AccessControlEntry) → Result (List AccessControlEntry)
prepend e (bad b) = bad b
prepend e (ok es) = ok (e ∷ es)

-- The loop, with room for so many entries in `aclist`.
parse_from : Libc → Bool → ℕ → Bytes → Result (List AccessControlEntry)
parse_from libc perms_reqd zero text = bad too_many
parse_from libc perms_reqd (suc room) text =
    let entry = cut b',' text in
    elim (parse_entry_spec libc perms_reqd entry.0) [
      | bad e ↦ bad e
      | ok ace ↦ elim entry.1 [
        | none ↦ ok (ace ∷ [])
        | some rest ↦ prepend ace (parse_from libc perms_reqd room rest)
      ]
    ]

abbrev pub max_entries : ℕ
max_entries = 10000

pub parse_acl : Libc → Bool → Bytes → Result (List AccessControlEntry)
parse_acl libc perms_reqd text = parse_from libc perms_reqd max_entries text
