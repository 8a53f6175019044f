-- ===== src/Acl/Spec/RoundTrip.antt =====
-- `parseACL` reads back what is written in its notation.
use my_notes.Common.{
  ℕ, zero, suc, ◌≤◌, ◌≡◌, ◌≢◌, refl, sym, ap, ◌∙◌, Bool, true, false, List, [], ◌∷◌, ◌++◌,
  append-nil, map, Option, none, some, Bytes, codes, str_eq, if◌then◌else◌, length, All, All-append,
  cut, Lacks, cut-some, cut-none, arith,
}
use my_notes.Acl.Ids.{Libc, no_id, user_id_from_name, group_id_from_name}
use my_notes.Acl.Spec.{
  Tag, user_obj, user, group_obj, group, other, mask, Perms, no_perms, AccessControlEntry, ok,
  has_qualifier, perms_text, tag_of, checked_id, qual_of, parse_perms, add_perms, parse_tag,
  is_given, parse_fields, parse_entry_spec, prepend, parse_from, max_entries, parse_acl,
}

-- An entry as it is written: its tag by the long or the short name, the name of a user or group, and
-- the permissions if they are to be given.
pub record EntryText : Type 0 where
  pub tag : Tag
  pub long : Bool
  pub name : Bytes
  pub perms : Option Perms

abbrev pub tag_name : Tag → Bool → Bytes
tag_name user_obj true = codes "user"
tag_name user_obj false = codes "u"
tag_name user true = codes "user"
tag_name user false = codes "u"
tag_name group_obj true = codes "group"
tag_name group_obj false = codes "g"
tag_name group true = codes "group"
tag_name group false = codes "g"
tag_name other true = codes "other"
tag_name other false = codes "o"
tag_name mask true = codes "mask"
tag_name mask false = codes "m"

abbrev pub perm_chars : Perms → Bytes
perm_chars p =
    (if p.readable then b'r' else b'-')
    ∷ (if p.writable then b'w' else b'-')
    ∷ (if p.executable then b'x' else b'-')
    ∷ []

abbrev pub perm_text : Option Perms → Bytes
perm_text none = []
perm_text (some p) = perm_chars p

abbrev pub perms_suffix : Option Perms → Bytes
perms_suffix none = []
perms_suffix (some p) = b':' ∷ perm_chars p

abbrev pub text_of : EntryText → Bytes
text_of t = tag_name t.tag t.long ++ b':' ∷ (t.name ++ perms_suffix t.perms)

abbrev pub join_entries : List EntryText → Bytes
join_entries [] = []
join_entries (t ∷ []) = text_of t
join_entries (t ∷ u ∷ ts) = text_of t ++ b',' ∷ join_entries (u ∷ ts)

-- The number that a tag's name stands for; only users and groups have one.
abbrev pub id_of : Libc → Tag → Bytes → ℕ
id_of libc user name = user_id_from_name libc (some name)
id_of libc group name = group_id_from_name libc (some name)
id_of libc user_obj name = 0
id_of libc group_obj name = 0
id_of libc other name = 0
id_of libc mask name = 0

abbrev pub IsNamed : Libc → Tag → Bytes → Type 0
IsNamed libc user name = (name ≢ []) × (id_of libc user name ≢ no_id)
IsNamed libc group name = (name ≢ []) × (id_of libc group name ≢ no_id)
IsNamed libc user_obj name = name ≡ []
IsNamed libc group_obj name = name ≡ []
IsNamed libc other name = name ≡ []
IsNamed libc mask name = name ≡ []

abbrev pub gives : Option Perms → Bool
gives none = false
gives (some p) = true

-- A user or group has a name that is known, and the other tags have none; the permissions are there if
-- they are required; a name has no colon and no comma.
abbrev pub IsEntryText : Libc → Bool → EntryText → Type 0
IsEntryText libc perms_reqd t =
    IsNamed libc t.tag t.name × (gives t.perms ≡ perms_reqd) × Lacks b':' t.name × Lacks b',' t.name

abbrev pub meaning : Libc → EntryText → AccessControlEntry
meaning libc t = record { tag = t.tag; qual = id_of libc t.tag t.name; perms = t.perms }

tag_name-Lacks_colon : (tag : Tag) (long : Bool) → Lacks b':' (tag_name tag long)
tag_name-Lacks_colon user_obj true = omega arith
tag_name-Lacks_colon user_obj false = omega arith
tag_name-Lacks_colon tag true = omega arith
tag_name-Lacks_colon tag false = omega arith

tag_name-Lacks_comma : (tag : Tag) (long : Bool) → Lacks b',' (tag_name tag long)
tag_name-Lacks_comma user_obj true = omega arith
tag_name-Lacks_comma user_obj false = omega arith
tag_name-Lacks_comma tag true = omega arith
tag_name-Lacks_comma tag false = omega arith

perm_chars-parsed : (p : Perms) → parse_perms no_perms (perm_chars p) ≡ ok p
unfolding parse_perms
perm_chars-parsed p = ground arith

perms_suffix-Lacks_comma : (o : Option Perms) → Lacks b',' (perms_suffix o)
perms_suffix-Lacks_comma none = tt
perms_suffix-Lacks_comma (some p) = ground arith

cut-fields :
    (name : Bytes) (o : Option Perms)
    → Lacks b':' name
    → cut b':' (name ++ perms_suffix o) ≡ (name, if gives o then some (perm_text o) else none)
cut-fields name none h = ap (λ s. cut b':' s) (append-nil name) ∙ cut-none b':' name h
cut-fields name (some p) h = cut-some b':' name (perm_chars p) h

has_qualifier-fields :
    (c : ℕ) (name : Bytes) (o : Option Perms)
    → c ≢ b':'
    → has_qualifier (c ∷ name ++ perms_suffix o) ≡ true
unfolding has_qualifier
has_qualifier-fields c name o h = ground arith

no_qualifier-fields : (o : Option Perms) → has_qualifier (perms_suffix o) ≡ false
unfolding has_qualifier
no_qualifier-fields none = refl
no_qualifier-fields (some p) = refl

add_perms-text :
    (tag : Tag) (qual : ℕ) (o : Option Perms)
    → add_perms tag qual (if gives o then some (perm_text o) else none)
      ≡ ok (record { tag = tag; qual = qual; perms = o })
unfolding add_perms
add_perms-text tag qual none = refl
add_perms-text tag qual (some p) = rw (add_perms, perm_chars-parsed p) refl

module _ (libc : Libc) (perms_reqd : Bool) where
  qual_of-named :
      (tag : Tag) (name : Bytes)
      → IsNamed libc tag name
      → qual_of libc tag name ≡ ok (id_of libc tag name)
  unfolding qual_of checked_id
  qual_of-named user_obj name h = refl
  qual_of-named group_obj name h = refl
  qual_of-named other name h = refl
  qual_of-named mask name h = refl
  qual_of-named user name h = ground (arith, h.1)
  qual_of-named group name h = ground (arith, h.1)

  tag_of-name :
      (tag : Tag) (long : Bool) (name : Bytes) (o : Option Perms)
      → IsNamed libc tag name
      → Lacks b':' name
      → tag_of (tag_name tag long) (has_qualifier (name ++ perms_suffix o)) ≡ some tag
  unfolding tag_of str_eq
  tag_of-name user long [] o h l = absurd (h.0 refl)
  tag_of-name group long [] o h l = absurd (h.0 refl)
  tag_of-name user true (c ∷ name) o h l = rw (has_qualifier-fields c name o l.0) refl
  tag_of-name user false (c ∷ name) o h l = rw (has_qualifier-fields c name o l.0) refl
  tag_of-name group true (c ∷ name) o h l = rw (has_qualifier-fields c name o l.0) refl
  tag_of-name group false (c ∷ name) o h l = rw (has_qualifier-fields c name o l.0) refl
  tag_of-name user_obj true name o h l = rw (h, no_qualifier-fields o) refl
  tag_of-name user_obj false name o h l = rw (h, no_qualifier-fields o) refl
  tag_of-name group_obj true name o h l = rw (h, no_qualifier-fields o) refl
  tag_of-name group_obj false name o h l = rw (h, no_qualifier-fields o) refl
  tag_of-name other true name o h l = refl
  tag_of-name other false name o h l = refl
  tag_of-name mask true name o h l = refl
  tag_of-name mask false name o h l = refl

  parse_fields-text :
      (tag_text name : Bytes) (o : Option Perms)
      → Lacks b':' name
      → parse_fields libc (gives o) tag_text (name ++ perms_suffix o)
        ≡ parse_tag libc tag_text
            (has_qualifier (name ++ perms_suffix o))
            name
            (if gives o then some (perm_text o) else none)
  unfolding parse_fields perms_text is_given
  parse_fields-text tag_text name none h = rw (parse_fields, cut-fields name none h) refl
  parse_fields-text tag_text name (some p) h = rw (parse_fields, cut-fields name (some p) h) refl

  parse_entry_spec-text :
      (t : EntryText)
      → IsEntryText libc perms_reqd t
      → parse_entry_spec libc perms_reqd (text_of t) ≡ ok (meaning libc t)
  unfolding parse_entry_spec parse_tag
  parse_entry_spec-text t h =
      let rest = t.name ++ perms_suffix t.perms in
      let name_cut =
        cut-some b':' (tag_name t.tag t.long) rest (tag_name-Lacks_colon t.tag t.long) in
      let as_tag = tag_of-name t.tag t.long t.name t.perms h.0 h.2 in
      let qual = qual_of-named t.tag t.name h.0 in
      rw (parse_entry_spec, ap (λ r. r.1) name_cut, ap (λ r. r.0) name_cut)
        (ap (λ r. parse_fields libc r (tag_name t.tag t.long) rest) (sym h.1)
          ∙ parse_fields-text (tag_name t.tag t.long) t.name t.perms h.2
          ∙ rw (parse_tag, as_tag, qual) (add_perms-text t.tag _ t.perms))

  text_of-Lacks_comma : (t : EntryText) → IsEntryText libc perms_reqd t → Lacks b',' (text_of t)
  text_of-Lacks_comma t h =
      let fields = All-append (λ c. c ≢ b',') t.name _ h.3 (perms_suffix-Lacks_comma t.perms) in
      All-append (λ c. c ≢ b',') (tag_name t.tag t.long) _ (tag_name-Lacks_comma t.tag t.long)
        (omega arith, fields)

  parse_from-join :
      (room : ℕ) (t : EntryText) (ts : List EntryText)
      → All (IsEntryText libc perms_reqd) (t ∷ ts)
      → length (t ∷ ts) ≤ room
      → parse_from libc perms_reqd room (join_entries (t ∷ ts)) ≡ ok (map (meaning libc) (t ∷ ts))
  unfolding parse_from prepend
  parse_from-join zero t ts h fits = absurd (omega arith)
  parse_from-join (suc room) t [] h fits =
      let one = cut-none b',' (text_of t) (text_of-Lacks_comma t h.0) in
      rw (parse_from, ap (λ r. r.0) one, parse_entry_spec-text t h.0, ap (λ r. r.1) one) refl
  parse_from-join (suc room) t (u ∷ ts) h fits =
      let first = cut-some b',' (text_of t) (join_entries (u ∷ ts)) (text_of-Lacks_comma t h.0) in
      let others = parse_from-join room u ts h.1 (omega arith) in
      rw (parse_from, ap (λ r. r.0) first, parse_entry_spec-text t h.0, ap (λ r. r.1) first, others)
        refl

  -- A text form of entries joined with commas is parsed to the entries it means, if there are at least
  -- one and at most 10000, a user or group has a name whose number is known, the other tags have
  -- no name, names have no colon and no comma, and permissions are there exactly if they are required.
  pub parse_acl-join_entries :
      (t : EntryText) (ts : List EntryText)
      → All (IsEntryText libc perms_reqd) (t ∷ ts)
      → length (t ∷ ts) ≤ max_entries
      → parse_acl libc perms_reqd (join_entries (t ∷ ts)) ≡ ok (map (meaning libc) (t ∷ ts))
  unfolding parse_acl
  parse_acl-join_entries t ts h fits = parse_from-join max_entries t ts h fits
