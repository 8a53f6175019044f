-- ===== src/Namespaces/Actions.antt =====
-- What the child of namespaces/userns_child_exec.c does before it executes the command, with
-- `modifyCapSetting` of cap/cap_functions.c.
pub mod Sets
pub mod Modify
use my_notes.Common.{
  ℕ, zero, suc, ◌+◌, Bool, true, false, not, ◌&&◌, ◌||◌, List, [], ◌∷◌, ◌++◌, Option, none, some,
  Bytes, cut, ◌==◌, if◌then◌else◌,
}
use my_notes.Namespaces.Options.{
  OptionItem, inheritable, ambient, display, securebits, set_uid, set_uids, set_caps, modify_cap,
  wait, CmdOptions,
}

-- The capability sets that libcap modifies, and all those of a process.
pub data CapFlag : Type 0 where
  cap_effective cap_permitted cap_inheritable : CapFlag

pub data Securebit : Type 0 where
  noroot noroot_locked no_setuid_fixup no_setuid_fixup_locked : Securebit
  keep_caps keep_caps_locked no_cap_ambient_raise no_cap_ambient_raise_locked : Securebit

abbrev pub bit_code : Securebit → ℕ
bit_code noroot = 0
bit_code noroot_locked = 1
bit_code no_setuid_fixup = 2
bit_code no_setuid_fixup_locked = 3
bit_code keep_caps = 4
bit_code keep_caps_locked = 5
bit_code no_cap_ambient_raise = 6
bit_code no_cap_ambient_raise_locked = 7

-- The system calls, over a state of the kernel, and libcap, where `C` is what a `cap_t` refers to; `none` is
-- a failure. `atoi` includes the conversion to an unsigned number. `display` is
-- `display_creds_and_caps`, which prints.
pub record Os (C K : Type 0) : Type 0 where
  pub cap_get_proc : K → Option C
  pub cap_set_flag : C → CapFlag → ℕ → Bool → Option C
  pub cap_set_proc : K → C → Option K
  pub cap_free : C → Bool
  pub cap_from_name : Bytes → Option ℕ
  pub cap_from_text : Bytes → Option C
  pub bset_drop : K → ℕ → Option K
  pub ambient_set : K → Bool → ℕ → Option K
  pub set_secbits : K → (Securebit → Bool) → Option K
  pub setresuid : K → ℕ → ℕ → ℕ → Option K
  pub sleep : K → ℕ → K
  pub display_creds : K → ℕ → Option K
  pub atoi : Bytes → ℕ
  pub cap_last_cap : ℕ

-- `strchr("peiba", c) != NULL`
abbrev pub is_letter : ℕ → Bool
is_letter c = (c == b'p') || ((c == b'e') || ((c == b'i') || ((c == b'b') || (c == b'a'))))

-- Where the loop over `optval` stops: was there a bad letter, the letters, and the text from the operator on.
unfoldable pub find_op : Bytes → Bool × (Bytes × Bytes)
find_op [] = (false, ([], []))
find_op (c ∷ s) =
    let r = find_op s in
    if (c == b'+') || (c == b'-')
    then (false, ([], c ∷ s))
    else (not (is_letter c) || r.0, (c ∷ r.1.0, r.1.1))

abbrev pub bit_of : ℕ → Option Securebit
bit_of c =
    if c == b'a'
    then some no_cap_ambient_raise
    else if c == b'A'
    then some no_cap_ambient_raise_locked
    else if c == b'k'
    then some keep_caps
    else if c == b'K'
    then some keep_caps_locked
    else if c == b'r'
    then some noroot
    else if c == b'R'
    then some noroot_locked
    else if c == b's'
    then some no_setuid_fixup
    else if c == b'S'
    then some no_setuid_fixup_locked
    else none

-- The switch of `set_securebits`.
unfoldable pub add_bit : (Securebit → Bool) → ℕ → Option (Securebit → Bool)
add_bit secbits c = elim (bit_of c) [
  | some b ↦ some (λ b'. secbits b' || (bit_code b == bit_code b'))
  | none ↦ if c == b'0' then some (λ b'. false) else none
]

unfoldable pub collect_bits : (Securebit → Bool) → Bytes → Option (Securebit → Bool)
collect_bits secbits [] = some secbits
collect_bits secbits (c ∷ s) = elim (add_bit secbits c) [
  | none ↦ none
  | some secbits' ↦ collect_bits secbits' s
]

module _ {C K : Type 0} (os : Os C K) where
  -- cap/cap_functions.c
  unfoldable pub modify_cap_setting : K → CapFlag → ℕ → Bool → Bool × K
  modify_cap_setting k f capability setting = elim (os.cap_get_proc k) [
    | none ↦ (false, k)
    | some caps ↦ elim (os.cap_set_flag caps f capability setting) [
      | none ↦ (false, k)
      | some caps' ↦ elim (os.cap_set_proc k caps') [
        | none ↦ (false, k)
        | some k' ↦ (os.cap_free caps', k')
      ]
    ]
  ]

  abbrev pub unless_error : K → Option K → K
  unless_error k none = k
  unless_error k (some k') = k'

  raise_cap : Bool → K → ℕ → K
  raise_cap do_ambient k cap =
      let k' = (modify_cap_setting k cap_inheritable cap true).1 in
      if do_ambient then unless_error k' (os.ambient_set k' true cap) else k'

  -- `caps` more capabilities from `cap` on
  raise_caps : Bool → K → ℕ → ℕ → K
  raise_caps do_ambient k cap zero = k
  raise_caps do_ambient k cap (suc caps) =
      raise_caps do_ambient (raise_cap do_ambient k cap) (cap + 1) caps

  raise_inheritable_and_ambient_caps : Bool → K → K
  raise_inheritable_and_ambient_caps do_ambient k = raise_caps do_ambient k 0 (os.cap_last_cap + 1)

  abbrev pub if_ok : Bool × K → Option K
  if_ok (true, k) = some k
  if_ok (false, k) = none

  -- The switch of `modify_individual_capability`; `none` is an exit.
  unfoldable pub modify_set : K → Bool → ℕ → ℕ → Option K
  modify_set k raise cap c =
      if c == b'p'
      then if_ok (modify_cap_setting k cap_permitted cap raise)
      else if c == b'e'
      then if_ok (modify_cap_setting k cap_effective cap raise)
      else if c == b'i'
      then if_ok (modify_cap_setting k cap_inheritable cap raise)
      else if c == b'b'
      then (if raise then none else os.bset_drop k cap)
      else if c == b'a'
      then os.ambient_set k raise cap
      else none

  unfoldable pub modify_sets : K → Bool → ℕ → Bytes → Option K
  modify_sets k raise cap [] = some k
  modify_sets k raise cap (c ∷ s) = elim (modify_set k raise cap c) [
    | none ↦ none
    | some k' ↦ modify_sets k' raise cap s
  ]

  -- What follows the loop for `op`.
  unfoldable pub modify_from : K → Bool → Bytes → Bytes → Option K
  modify_from k bad_cap sets [] = none
  modify_from k bad_cap sets (op ∷ []) = none
  modify_from k bad_cap sets (op ∷ c ∷ name) =
      if bad_cap then none else elim (os.cap_from_name (c ∷ name)) [
        | none ↦ none
        | some cap ↦ modify_sets k (op == b'+') cap sets
      ]

  unfoldable pub modify_individual_capability : K → Bytes → Option K
  modify_individual_capability k optval = let r = find_op optval in modify_from k r.0 r.1.0 r.1.1

  set_securebits : K → Bytes → Option K
  set_securebits k optval = elim (collect_bits (λ b. false) optval) [
    | none ↦ none
    | some secbits ↦ os.set_secbits k secbits
  ]

  -- The text behind the first comma is cut at the second.
  set_uids_from : K → Bytes → Option Bytes → Option K
  set_uids_from k r none = none
  set_uids_from k r (some behind) =
      let second = cut b',' behind in
      elim second.1 [
        | none ↦ none
        | some s ↦ os.setresuid k (os.atoi r) (os.atoi second.0) (os.atoi s)
      ]

  set_process_uids : K → Bytes → Option K
  set_process_uids k optval = let first = cut b',' optval in set_uids_from k first.0 first.1

  set_same_uid : K → ℕ → Option K
  set_same_uid k newuid = os.setresuid k newuid newuid newuid

  set_text_caps : K → Bytes → Option K
  set_text_caps k text = elim (os.cap_from_text text) [
    | none ↦ none
    | some caps ↦ os.cap_set_proc k caps
  ]

  -- The switch of `perform_repeatable_options`; the number is `display_cnt`.
  perform_option : K → ℕ → OptionItem → Option K
  perform_option k display_cnt inheritable = some (raise_inheritable_and_ambient_caps false k)
  perform_option k display_cnt ambient = some (raise_inheritable_and_ambient_caps true k)
  perform_option k display_cnt display = os.display_creds k (display_cnt + 1)
  perform_option k display_cnt (securebits v) = set_securebits k v
  perform_option k display_cnt (set_uid v) = set_same_uid k (os.atoi v)
  perform_option k display_cnt (set_uids v) = set_process_uids k v
  perform_option k display_cnt (set_caps v) = set_text_caps k v
  perform_option k display_cnt (modify_cap v) = modify_individual_capability k v
  perform_option k display_cnt (wait v) = some (os.sleep k (os.atoi v))

  count_display : ℕ → OptionItem → ℕ
  count_display display_cnt display = display_cnt + 1
  count_display display_cnt other = display_cnt

  perform_from : K → ℕ → List OptionItem → Option K
  perform_from k display_cnt [] = some k
  perform_from k display_cnt (i ∷ items) = elim (perform_option k display_cnt i) [
    | none ↦ none
    | some k' ↦ perform_from k' (count_display display_cnt i) items
  ]

  pub perform_repeatable_options : K → CmdOptions → Option K
  perform_repeatable_options k opts = perform_from k 0 opts.opt_list
