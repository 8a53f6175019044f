-- ===== src/Namespaces/Actions/Sets.antt =====
-- What the option -X does to the capability sets.
use mathlib.Core.Path.{subst}
use my_notes.Common.{
  ℕ, ◌≡◌, ◌≢◌, refl, sym, ap, ◌∙◌, ◌⊎◌, inl, inr, Bool, true, false, Bool-cases, Option-cases, ◌&&◌,
  none, some, ◌==◌, if◌then◌else◌, arith,
}
use my_notes.Namespaces.Actions.{
  CapFlag, cap_effective, cap_permitted, cap_inheritable, Os, is_letter, if_ok, modify_cap_setting,
  modify_set,
}

-- The capability sets of a process.
pub data CapSet : Type 0 where
  permitted effective inheritable_set bounding ambient_caps : CapSet

abbrev pub flag_set : CapFlag → CapSet
flag_set cap_effective = effective
flag_set cap_permitted = permitted
flag_set cap_inheritable = inheritable_set

-- A change that gives the capability `cap` the value `b` in the set `s`, may give it that value in other
-- sets, and leaves all other capabilities alone.
pub record Gives (cap : ℕ) (b : Bool) (s : CapSet) (d d' : CapSet → ℕ → Bool) : Type 0 where
  pub given : d' s cap ≡ b
  pub only_given : (s' : CapSet) → (d' s' cap ≡ d s' cap) ⊎ (d' s' cap ≡ b)
  pub others : (s' : CapSet) (n : ℕ) → n ≢ cap → d' s' n ≡ d s' n

-- What capabilities(7), prctl(2) and cap_set_proc(3) say of the sets of the process.
pub record IsDocumented {C K : Type 0} (os : Os C K) (sets : K → CapSet → ℕ → Bool) : Type 0 where
  pub in_caps : C → CapFlag → ℕ → Bool
  pub gets :
      (k : K) (caps : C)
      → os.cap_get_proc k ≡ some caps
      → (f : CapFlag) (n : ℕ) → in_caps caps f n ≡ sets k (flag_set f) n
  pub flag_given :
      (caps caps' : C) (f : CapFlag) (cap : ℕ) (b : Bool)
      → os.cap_set_flag caps f cap b ≡ some caps'
      → in_caps caps' f cap ≡ b
  pub flag_others :
      (caps caps' : C) (f f' : CapFlag) (cap n : ℕ) (b : Bool)
      → os.cap_set_flag caps f cap b ≡ some caps'
      → (f ≢ f') ⊎ (cap ≢ n)
      → in_caps caps' f' n ≡ in_caps caps f' n
  pub sets_flags :
      (k k' : K) (caps : C)
      → os.cap_set_proc k caps ≡ some k'
      → (f : CapFlag) (n : ℕ) → sets k' (flag_set f) n ≡ in_caps caps f n
  pub sets_bounding :
      (k k' : K) (caps : C)
      → os.cap_set_proc k caps ≡ some k'
      → (n : ℕ) → sets k' bounding n ≡ sets k bounding n
  -- a capability that is no longer permitted or inheritable leaves the ambient set
  pub sets_ambient :
      (k k' : K) (caps : C)
      → os.cap_set_proc k caps ≡ some k'
      → (n : ℕ)
      → sets k' ambient_caps n
        ≡ (sets k ambient_caps n && (sets k' permitted n && sets k' inheritable_set n))
  pub ambient_below :
      (k : K) (n : ℕ)
      → sets k ambient_caps n
        ≡ (sets k ambient_caps n && (sets k permitted n && sets k inheritable_set n))
  pub drops :
      (k k' : K) (cap : ℕ)
      → os.bset_drop k cap ≡ some k'
      → Gives cap false bounding (sets k) (sets k')
  pub ambients :
      (k k' : K) (b : Bool) (cap : ℕ)
      → os.ambient_set k b cap ≡ some k'
      → Gives cap b ambient_caps (sets k) (sets k')

-- The set that a letter stands for.
abbrev pub set_of : ℕ → CapSet
set_of c =
    if c == b'p'
    then permitted
    else if c == b'e'
    then effective
    else if c == b'i'
    then inheritable_set
    else if c == b'b'
    then bounding
    else ambient_caps

same_flag_cases : (f f' : CapFlag) → (f ≡ f') ⊎ (f ≢ f')
same_flag_cases cap_effective cap_effective = inl refl
same_flag_cases cap_effective cap_permitted = inr (λ e. cc)
same_flag_cases cap_effective cap_inheritable = inr (λ e. cc)
same_flag_cases cap_permitted cap_effective = inr (λ e. cc)
same_flag_cases cap_permitted cap_permitted = inl refl
same_flag_cases cap_permitted cap_inheritable = inr (λ e. cc)
same_flag_cases cap_inheritable cap_effective = inr (λ e. cc)
same_flag_cases cap_inheritable cap_permitted = inr (λ e. cc)
same_flag_cases cap_inheritable cap_inheritable = inl refl

-- The ambient set after its bounds have come nearer to `b`.
ambient_cases :
    (b a p i p' i' : Bool)
    → a ≡ (a && (p && i))
    → (p' ≡ p) ⊎ (p' ≡ b)
    → (i' ≡ i) ⊎ (i' ≡ b)
    → (a && (p' && i') ≡ a) ⊎ (a && (p' && i') ≡ b)
ambient_cases b false p i p' i' bounded hp hi = inl refl
ambient_cases true true true true true true bounded hp hi = inl refl
ambient_cases b true p i p' i' bounded hp hi = ground arith

module _ {C K : Type 0} (os : Os C K) (sets : K → CapSet → ℕ → Bool)
    (doc : IsDocumented os sets) where
  module _ (k k' : K) (caps caps' : C) (f : CapFlag) (cap : ℕ) (b : Bool)
      (got : os.cap_get_proc k ≡ some caps) (flagged : os.cap_set_flag caps f cap b ≡ some caps')
      (put : os.cap_set_proc k caps' ≡ some k') where
    flag_cases :
        (g : CapFlag)
        → (sets k' (flag_set g) cap ≡ sets k (flag_set g) cap) ⊎ (sets k' (flag_set g) cap ≡ b)
    flag_cases g = elim (same_flag_cases f g) [
      | inl same ↦ inr (
          doc.sets_flags k k' caps' put g cap
          ∙ subst (λ x. doc.in_caps caps' x cap ≡ b) same
              (doc.flag_given caps caps' f cap b flagged))
      | inr other ↦ inl (
          doc.sets_flags k k' caps' put g cap
          ∙ (doc.flag_others caps caps' f g cap cap b flagged (inl other)
              ∙ doc.gets k caps got g cap))
    ]

    flag_others_lem :
        (g : CapFlag) (n : ℕ) → n ≢ cap → sets k' (flag_set g) n ≡ sets k (flag_set g) n
    flag_others_lem g n ne =
        doc.sets_flags k k' caps' put g n
        ∙ (doc.flag_others caps caps' f g cap n b flagged (inr (λ e. ne (sym e)))
            ∙ doc.gets k caps got g n)

    set_cases : (s : CapSet) → (sets k' s cap ≡ sets k s cap) ⊎ (sets k' s cap ≡ b)
    set_cases permitted = flag_cases cap_permitted
    set_cases effective = flag_cases cap_effective
    set_cases inheritable_set = flag_cases cap_inheritable
    set_cases bounding = inl (doc.sets_bounding k k' caps' put cap)
    set_cases ambient_caps = rw (doc.sets_ambient k k' caps' put cap) (
        ambient_cases b (sets k ambient_caps cap) (sets k permitted cap)
          (sets k inheritable_set cap) (sets k' permitted cap) (sets k' inheritable_set cap)
          (doc.ambient_below k cap) (flag_cases cap_permitted) (flag_cases cap_inheritable))

    set_others : (s : CapSet) (n : ℕ) → n ≢ cap → sets k' s n ≡ sets k s n
    set_others permitted n ne = flag_others_lem cap_permitted n ne
    set_others effective n ne = flag_others_lem cap_effective n ne
    set_others inheritable_set n ne = flag_others_lem cap_inheritable n ne
    set_others bounding n ne = doc.sets_bounding k k' caps' put n
    set_others ambient_caps n ne =
        doc.sets_ambient k k' caps' put n
        ∙ (rw (flag_others_lem cap_permitted n ne, flag_others_lem cap_inheritable n ne)
            (sym (doc.ambient_below k n)))

    set_proc-Gives : Gives cap b (flag_set f) (sets k) (sets k')
    set_proc-Gives = record {
      given = doc.sets_flags k k' caps' put f cap ∙ doc.flag_given caps caps' f cap b flagged;
      only_given = set_cases;
      others = set_others;
    }

  modify_cap_setting-Gives :
      (k k' : K) (f : CapFlag) (cap : ℕ) (b : Bool)
      → if_ok os (modify_cap_setting os k f cap b) ≡ some k'
      → Gives cap b (flag_set f) (sets k) (sets k')
  unfolding modify_cap_setting
  modify_cap_setting-Gives k k' f cap b e = elim (Option-cases (os.cap_get_proc k)) [
    | inl e1 ↦ let e' = rw (if_ok, modify_cap_setting, e1) at e in absurd (cc)
    | inr (caps, e1) ↦ elim (Option-cases (os.cap_set_flag caps f cap b)) [
      | inl e2 ↦ let e' = rw (if_ok, modify_cap_setting, e1, e2) at e in absurd (cc)
      | inr (caps', e2) ↦ elim (Option-cases (os.cap_set_proc k caps')) [
        | inl e3 ↦ let e' = rw (if_ok, modify_cap_setting, e1, e2, e3) at e in absurd (cc)
        | inr (k1, e3) ↦ elim (Bool-cases (os.cap_free caps')) [
          | inr e4 ↦ let e' = rw (if_ok, modify_cap_setting, e1, e2, e3, e4) at e in absurd (cc)
          | inl e4 ↦
              let e' = rw (if_ok, modify_cap_setting, e1, e2, e3, e4) at e in
              let same : k1 ≡ k' = cc in
              set_proc-Gives k k' caps caps' f cap b e1 e2 (e3 ∙ ap some same)
        ]
      ]
    ]
  ]

  pub modify_set-Gives :
      (k k' : K) (b : Bool) (cap c : ℕ)
      → modify_set os k b cap c ≡ some k'
      → is_letter c ≡ true
      → Gives cap b (set_of c) (sets k) (sets k')
  unfolding modify_set
  modify_set-Gives k k' b cap c e letter = elim (Bool-cases (c == b'p')) [
    | inl y ↦ rw y (modify_cap_setting-Gives k k' cap_permitted cap b (rw (modify_set, y) at e))
    | inr n1 ↦ elim (Bool-cases (c == b'e')) [
      | inl y ↦
          rw (n1, y)
            (modify_cap_setting-Gives k k' cap_effective cap b (rw (modify_set, n1, y) at e))
      | inr n2 ↦ elim (Bool-cases (c == b'i')) [
        | inl y ↦
            rw (n1, n2, y)
              (modify_cap_setting-Gives k k' cap_inheritable cap b
                (rw (modify_set, n1, n2, y) at e))
        | inr n3 ↦ elim (Bool-cases (c == b'b')) [
          | inl y ↦ rw (n1, n2, n3, y) (dropped b (rw (modify_set, n1, n2, n3, y) at e))
          | inr n4 ↦
              let last : (c == b'a') ≡ true = ground arith in
              rw (n1, n2, n3, n4)
                (doc.ambients k k' b cap (rw (modify_set, n1, n2, n3, n4, last) at e))
        ]
      ]
    ]
  ]
    where
      dropped :
          (b : Bool)
          → (if b then none else os.bset_drop k cap) ≡ some k'
          → Gives cap b bounding (sets k) (sets k')
      dropped true e = absurd (cc)
      dropped false e = doc.drops k k' cap e
