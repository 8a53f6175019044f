-- ===== src/Namespaces/Actions/Modify.antt =====
-- What the option -X of namespaces/userns_child_exec.c comes to.
use my_notes.Common.{
  ℕ, ◌≡◌, ◌≢◌, refl, ap, ◌∙◌, ◌⊎◌, inl, inr, Bool, true, false, Option-cases, ◌||◌, [], ◌∷◌, ◌++◌,
  Option, none, some, Bytes, All, ◌==◌, arith,
}
use my_notes.Namespaces.Actions.{
  Os, is_letter, find_op, modify_set, modify_sets, modify_from, modify_individual_capability,
}
use my_notes.Namespaces.Actions.Sets.{CapSet, IsDocumented, set_of, modify_set-Gives}

module _ {C K : Type 0} (os : Os C K) (sets : K → CapSet → ℕ → Bool)
    (doc : IsDocumented os sets) where
  -- The option has been carried out, or one of its changes was refused and the program has exited.
  abbrev pub Modified : K → Bool → ℕ → Bytes → Option K → Type 0
  Modified k b cap letters none =
      (done : Bytes) × (c : ℕ) × (rest : Bytes) × (k' : K) × (letters ≡ done ++ c ∷ rest)
      × (modify_sets os k b cap done ≡ some k')
      × (modify_set os k' b cap c ≡ none)
  Modified k b cap letters (some k') =
      All (λ c. sets k' (set_of c) cap ≡ b) letters
      × ((s : CapSet) → (sets k' s cap ≡ sets k s cap) ⊎ (sets k' s cap ≡ b))
      × ((s : CapSet) (n : ℕ) → n ≢ cap → sets k' s n ≡ sets k s n)

  keep_given : (b x y z : Bool) → (y ≡ x) ⊎ (y ≡ b) → (z ≡ y) ⊎ (z ≡ b) → (z ≡ x) ⊎ (z ≡ b)
  keep_given b x y z h1 h2 = ground arith

  Modified-step :
      (k k1 : K) (b : Bool) (cap c : ℕ) (letters : Bytes) (r : Option K)
      → modify_set os k b cap c ≡ some k1
      → is_letter c ≡ true
      → Modified k1 b cap letters r
      → Modified k b cap (c ∷ letters) r
  unfolding modify_sets
  Modified-step k k1 b cap c letters none e letter (done, c', rest, k', split, first, refused) =
      (c ∷ done, c', rest, k', ap (λ l. c ∷ l) split, rw (modify_sets, e) first, refused)
  Modified-step k k1 b cap c letters (some k') e letter (all, only, others) =
      let g = modify_set-Gives os sets doc k k1 b cap c e letter in
      (
        (elim (only (set_of c)) [ inl same ↦ same ∙ g.given | inr y ↦ y ], all),
        (λ s.
            keep_given b (sets k s cap) (sets k1 s cap) (sets k' s cap) (g.only_given s) (only s)),
        (λ s n ne. others s n ne ∙ g.others s n ne),
      )

  modify_sets-Modified :
      (k : K) (b : Bool) (cap : ℕ) (letters : Bytes)
      → All (λ c. is_letter c ≡ true) letters
      → Modified k b cap letters (modify_sets os k b cap letters)
  unfolding modify_sets
  modify_sets-Modified k b cap [] h = (tt, (λ s. inl refl), (λ s n ne. refl))
  modify_sets-Modified k b cap (c ∷ letters) (letter, h) =
      elim (Option-cases (modify_set os k b cap c)) [
        | inl e ↦ rw (modify_sets, e) ([], c, letters, k, refl, refl, e)
        | inr (k1, e) ↦
            rw (modify_sets, e)
              (Modified-step k k1 b cap c letters _ e letter
                (modify_sets-Modified k1 b cap letters h))
      ]

  find_op_lem :
      (letters : Bytes) (op : ℕ) (name : Bytes)
      → All (λ c. is_letter c ≡ true) letters
      → ((op == b'+') || (op == b'-')) ≡ true
      → find_op (letters ++ op ∷ name) ≡ (false, (letters, op ∷ name))
  unfolding find_op
  find_op_lem [] op name h is_op = rw (find_op, is_op) refl
  find_op_lem (c ∷ letters) op name (letter, h) is_op =
      let rest = find_op_lem letters op name h is_op in
      let no_op : ((c == b'+') || (c == b'-')) ≡ false = ground arith in
      rw (find_op, no_op, letter, rest) refl

  -- With letters for sets, an operator and the name of a capability, -X gives the capability to all these
  -- sets for +, and takes it from them for -; it may do so for other sets, but no set changes the other
  -- way, and the other capabilities stay as they are. Otherwise it exits at the first letter whose
  -- change is refused, when those before it have been made.
  pub modify_individual_capability-Modified :
      (k : K) (letters : Bytes) (op c : ℕ) (name : Bytes) (cap : ℕ)
      → All (λ c. is_letter c ≡ true) letters
      → ((op == b'+') || (op == b'-')) ≡ true
      → os.cap_from_name (c ∷ name) ≡ some cap
      → Modified k
          (op == b'+')
          cap
          letters
          (modify_individual_capability os k (letters ++ op ∷ c ∷ name))
  unfolding modify_individual_capability modify_from
  modify_individual_capability-Modified k letters op c name cap h is_op named =
      rw (modify_individual_capability, find_op_lem letters op (c ∷ name) h is_op, named)
        (modify_sets-Modified k (op == b'+') cap letters h)
