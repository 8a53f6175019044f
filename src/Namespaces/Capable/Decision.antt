-- ===== src/Namespaces/Capable/Decision.antt =====
-- What ns_capable reports of a process.
use my_notes.Common.{
  ℕ, ◌<◌, ◌≡◌, ◌≢◌, ◌∙◌, Bool-cases, ◌||◌, inl, inr, none, some, ◌==◌, if◌then◌else◌, arith,
}
use my_notes.Namespaces.Capable.{
  Os, Libc, Search, exits, not_ancestor, descendant, searching, Verdict, in_namespace,
  no_capabilities, all_capabilities, own_capabilities, Report, fails, reports, euid_of_process,
  close_both, compare_owner, after_search, decide,
}
use my_notes.Namespaces.Capable.Kernel.{Tree, Descriptors, Same, IsDocumented, Reaches}
use my_notes.Namespaces.Capable.Ancestors.{
  ns_equal_lem, close_or_exit_lem, close_opened_lem, During, Found, is_ancestor_userns_lem,
}

-- The rules of capabilities(7) and user_namespaces(7) for a process with effective UID `euid` in the
-- namespace `s`, and the namespace `t`.
abbrev pub Judged : Tree → ℕ → ℕ → ℕ → Verdict → Type 0
Judged tree s t euid in_namespace = s ≡ t
Judged tree s t euid no_capabilities =
    (s ≢ t) × ((x : ℕ) → Reaches tree t x → tree.parent_of x ≢ some s)
Judged tree s t euid all_capabilities =
    (s ≢ t) × (x : ℕ) × Reaches tree t x × (tree.parent_of x ≡ some s) × (euid ≡ tree.owner_of x)
Judged tree s t euid own_capabilities =
    (s ≢ t) × (x : ℕ) × Reaches tree t x × (tree.parent_of x ≡ some s) × (euid ≢ tree.owner_of x)

module _ {K : Type 0} (os : Os K) (tree : Tree) (open_in : K → Descriptors)
    (doc : IsDocumented os tree open_in) (libc : Libc) where
  abbrev pub ClosesBoth : ℕ → ℕ → Descriptors → Descriptors → Type 0
  ClosesBoth source target d d' =
      (x : ℕ) → d' x ≡ (if (x == source) || (x == target) then none else d x)

  -- The program ends with a verdict that is right, and has closed both descriptors and all others it opened.
  abbrev pub Ends : ℕ → ℕ → ℕ → ℕ → ℕ → Descriptors → Report K → Type 0
  Ends source target s t euid base fails = ⊥
  Ends source target s t euid base (reports v k) =
      Judged tree s t euid v × ClosesBoth source target base (open_in k)

  module _ (source target s t euid : ℕ) (base : Descriptors) (differ : source ≢ target)
      (hs : base source ≡ some s) (ht : base target ≡ some t) where
    close_both-Ends :
        (v : Verdict) (k : K)
        → Same base (open_in k)
        → Judged tree s t euid v
        → Ends source target s t euid base (close_both os v k source target)
    unfolding close_both
    close_both-Ends v k same judged =
        let (k1, closed1, gone1) =
          close_or_exit_lem os tree open_in doc k target t (same target ∙ ht) in
        let still : open_in k1 source ≡ some s =
          grind (arith, gone1 source, same source, hs, differ) in
        let (k2, closed2, gone2) = close_or_exit_lem os tree open_in doc k1 source s still in
        rw (close_both, closed1, closed2) (judged, (λ x. grind (arith, gone2 x, gone1 x, same x)))

    compare_owner-Ends :
        (k : K) (pid child x : ℕ)
        → s ≢ t
        → Reaches tree t x
        → tree.parent_of x ≡ some s
        → During os tree open_in doc target child x base (open_in k)
        → (child ≡ target → x ≡ t)
        → euid_of_process os libc k pid ≡ some euid
        → Ends source target s t euid base (compare_owner os libc k pid source target child)
    unfolding compare_owner
    compare_owner-Ends k pid child x ne reach up d at_target uid =
        let owner = doc.owners k child x d.0 in
        let (k1, closed, same) =
          close_opened_lem os tree open_in doc k target child x t base ht d at_target in
        elim (Bool-cases (euid == tree.owner_of x)) [
          | inl owns ↦
              rw (compare_owner, uid, owner, closed, owns)
                (close_both-Ends all_capabilities k1 same (ne, x, reach, up, ground arith))
          | inr foreign ↦
              rw (compare_owner, uid, owner, closed, foreign)
                (close_both-Ends own_capabilities k1 same (ne, x, reach, up, ground arith))
        ]

    after_search-Ends :
        (pid : ℕ) (r : Search K)
        → s ≢ t
        → ((k : K) → euid_of_process os libc k pid ≡ some euid)
        → Found os tree open_in doc target t t s base r
        → Ends source target s t euid base (after_search os libc pid source target r)
    unfolding after_search
    after_search-Ends pid exits ne uid found = absurd found
    after_search-Ends pid searching ne uid found = absurd found
    after_search-Ends pid (not_ancestor k) ne uid found =
        close_both-Ends no_capabilities k found.0 (ne, found.1)
    after_search-Ends pid (descendant c k) ne uid found =
        compare_owner-Ends k pid c found.0 ne found.1 found.2 found.3 found.4 (uid k)

    -- With two open descriptors for user namespaces and turns enough for the depth of the target's, the
    -- program ends without a failure; its verdict on the process is the one of capabilities(7); and
    -- the descriptors it had are closed, with all that it opened. The process keeps its effective UID
    -- meanwhile, and the system calls behave as documented.
    pub decide-Ends :
        (turns pid : ℕ) (k : K)
        → Same base (open_in k)
        → tree.depth t < turns
        → ((k : K) → euid_of_process os libc k pid ≡ some euid)
        → Ends source target s t euid base (decide os libc turns k pid source target)
    unfolding decide
    decide-Ends turns pid k same fits uid =
        let (r, compared, is, is') =
          ns_equal_lem os tree open_in doc k source target s t (same source ∙ hs)
            (same target ∙ ht) in
        elim (Bool-cases r) [
          | inl equal ↦
              rw (decide, compared, equal) (close_both-Ends in_namespace k same (is equal))
          | inr unequal ↦
              let ne : s ≢ t = λ e. let e' = is' e in cc in
              let found =
                is_ancestor_userns_lem os tree open_in doc source target s t base differ hs ht turns
                  k same fits in
              rw (decide, compared, unequal) (after_search-Ends pid _ ne uid found)
        ]
