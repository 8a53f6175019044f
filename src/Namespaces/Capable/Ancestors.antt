-- ===== src/Namespaces/Capable/Ancestors.antt =====
-- The search for an ancestor finds it, and leaves no descriptor open but the one it returns.
use mathlib.Core.Path.{subst}
use my_notes.Common.{
  ℕ, zero, suc, ◌<◌, ◌≡◌, ◌≢◌, refl, sym, ap, ◌∙◌, Bool, true, Bool-cases, Option-cases, inl, inr,
  none, some, ◌==◌, if◌then◌else◌, arith,
}
use my_notes.Namespaces.Capable.{
  Os, same_file, Search, exits, not_ancestor, descendant, searching, ns_equal, close_or_exit,
  close_opened, find_ancestor, is_ancestor_userns,
}
use my_notes.Namespaces.Capable.Kernel.{
  Tree, Descriptors, Same, Opens, Closes, IsDocumented, Reaches, here, climb,
}

same_file_iff : (a b : ℕ × ℕ) → same_file a b ≡ true → a ≡ b
unfolding same_file
same_file_iff (d1, i1) (d2, i2) h = ground arith

same_file_refl : (a : ℕ × ℕ) → same_file a a ≡ true
unfolding same_file
same_file_refl (d, i) = ground arith

module _ {K : Type 0} (os : Os K) (tree : Tree) (open_in : K → Descriptors)
    (doc : IsDocumented os tree open_in) where
  pub ns_equal_lem :
      (k : K) (a b m n : ℕ)
      → open_in k a ≡ some m
      → open_in k b ≡ some n
      → (r : Bool) × (ns_equal os k a b ≡ some r) × (r ≡ true → m ≡ n) × (m ≡ n → r ≡ true)
  unfolding ns_equal
  ns_equal_lem k a b m n ha hb =
      let sa = doc.stats k a m ha in
      let sb = doc.stats k b n hb in
      (
        same_file (tree.file_of m) (tree.file_of n),
        rw (ns_equal, sa, sb) refl,
        (λ h. tree.distinct m n (same_file_iff (tree.file_of m) (tree.file_of n) h)),
        (λ e. rw e (same_file_refl (tree.file_of n))),
      )

  pub close_or_exit_lem :
      (k : K) (fd n : ℕ)
      → open_in k fd ≡ some n
      → (k' : K) × (close_or_exit os k fd ≡ some k') × Closes fd (open_in k) (open_in k')
  unfolding close_or_exit
  close_or_exit_lem k fd n h =
      let (k', e, closed) = doc.closes k fd n h in
      (k', rw (close_or_exit, ap (λ r. r.0) e, ap (λ r. r.1) e) refl, closed)

  -- The descriptors during the loop: the caller's, and that of `child` if the loop opened it.
  abbrev pub During : ℕ → ℕ → ℕ → Descriptors → Descriptors → Type 0
  During target child m base d =
      (d child ≡ some m)
      × ((x : ℕ) → d x ≡ (if x == child then some m else base x))
      × (child ≢ target → base child ≡ none)

  pub close_opened_lem :
      (k : K) (target child m t : ℕ) (base : Descriptors)
      → base target ≡ some t
      → During target child m base (open_in k)
      → (child ≡ target → m ≡ t)
      → (k' : K) × (close_opened os k child target ≡ some k') × Same base (open_in k')
  unfolding close_opened
  close_opened_lem k target child m t base ht d mt = elim (Bool-cases (child == target)) [
    | inl same ↦
        let e : child ≡ target = ground arith in
        (k, rw (close_opened, same) refl, λ x. grind (arith, d.1, mt, e, ht))
    | inr differs ↦
        let (k', closed, gone) = close_or_exit_lem k child m d.0 in
        let ne : child ≢ target = ground arith in
        let free = d.2 ne in
        (k', rw (close_opened, differs) closed, λ x. grind (arith, gone, d.1, free))
  ]

  -- What a search from the namespace `m` has found, for the source namespace `s`.
  abbrev pub Found : ℕ → ℕ → ℕ → ℕ → Descriptors → Search K → Type 0
  Found target t m s base exits = ⊥
  Found target t m s base searching = ⊥
  Found target t m s base (not_ancestor k) =
      Same base (open_in k) × ((x : ℕ) → Reaches tree m x → tree.parent_of x ≢ some s)
  Found target t m s base (descendant c k) =
      (x : ℕ) × Reaches tree m x
      × (tree.parent_of x ≡ some s)
      × During target c x base (open_in k)
      × (c ≡ target → x ≡ t)

  top-Reaches :
      (m s : ℕ) → tree.parent_of m ≡ none → (x : ℕ) → Reaches tree m x → tree.parent_of x ≢ some s
  top-Reaches m s top x (here n) = λ e. cc
  top-Reaches m s top x (climb n p z up r) = λ e. cc

  next-Reaches :
      (m p s : ℕ)
      → tree.parent_of m ≡ some p
      → p ≢ s
      → ((x : ℕ) → Reaches tree p x → tree.parent_of x ≢ some s)
      → (x : ℕ) → Reaches tree m x
      → tree.parent_of x ≢ some s
  next-Reaches m p s up ne above x (here n) = λ e. grind (arith, up, ne)
  next-Reaches m p s up ne above x (climb n q z up' r) =
      let same : q ≡ p = grind arith in above z (subst (λ y. Reaches tree y z) same r)

  climb-Found :
      (target t m p s : ℕ) (base : Descriptors) (r : Search K)
      → tree.parent_of m ≡ some p
      → p ≢ s
      → Found target t p s base r
      → Found target t m s base r
  climb-Found target t m p s base exits up ne h = h
  climb-Found target t m p s base searching up ne h = h
  climb-Found target t m p s base (not_ancestor k) up ne h = (h.0, next-Reaches m p s up ne h.1)
  climb-Found target t m p s base (descendant c k) up ne h =
      (h.0, climb m p h.0 up h.1, h.2, h.3, h.4)

  -- The loop, where `child` refers to `m`.
  module _ (source target s t : ℕ) (base : Descriptors) (differ : source ≢ target)
      (hs : base source ≡ some s) (ht : base target ≡ some t) where
    -- the state at the head of the loop
    abbrev AtChild : ℕ → ℕ → K → Type 0
    AtChild child m k = During target child m base (open_in k) × (child ≡ target → m ≡ t)

    find_ancestor-top :
        (turns child m : ℕ) (k : K)
        → AtChild child m k
        → tree.parent_of m ≡ none
        → Found target t m s base (find_ancestor os (suc turns) k source target child)
    unfolding find_ancestor
    find_ancestor-top turns child m k h top =
        let (k1, e, same) = doc.no_parent k child m h.0.0 top in
        let d : During target child m base (open_in k1) =
          (same child ∙ h.0.0, (λ x. same x ∙ h.0.1 x), h.0.2) in
        let (k2, closed, left) = close_opened_lem k1 target child m t base ht d h.1 in
        rw (find_ancestor, ap (λ r. r.0) e, ap (λ r. r.1) e, closed) (left, top-Reaches m s top)

    differs_by : (d : Descriptors) (a b n : ℕ) → d a ≡ none → d b ≡ some n → a ≢ b
    differs_by d a b n ha hb = λ same. let e = ap d same in cc

    child-ne-source : (child m : ℕ) (k : K) → AtChild child m k → child ≢ source
    child-ne-source child m k h = elim (Bool-cases (child == target)) [
      | inl same ↦ let e : child ≡ target = ground arith in λ c. differ (sym c ∙ e)
      | inr other ↦
          let ne : child ≢ target = ground arith in differs_by base child source s (h.0.2 ne) hs
    ]

    -- The parent's descriptor is a new one.
    record Opened (child m p fd : ℕ) (k1 : K) : Type 0 where
      not_child : fd ≢ child
      not_target : fd ≢ target
      unused : base fd ≡ none
      refers : open_in k1 fd ≡ some p
      source_open : open_in k1 source ≡ some s
      during : During target child m (λ x. if x == fd then some p else base x) (open_in k1)

    parent-Opened :
        (child m p fd : ℕ) (k k1 : K)
        → AtChild child m k
        → Opens fd p (open_in k) (open_in k1)
        → Opened child m p fd k1
    parent-Opened child m p fd k k1 h new =
        let not_child = differs_by (open_in k) fd child m new.0 h.0.0 in
        let unused : base fd ≡ none = grind (arith, new.0, h.0.1 fd, not_child) in
        let not_target = differs_by base fd target t unused ht in
        let not_source = differs_by base fd source s unused hs in
        let away = child-ne-source child m k h in
        record {
          not_child = not_child;
          not_target = not_target;
          unused = unused;
          refers = grind (arith, new.1 fd);
          source_open = grind (arith, new.1 source, h.0.1 source, not_source, away, hs);
          during = (
            grind (arith, new.1 child, not_child, h.0.0),
            (λ x. grind (arith, new.1 x, h.0.1 x, not_child)),
            (λ ne. grind (arith, h.0.2 ne, not_child)),
          );
        }

    find_ancestor_lem :
        (turns child m : ℕ) (k : K)
        → AtChild child m k
        → tree.depth m < turns
        → Found target t m s base (find_ancestor os turns k source target child)
    unfolding find_ancestor
    find_ancestor_lem zero child m k h fits = absurd (omega arith)
    find_ancestor_lem (suc turns) child m k h fits = elim (Option-cases (tree.parent_of m)) [
      | inl top ↦ find_ancestor-top turns child m k h top
      | inr (p, up) ↦
          let (fd, k1, e, new) = doc.parent k child m p h.0.0 up in
          let o = parent-Opened child m p fd k k1 h new in
          let (r, compared, is, is') = ns_equal_lem k1 fd source p s o.refers o.source_open in
          elim (Bool-cases r) [
            | inl equal ↦
                let (k2, closed, gone) = close_or_exit_lem k1 fd p o.refers in
                let left : During target child m base (open_in k2) = (
                  grind (arith, gone child, o.during.0, o.not_child),
                  (λ x. grind (arith, gone x, o.during.1 x, o.unused, o.not_child)),
                  h.0.2,
                ) in
                rw
                  (
                    find_ancestor,
                    ap (λ r. r.0) e,
                    ap (λ r. r.1) e,
                    compared,
                    equal,
                    ap (λ r. r.1) e,
                    closed,
                  )
                  (m, here m, up ∙ ap some (is equal), left, h.1)
            | inr unequal ↦
                let with_fd : Descriptors = λ x. if x == fd then some p else base x in
                let target_open : with_fd target ≡ some t = grind (arith, o.not_target, ht) in
                let (k2, closed, left) =
                  close_opened_lem k1 target child m t with_fd target_open o.during h.1 in
                let now : AtChild fd p k2 = (
                  (grind (arith, left fd), left, (λ ne. o.unused)),
                  (λ same. absurd (o.not_target same)),
                ) in
                let other : p ≢ s = λ same. let e' = is' same in cc in
                let rest =
                  find_ancestor_lem turns fd p k2 now (omega (arith, tree.deeper m p up)) in
                rw
                  (
                    find_ancestor,
                    ap (λ r. r.0) e,
                    ap (λ r. r.1) e,
                    compared,
                    unequal,
                    ap (λ r. r.1) e,
                    closed,
                  )
                  (climb-Found target t m p s base _ up other rest)
          ]
    ]

    -- From the target namespace, with turns enough for its depth, the search ends without a failure. If it
    -- finds a descriptor, this refers to the target namespace or an ancestor of it, whose parent is
    -- the source namespace, and is the only new descriptor left open unless it is the target's own;
    -- if it returns -1, no ancestor has the source namespace as its parent, and the open descriptors
    -- are those of before.
    pub is_ancestor_userns_lem :
        (turns : ℕ) (k : K)
        → Same base (open_in k)
        → tree.depth t < turns
        → Found target t t s base (is_ancestor_userns os turns k source target)
    unfolding is_ancestor_userns
    is_ancestor_userns_lem turns k same fits =
        find_ancestor_lem turns target t k
          (
            (same target ∙ ht, (λ x. grind (arith, same x, ht)), (λ ne. absurd (ne refl))),
            (λ e. refl),
          )
          fits
