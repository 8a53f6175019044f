-- ===== src/Inotify/Cache/WellFormed.antt =====
-- The invariant of the watch list cache, and the operations of Cache.antt that keep it.
use my_notes.Common.{
  ℕ, zero, suc, ◌≤◌, ◌≡◌, ◌≢◌, ◌⊎◌, inl, inr, refl, sym, Bool, true, false, Option, none, some, [],
  ◌∷◌, ◌++◌, Bytes, ℤ, minus_one, eq_ℤ, eq_ℤ_iff, is_nonneg, length, set, take, replicate,
  length-take_le, All, All-append, arith,
}
use my_notes.Inotify.Cache.{
  Cache, Watch, path_max, first_slot, find_watch, empty_slot, mark_cache_slot_empty, alloc_incr,
  find_empty_cache_slot, add_watch_to_cache,
}

-- An unused slot is blank, and the path of a live one fits its array.
abbrev pub IsEntry : Watch → Type 0
IsEntry w =
    ((w.wd ≡ minus_one) × (w.path ≡ [])) ⊎ ((is_nonneg w.wd ≡ true) × (length w.path ≤ path_max))

abbrev pub Absent : ℤ → Cache → Type 0
Absent wd c = All (λ e. e.wd ≢ wd) c

-- No two live slots have one watch descriptor.
abbrev pub Distinct : Cache → Type 0
Distinct [] = Unit
Distinct (w ∷ c) = (is_nonneg w.wd ≡ true → Absent w.wd c) × Distinct c

pub record IsWellFormed (c : Cache) : Type 0 where
  pub entries : All IsEntry c
  pub distinct : Distinct c

pub first_slot-none :
    (p : Watch → Bool) (c : Cache) (j : ℕ) → first_slot p c j ≡ none → All (λ w. p w ≡ false) c
unfolding first_slot
first_slot-none p [] j h = tt
first_slot-none p (w ∷ c) j h = (ground arith, first_slot-none p c (suc j) (ground arith))

pub find_watch-none : (c : Cache) (wd : ℤ) → find_watch c wd ≡ none → Absent wd c
unfolding find_watch
find_watch-none c wd h = differ c (first_slot-none (λ w. eq_ℤ w.wd wd) c 0 h)
  where
    differ : (c : Cache) → All (λ w. eq_ℤ w.wd wd ≡ false) c → Absent wd c
    differ [] h = tt
    differ (w ∷ c) h = (ground (arith, eq_ℤ_iff w.wd wd), differ c h.1)

module _ (P : Watch → Type 0) where
  pub All-set : (c : Cache) (i : ℕ) (v : Watch) → All P c → P v → All P (set c i v)
  All-set [] i v h p = tt
  All-set (w ∷ c) zero v h p = (p, h.1)
  All-set (w ∷ c) (suc i) v h p = (h.0, All-set c i v h.1 p)

  pub All-replicate : (n : ℕ) (v : Watch) → P v → All P (replicate n v)
  All-replicate zero v p = tt
  All-replicate (suc n) v p = (p, All-replicate n v p)

pub Absent_empty : (wd : ℤ) → is_nonneg wd ≡ true → minus_one ≢ wd
Absent_empty wd h = ground arith

Distinct-set :
    (c : Cache) (i : ℕ) (v : Watch)
    → Distinct c
    → (is_nonneg v.wd ≡ true → Absent v.wd c)
    → Distinct (set c i v)
Distinct-set [] i v d a = tt
Distinct-set (w ∷ c) zero v d a = (λ h. (a h).1, d.1)
Distinct-set (w ∷ c) (suc i) v d a = (
  λ h. All-set (λ e. e.wd ≢ w.wd) c i v (d.0 h) (λ e. (a (cc)).0 (sym e)),
  Distinct-set c i v d.1 (λ h. (a h).1),
)

Distinct-replicate : (n : ℕ) → Distinct (replicate n empty_slot)
Distinct-replicate zero = tt
Distinct-replicate (suc n) = (λ h. absurd (ground arith), Distinct-replicate n)

Distinct-grow : (c : Cache) (n : ℕ) → Distinct c → Distinct (c ++ replicate n empty_slot)
Distinct-grow [] n d = Distinct-replicate n
Distinct-grow (w ∷ c) n d = (
  λ h.
      All-append (λ e. e.wd ≢ w.wd) c _ (d.0 h)
        (All-replicate (λ e. e.wd ≢ w.wd) n empty_slot (Absent_empty w.wd h)),
  Distinct-grow c n d.1,
)

IsWellFormed-set :
    (c : Cache) (i : ℕ) (v : Watch)
    → IsWellFormed c
    → IsEntry v
    → (is_nonneg v.wd ≡ true → Absent v.wd c)
    → IsWellFormed (set c i v)
IsWellFormed-set c i v f e a = record {
  entries = All-set IsEntry c i v f.entries e;
  distinct = Distinct-set c i v f.distinct a;
}

IsWellFormed-grow :
    (c : Cache) (n : ℕ) → IsWellFormed c → IsWellFormed (c ++ replicate n empty_slot)
IsWellFormed-grow c n f = record {
  entries =
      All-append IsEntry c _ f.entries (All-replicate IsEntry n empty_slot (inl (refl, refl)));
  distinct = Distinct-grow c n f.distinct;
}

pub mark_cache_slot_empty-IsWellFormed :
    (c : Cache) (slot : ℕ) → IsWellFormed c → IsWellFormed (mark_cache_slot_empty c slot)
unfolding mark_cache_slot_empty
mark_cache_slot_empty-IsWellFormed c slot f =
    IsWellFormed-set c slot empty_slot f (inl (refl, refl)) (λ h. absurd (ground arith))

-- Adding a watch keeps the invariant, if its descriptor is not in the cache.
pub add_watch_to_cache-IsWellFormed :
    (c : Cache) (wd : ℤ) (pathname : Bytes)
    → IsWellFormed c
    → is_nonneg wd ≡ true
    → find_watch c wd ≡ none
    → IsWellFormed (add_watch_to_cache c wd pathname).1
unfolding add_watch_to_cache find_empty_cache_slot
add_watch_to_cache-IsWellFormed c wd pathname f h missing =
    go (first_slot (λ w. eq_ℤ w.wd minus_one) c 0)
  where
    new : Watch
    new = record { wd = wd; path = take path_max pathname }

    new-IsEntry : IsEntry new
    new-IsEntry = inr (h, length-take_le path_max pathname)

    absent : Absent wd c
    absent = find_watch-none c wd missing

    go :
        (o : Option ℕ)
        → IsWellFormed (
            let (slot, c') = (elim o as (λ _. ℕ × Cache) [
              | some j ↦ (j, c)
              | none ↦ (length c, c ++ replicate alloc_incr empty_slot)
            ]) in
            set c' slot new)
    go (some j) = IsWellFormed-set c j new f new-IsEntry (λ _. absent)
    go none = IsWellFormed-set _ (length c) new (IsWellFormed-grow c alloc_incr f) new-IsEntry (λ _.
        All-append (λ e. e.wd ≢ wd) c _ absent
          (All-replicate (λ e. e.wd ≢ wd) alloc_incr empty_slot (Absent_empty wd h)))
