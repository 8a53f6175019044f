-- ===== src/Inotify/Cache/Lookup.antt =====
-- The watch list cache as a finite map from watch descriptors to pathnames.
use my_notes.Common.{
  ℕ, zero, suc, ◌+◌, ◌≡◌, ◌≢◌, inl, inr, refl, sym, ap, ◌∙◌, Bool, true, Bool-cases, Option, none,
  some, [], ◌∷◌, ◌++◌, Bytes, ℤ, minus_one, eq_ℤ, eq_ℤ_iff, is_nonneg, if◌then◌else◌, length,
  get_elem?, set, take, replicate, All-get_elem?, All-append, arith,
}
use mathlib.Core.Path.{subst}
use my_notes.Inotify.Cache.{
  Cache, Watch, path_max, first_slot, find_watch, empty_slot, mark_cache_slot_empty, alloc_incr,
  find_empty_cache_slot, add_watch_to_cache,
}
use my_notes.Inotify.Cache.WellFormed.{
  Absent, Distinct, IsWellFormed, find_watch-none, All-replicate, Absent_empty,
}

-- The pathname that the cache holds for a watch descriptor.
abbrev pub path_of : Cache → ℤ → Option Bytes
path_of [] wd = none
path_of (w ∷ c) wd = if eq_ℤ w.wd wd then some w.path else path_of c wd

pub first_slot-some :
    (p : Watch → Bool) (c : Cache) (j s : ℕ)
    → first_slot p c j ≡ some s
    → (i : ℕ) × (e : Watch) × (s ≡ j + i) × (get_elem? c i ≡ some e) × (p e ≡ true)
unfolding first_slot
first_slot-some p [] j s h = cc
first_slot-some p (w ∷ c) j s h = elim (Bool-cases (p w)) [
  | inl e ↦ (0, w, ground arith, refl, e)
  | inr e ↦
      let (i, v, eq, at, pv) = first_slot-some p c (suc j) s (ground arith) in
      (suc i, v, omega arith, at, pv)
]

pub first_slot_at :
    (p : Watch → Bool) (c : Cache) (s : ℕ)
    → first_slot p c 0 ≡ some s
    → (e : Watch) × (get_elem? c s ≡ some e) × (p e ≡ true)
first_slot_at p c s h =
    let (i, e, eq, at, pe) = first_slot-some p c 0 s h in
    let same : s ≡ i = omega arith in (e, subst (λ k. get_elem? c k ≡ some e) (sym same) at, pe)

pub path_of-Absent : (c : Cache) (wd : ℤ) → Absent wd c → path_of c wd ≡ none
path_of-Absent [] wd a = refl
path_of-Absent (w ∷ c) wd a = ground (arith, eq_ℤ_iff w.wd wd, path_of-Absent c wd a.1)

path_of_at :
    (c : Cache) (i : ℕ) (e : Watch)
    → Distinct c
    → is_nonneg e.wd ≡ true
    → get_elem? c i ≡ some e
    → path_of c e.wd ≡ some e.path
path_of_at [] i e d h at = cc
path_of_at (w ∷ c) zero e d h at = ground (arith, eq_ℤ_iff w.wd e.wd)
path_of_at (w ∷ c) (suc i) e d h at = elim (Bool-cases (eq_ℤ w.wd e.wd)) [
  | inl same ↦
      let eq : w.wd ≡ e.wd = (eq_ℤ_iff w.wd e.wd).0 same in
      absurd (All-get_elem? (λ v. v.wd ≢ w.wd) c i (d.0 (rw eq h)) at (sym eq))
  | inr differ ↦ rw differ (path_of_at c i e d.1 h at)
]

-- `findWatch` gives a slot that holds the descriptor, and its path is the one of the map; it gives
-- -1 only if no slot holds the descriptor.
abbrev pub Finds : Cache → ℤ → Option ℕ → Type 0
Finds c wd none = Absent wd c
Finds c wd (some j) =
    (e : Watch) × (get_elem? c j ≡ some e) × (e.wd ≡ wd) × (path_of c wd ≡ some e.path)

pub find_watch_lem :
    (c : Cache) (wd : ℤ) → IsWellFormed c → is_nonneg wd ≡ true → Finds c wd (find_watch c wd)
unfolding find_watch
find_watch_lem c wd f h = go (first_slot (λ w. eq_ℤ w.wd wd) c 0) refl
  where
    go : (o : Option ℕ) → first_slot (λ w. eq_ℤ w.wd wd) c 0 ≡ o → Finds c wd o
    go none e = find_watch-none c wd e
    go (some j) e =
        let (v, at, p) = first_slot_at (λ w. eq_ℤ w.wd wd) c j e in
        let same : v.wd ≡ wd = (eq_ℤ_iff v.wd wd).0 p in
        (
          v,
          at,
          same,
          subst (λ x. path_of c x ≡ some v.path) same (path_of_at c j v f.distinct (rw same h) at),
        )

-- Writing a new watch into an unused slot.
path_of-set_unused :
    (c : Cache) (i : ℕ) (e v : Watch) (wd : ℤ)
    → get_elem? c i ≡ some e
    → e.wd ≡ minus_one
    → is_nonneg wd ≡ true
    → Absent v.wd c
    → path_of (set c i v) wd ≡ (if eq_ℤ v.wd wd then some v.path else path_of c wd)
path_of-set_unused [] i e v wd at u h a = cc
path_of-set_unused (w ∷ c) zero e v wd at u h a = ground (arith, eq_ℤ_iff w.wd wd, eq_ℤ_iff v.wd wd)
path_of-set_unused (w ∷ c) (suc i) e v wd at u h a =
    ground (arith, eq_ℤ_iff w.wd wd, eq_ℤ_iff v.wd wd, path_of-set_unused c i e v wd at u h a.1)

-- Clearing the slot of a watch.
path_of-set_empty :
    (c : Cache) (i : ℕ) (e : Watch) (wd : ℤ)
    → get_elem? c i ≡ some e
    → is_nonneg e.wd ≡ true
    → Distinct c
    → is_nonneg wd ≡ true
    → path_of (set c i empty_slot) wd ≡ (if eq_ℤ e.wd wd then none else path_of c wd)
path_of-set_empty [] i e wd at n d h = cc
path_of-set_empty (w ∷ c) zero e wd at n d h = elim (Bool-cases (eq_ℤ w.wd wd)) [
  | inl s ↦
      let q : w.wd ≡ wd = (eq_ℤ_iff w.wd wd).0 s in
      ground (arith, path_of-Absent c wd (subst (λ x. Absent x c) q (d.0 (rw q h))))
  | inr s ↦ ground arith
]
path_of-set_empty (w ∷ c) (suc i) e wd at n d h = elim (Bool-cases (eq_ℤ w.wd wd)) [
  | inl s ↦
      let q : w.wd ≡ wd = (eq_ℤ_iff w.wd wd).0 s in
      ground (arith, eq_ℤ_iff e.wd wd, q, All-get_elem? (λ v. v.wd ≢ w.wd) c i (d.0 (rw q h)) at)
  | inr s ↦ ground (arith, path_of-set_empty c i e wd at n d.1 h)
]

-- Marking the slot of a watch unused deletes its descriptor from the map, and nothing else.
pub path_of-mark_cache_slot_empty :
    (c : Cache) (wd wd' : ℤ) (slot : ℕ)
    → IsWellFormed c
    → is_nonneg wd ≡ true
    → is_nonneg wd' ≡ true
    → find_watch c wd ≡ some slot
    → path_of (mark_cache_slot_empty c slot) wd' ≡ (if eq_ℤ wd wd' then none else path_of c wd')
unfolding mark_cache_slot_empty find_watch
path_of-mark_cache_slot_empty c wd wd' slot f h h' found =
    let (e, at, p) = first_slot_at (λ w. eq_ℤ w.wd wd) c slot found in
    let same : e.wd ≡ wd = (eq_ℤ_iff e.wd wd).0 p in
    subst (λ x. path_of (set c slot empty_slot) wd' ≡ (if eq_ℤ x wd' then none else path_of c wd'))
      same (path_of-set_empty c slot e wd' at (rw same h) f.distinct h')

path_of-grow :
    (c : Cache) (n : ℕ) (wd : ℤ)
    → is_nonneg wd ≡ true
    → path_of (c ++ replicate n empty_slot) wd ≡ path_of c wd
path_of-grow [] zero wd h = refl
path_of-grow [] (suc n) wd h = ground (arith, path_of-grow [] n wd h)
path_of-grow (w ∷ c) n wd h = ground (arith, path_of-grow c n wd h)

get_elem?-grow :
    (c : Cache) (n : ℕ) → get_elem? (c ++ replicate (suc n) empty_slot) (length c) ≡ some empty_slot
get_elem?-grow [] n = refl
get_elem?-grow (w ∷ c) n = get_elem?-grow c n

-- What `findEmptyCacheSlot` promises of its result: a slot of the cache that is unused, in a cache
-- that maps descriptors as before.
pub record IsFree (c : Cache) (r : ℕ × Cache) : Type 0 where
  pub slot_unused : (e : Watch) × (get_elem? r.1 r.0 ≡ some e) × (e.wd ≡ minus_one)
  pub same_paths : (wd : ℤ) → is_nonneg wd ≡ true → path_of r.1 wd ≡ path_of c wd
  pub same_absent : (wd : ℤ) → is_nonneg wd ≡ true → Absent wd c → Absent wd r.1

pub find_empty_cache_slot-IsFree : (c : Cache) → IsFree c (find_empty_cache_slot c)
unfolding find_empty_cache_slot
find_empty_cache_slot-IsFree c = go (first_slot (λ w. eq_ℤ w.wd minus_one) c 0) refl
  where
    go :
        (o : Option ℕ)
        → first_slot (λ w. eq_ℤ w.wd minus_one) c 0 ≡ o
        → IsFree c (elim o as (λ _. ℕ × Cache) [
          | some j ↦ (j, c)
          | none ↦ (length c, c ++ replicate alloc_incr empty_slot)
        ])
    go (some j) found =
        let (e, at, p) = first_slot_at (λ w. eq_ℤ w.wd minus_one) c j found in
        record {
          slot_unused = (e, at, (eq_ℤ_iff e.wd minus_one).0 p);
          same_paths = λ wd h. refl;
          same_absent = λ wd h a. a;
        }
    go none found = record {
      slot_unused = (empty_slot, get_elem?-grow c 199, refl);
      same_paths = λ wd h. path_of-grow c alloc_incr wd h;
      same_absent = λ wd h a.
          All-append (λ e. e.wd ≢ wd) c _ a
            (All-replicate (λ e. e.wd ≢ wd) alloc_incr empty_slot (Absent_empty wd h));
    }

-- Adding a watch whose descriptor is new inserts it into the map, with its path cut at `PATH_MAX`,
-- and changes nothing else.
pub path_of-add_watch_to_cache :
    (c : Cache) (wd wd' : ℤ) (pathname : Bytes)
    → is_nonneg wd ≡ true
    → is_nonneg wd' ≡ true
    → find_watch c wd ≡ none
    → path_of (add_watch_to_cache c wd pathname).1 wd'
      ≡ (if eq_ℤ wd wd' then some (take path_max pathname) else path_of c wd')
unfolding add_watch_to_cache
path_of-add_watch_to_cache c wd wd' pathname h h' missing =
    let free = find_empty_cache_slot-IsFree c in
    let (e, at, unused) = free.slot_unused in
    let slot = (find_empty_cache_slot c).0 in
    let c' = (find_empty_cache_slot c).1 in
    let new : Watch = record { wd = wd; path = take path_max pathname } in
    path_of-set_unused c' slot e new wd' at unused h'
      (free.same_absent wd h (find_watch-none c wd missing))
    ∙ ap (λ o. if eq_ℤ wd wd' then some (take path_max pathname) else o) (free.same_paths wd' h')
