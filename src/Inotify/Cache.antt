-- ===== src/Inotify/Cache.antt =====
-- The watch list cache of inotify_dtree.c: an array of slots that is searched linearly.
pub mod WellFormed
pub mod Lookup
use my_notes.Common.{
  ℕ, suc, Bool, true, false, ◌&&◌, Option, none, some, List, [], ◌∷◌, ◌++◌, Bytes, ℤ, minus_one,
  eq_ℤ, is_nonneg, str_eq, is_some, if◌then◌else◌, length, set, take, replicate,
}

-- `PATH_MAX` of the build's <limits.h> on Linux
abbrev pub path_max : ℕ
path_max = 4096

-- `struct watch`; `path` is the text up to the NUL, or the whole array if it holds none.
pub record Watch : Type 0 where
  pub wd : ℤ
  pub path : Bytes

-- `wlCache`, whose length is `cacheSize`
abbrev pub Cache : Type 0
Cache = List Watch

-- The first slot that passes the test, counted from `j`; `none` is the return value -1.
unfoldable pub first_slot : (Watch → Bool) → Cache → ℕ → Option ℕ
first_slot p [] j = none
first_slot p (w ∷ c) j = let rest = first_slot p c (suc j) in if p w then some j else rest

unfoldable pub find_watch : Cache → ℤ → Option ℕ
find_watch c wd = first_slot (λ w. eq_ℤ w.wd wd) c 0

abbrev pub empty_slot : Watch
empty_slot = record { wd = minus_one; path = [] }

pub mark_cache_slot_empty : Cache → ℕ → Cache
mark_cache_slot_empty c slot = set c slot empty_slot

abbrev pub alloc_incr : ℕ
alloc_incr = 200

-- The slot, and the cache after a possible `realloc`, whose failure is not modelled.
pub find_empty_cache_slot : Cache → ℕ × Cache
find_empty_cache_slot c = elim (first_slot (λ w. eq_ℤ w.wd minus_one) c 0) [
  | some j ↦ (j, c)
  | none ↦ (length c, c ++ replicate alloc_incr empty_slot)
]

-- `strncpy` copies at most `PATH_MAX` bytes.
pub add_watch_to_cache : Cache → ℤ → Bytes → ℕ × Cache
add_watch_to_cache c wd pathname =
    let (slot, c') = find_empty_cache_slot c in
    (slot, set c' slot (record { wd = wd; path = take path_max pathname }))

pub pathname_to_cache_slot : Cache → Bytes → Option ℕ
pathname_to_cache_slot c pathname = first_slot (λ w. is_nonneg w.wd && str_eq w.path pathname) c 0

pub pathname_in_cache : Cache → Bytes → Bool
pathname_in_cache c pathname = is_some (pathname_to_cache_slot c pathname)

-- The slots that hold a watch, with their numbers counted from `j`: what is listed and dumped.
unfoldable pub live_entries : Cache → ℕ → List (ℕ × Watch)
live_entries [] j = []
live_entries (w ∷ c) j =
    let rest = live_entries c (suc j) in if is_nonneg w.wd then (j, w) ∷ rest else rest
