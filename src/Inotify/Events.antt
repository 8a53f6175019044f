-- ===== src/Inotify/Events.antt =====
-- The event handling of inotify_dtree.c.
pub mod Steps
pub mod Invariant
use my_notes.Common.{
  ℕ, ◌+◌, ◌*◌, Bool, false, ◌&&◌, ◌||◌, not, List, [], ◌∷◌, ◌++◌, Option, none, some, Bytes, ℤ,
  minus_one, eq_ℤ, is_nonneg, ltb, ◌==◌, if◌then◌else◌, get_elem?,
}
use my_notes.Inotify.Cache.{
  Cache, path_max, find_watch, mark_cache_slot_empty, pathname_in_cache, live_entries,
}
use my_notes.Inotify.World.{
  Os, Event, Stat, M, failure, aborted, undefined, ◌>>=◌, ◌>>◌, pure, halt, gets, modify, call,
}
use my_notes.Inotify.Paths.{name_max, join_path, rewrite_cached_paths}
use my_notes.Inotify.Roots.{is_root_dir_path, zap_root_dir_path}
use my_notes.Inotify.Watching.{watch_subtree, zap_subtree, reinitialize}

-- `sizeof(struct inotify_event)`
abbrev pub event_size : ℕ
event_size = 16

-- `INOTIFY_READ_BUF_LEN`
abbrev pub inotify_read_buf_len : ℕ
inotify_read_buf_len = 100 * (event_size + name_max + 1)

-- `sizeof(struct inotify_event) + ev->len`
abbrev pub ev_len : Event → ℕ
ev_len ev = event_size + ev.len

-- How the handling of an event goes on: with the bytes consumed and the events behind them in the
-- buffer, or by an early return of `INOTIFY_READ_BUF_LEN`, or by an early return of -1.
pub data Step : Type 0 where
  consumed : ℕ → List Event → Step
  discarded : Step
  hanging : Step

abbrev full_path_size : ℕ
full_path_size = path_max + name_max

module _ {K : Type 0} where
  -- What `fprintf` does with a null stream is not defined.
  pub dump_cache_to_log : M K (Unit {0})
  dump_cache_to_log = do
    has_log ← gets (λ w. w.has_log)
    if has_log
        then modify (λ w. record w { dumps = w.dumps ++ live_entries w.cache 0 ∷ [] })
        else halt undefined

  create_stop_file_and_abort : {A : Type 0} → M K A
  create_stop_file_and_abort = do dump_cache_to_log; halt aborted

  checked_slot : Option ℕ → M K (Option ℕ)
  checked_slot (some slot) = pure (some slot)
  checked_slot none = do
    abort ← gets (λ w. w.abort_on_cache_problem)
    if abort then create_stop_file_and_abort else pure none

  pub find_watch_checked : ℤ → M K (Option ℕ)
  find_watch_checked wd = do slot ← gets (λ w. find_watch w.cache wd); checked_slot slot

  -- `wlCache[slot].path`, where `slot` may not have been assigned
  path_at : Option ℕ → M K Bytes
  path_at none = halt undefined
  path_at (some slot) = do
    entry ← gets (λ w. get_elem? w.cache slot)
    elim entry [ none ↦ halt undefined | some e ↦ pure e.path ]

  clear_slot : Option ℕ → M K (Unit {0})
  clear_slot none = halt undefined
  clear_slot (some slot) = modify (λ w. record w { cache = mark_cache_slot_empty w.cache slot })

module _ {K : Type 0} (os : Os K) where
  -- `reinitialize`, and all remaining events of the buffer are discarded
  rebuild : M K Step
  rebuild = do reinitialize os false; pure discarded

  -- a directory was created, or renamed into the tree
  on_created : Option ℕ → Event → M K (Unit {0})
  on_created slot ev = do
    path ← path_at slot
    let full_path = join_path full_path_size path ev.name
    cached ← gets (λ w. pathname_in_cache w.cache full_path)
    if cached then pure tt else watch_subtree os full_path

  -- a directory was deleted
  on_deleted : Option ℕ → M K (Unit {0})
  on_deleted slot = do
    path ← path_at slot
    is_root ← gets (λ w. is_root_dir_path w.root_dir_paths path)
    (if is_root then zap_root_dir_path path else pure tt)
    clear_slot slot

  -- a rename inside the monitored trees: `next` is the matching `IN_MOVED_TO`
  on_renamed : Option ℕ → Event → Event → List Event → M K Step
  on_renamed slot ev next rest = do
    next_slot ← find_watch_checked next.wd
    elim next_slot [
      | none ↦ rebuild
      | some j ↦ do
        old_path ← path_at slot
        new_path ← path_at (some j)
        modify (λ w. record w {
          cache = rewrite_cached_paths w.cache old_path ev.name new_path next.name;
        })
        pure (consumed (ev_len ev + ev_len next) rest)
    ]

  -- a rename out of the monitored trees
  on_moved_out : Option ℕ → Event → List Event → M K Step
  on_moved_out slot ev rest = do
    path ← path_at slot
    cnt ← zap_subtree os (join_path full_path_size path ev.name)
    elim cnt [ none ↦ rebuild | some _ ↦ pure (consumed (ev_len ev) rest) ]

  -- the bytes of the buffer go on behind the event
  on_moved_from_next : Option ℕ → Event → List Event → M K Step
  on_moved_from_next slot ev [] = halt undefined
  on_moved_from_next slot ev (next ∷ rest) =
      if next.mask.moved_to && (next.cookie == ev.cookie)
      then on_renamed slot ev next rest
      else on_moved_out slot ev (next ∷ rest)

  -- `IN_MOVED_FROM` of a directory: is the next event in the buffer the matching `IN_MOVED_TO`?
  on_moved_from : Option ℕ → Event → List Event → ℕ → Bool → M K Step
  on_moved_from slot ev rest buf_size first_try =
      if ltb (ev_len ev) buf_size
      then on_moved_from_next slot ev rest
      else if first_try
      then pure hanging
      else on_moved_out slot ev rest

  on_overflow : M K Step
  on_overflow = do
    modify (λ w. record w { overflow_cnt = w.overflow_cnt + 1 })
    reinitialize os false
    pure (consumed inotify_read_buf_len [])

  -- a root directory was moved: it is not monitored any more
  on_root_moved : Option ℕ → Event → List Event → M K Step
  on_root_moved slot ev rest = do
    path ← path_at slot
    zap_root_dir_path path
    cnt ← zap_subtree os path
    elim cnt [ none ↦ rebuild | some _ ↦ pure (consumed (ev_len ev) rest) ]

  -- the last branch: `IN_MOVE_SELF` counts for a root directory only
  on_move_self : Option ℕ → Event → List Event → M K Step
  on_move_self slot ev rest = do
    path ← path_at slot
    is_root ← gets (λ w. is_root_dir_path w.root_dir_paths path)
    if is_root then on_root_moved slot ev rest else pure (consumed (ev_len ev) rest)

  -- The branches of `processNextInotifyEvent` on the mask. `slot` is `none` where the source has
  -- not assigned `evCacheSlot`.
  handle_event : Option ℕ → Event → List Event → ℕ → Bool → M K Step
  handle_event slot ev rest buf_size first_try =
      if ev.mask.isdir && (ev.mask.create || ev.mask.moved_to)
      then (do on_created slot ev; pure (consumed (ev_len ev) rest))
      else if ev.mask.delete_self
      then (do on_deleted slot; pure (consumed (ev_len ev) rest))
      else if ev.mask.moved_from && ev.mask.isdir
      then on_moved_from slot ev rest buf_size first_try
      else if ev.mask.q_overflow
      then on_overflow
      else if ev.mask.unmount
      then (do clear_slot slot; pure (consumed (ev_len ev) rest))
      else if ev.mask.move_self
      then on_move_self slot ev rest
      else pure (consumed (ev_len ev) rest)

  -- The loop of `checkCacheConsistency`. `sb` is not assigned until an `lstat` succeeds. Its
  -- `else if` belongs to the test of the slot: `sb` is read at unused slots.
  check_slots : Cache → Option Stat → M K (Unit {0})
  check_slots [] sb = pure tt
  check_slots (e ∷ c) sb =
      if is_nonneg e.wd
      then (do
        res ← call (λ k. os.lstat k e.path)
        elim res [ some st ↦ check_slots c (some st) | none ↦ check_slots c sb ])
      else elim sb [
        | none ↦ halt undefined
        | some st ↦ if st.is_dir then check_slots c (some st) else halt failure
      ]

  pub check_cache_consistency : M K (Unit {0})
  check_cache_consistency = do c ← gets (λ w. w.cache); check_slots c none

  -- the end of `processNextInotifyEvent`, which the early returns skip
  finish_event : Step → M K Step
  finish_event discarded = pure discarded
  finish_event hanging = pure hanging
  finish_event (consumed n rest) = do
    check ← gets (λ w. w.check_cache)
    (if check then check_cache_consistency else pure tt)
    dump ← gets (λ w. w.dump_cache)
    (if dump then dump_cache_to_log else pure tt)
    pure (consumed n rest)

  -- `IN_Q_OVERFLOW` has no watch, and `IN_IGNORED` comes when its cache entry is gone.
  needs_slot : Event → Bool
  needs_slot ev = not (eq_ℤ ev.wd minus_one) && not ev.mask.ignored

  -- `rest` holds the events behind `ev` in the buffer, of which `buf_size` bytes are left.
  pub process_next_inotify_event : Event → List Event → ℕ → Bool → M K Step
  process_next_inotify_event ev rest buf_size first_try =
      if needs_slot ev
      then (do
        slot ← find_watch_checked ev.wd
        elim slot [
          | none ↦ rebuild
          | some j ↦ do s ← handle_event (some j) ev rest buf_size first_try; finish_event s
        ])
      else (do s ← handle_event none ev rest buf_size first_try; finish_event s)
