-- ===== src/Inotify/Events/Invariant.antt =====
-- Handling an event keeps the variables consistent, whatever the event is.
use my_notes.Common.{ℕ, refl, Bool, false, List, [], ◌∷◌, Option, none, some, ℤ}
use my_notes.Inotify.Cache.{Cache}
use my_notes.Inotify.Cache.WellFormed.{mark_cache_slot_empty-IsWellFormed}
use my_notes.Inotify.World.{Os, Event, Stat, aborted, failure, undefined}
use my_notes.Inotify.World.Keeps.{
  IsDocumented, Keeps, Keeps-bind, Keeps-if, Keeps-elim, Keeps-frame, Keeps-modify, Keeps-gets,
  Keeps-call, Keeps-halt, Keeps-pure,
}
use my_notes.Inotify.Paths.Renaming.{rewrite_cached_paths-IsWellFormed}
use my_notes.Inotify.Roots.Zapping.{zap_root_dir_path-Keeps}
use my_notes.Inotify.Watching.Invariant.{watch_subtree-Keeps, zap_subtree-Keeps, reinitialize-Keeps}
use my_notes.Inotify.Events.{
  Step, consumed, discarded, hanging, dump_cache_to_log, create_stop_file_and_abort, checked_slot,
  find_watch_checked, path_at, clear_slot, rebuild, on_created, on_deleted, on_renamed,
  on_moved_out, on_moved_from_next, on_moved_from, on_overflow, on_root_moved, on_move_self,
  handle_event, check_slots, check_cache_consistency, finish_event, process_next_inotify_event,
}

module _ {K : Type 0} where
  pub dump_cache_to_log-Keeps : Keeps {K = K} dump_cache_to_log
  unfolding dump_cache_to_log
  dump_cache_to_log-Keeps = Keeps-bind _ _ (Keeps-gets _) (λ has_log.
      Keeps-if has_log _ _ (Keeps-frame _ (λ w. (refl, refl, refl))) (Keeps-halt undefined))

  create_stop_file_and_abort-Keeps : {A : Type 0} → Keeps {K = K} {A = A} create_stop_file_and_abort
  unfolding create_stop_file_and_abort
  create_stop_file_and_abort-Keeps =
      Keeps-bind _ _ dump_cache_to_log-Keeps (λ _. Keeps-halt aborted)

  checked_slot-Keeps : (o : Option ℕ) → Keeps {K = K} (checked_slot o)
  unfolding checked_slot
  checked_slot-Keeps (some slot) = Keeps-pure (some slot)
  checked_slot-Keeps none =
      Keeps-bind _ _ (Keeps-gets _)
        (λ abort. Keeps-if abort _ _ create_stop_file_and_abort-Keeps (Keeps-pure none))

  find_watch_checked-Keeps : (wd : ℤ) → Keeps {K = K} (find_watch_checked wd)
  unfolding find_watch_checked
  find_watch_checked-Keeps wd = Keeps-bind _ _ (Keeps-gets _) checked_slot-Keeps

  path_at-Keeps : (slot : Option ℕ) → Keeps {K = K} (path_at slot)
  unfolding path_at
  path_at-Keeps none = Keeps-halt undefined
  path_at-Keeps (some slot) =
      Keeps-bind _ _ (Keeps-gets _)
        (λ e. Keeps-elim e _ _ (Keeps-halt undefined) (λ e. Keeps-pure _))

  clear_slot-Keeps : (slot : Option ℕ) → Keeps {K = K} (clear_slot slot)
  unfolding clear_slot
  clear_slot-Keeps none = Keeps-halt undefined
  clear_slot-Keeps (some slot) = Keeps-modify _ (λ w g. record {
    well_formed = mark_cache_slot_empty-IsWellFormed w.cache slot g.well_formed;
    ignored = g.ignored;
  })

module _ {K : Type 0} (os : Os K) (doc : IsDocumented os) where
  rebuild-Keeps : Keeps (rebuild os)
  unfolding rebuild
  rebuild-Keeps = Keeps-bind _ _ (reinitialize-Keeps os doc false) (λ _. Keeps-pure discarded)

  on_created-Keeps : (slot : Option ℕ) (ev : Event) → Keeps (on_created os slot ev)
  unfolding on_created
  on_created-Keeps slot ev = Keeps-bind _ _ (path_at-Keeps slot) (λ path.
      Keeps-bind _ _ (Keeps-gets _)
        (λ cached. Keeps-if cached _ _ (Keeps-pure tt) (watch_subtree-Keeps os doc _)))

  on_deleted-Keeps : (slot : Option ℕ) → Keeps (on_deleted os slot)
  unfolding on_deleted
  on_deleted-Keeps slot = Keeps-bind _ _ (path_at-Keeps slot) (λ path.
      Keeps-bind _ _ (Keeps-gets _) (λ is_root.
        Keeps-bind _ _ (Keeps-if is_root _ _ (zap_root_dir_path-Keeps path) (Keeps-pure tt))
          (λ _. clear_slot-Keeps slot)))

  on_renamed-Keeps :
      (slot : Option ℕ) (ev next : Event) (rest : List Event)
      → Keeps (on_renamed os slot ev next rest)
  unfolding on_renamed
  on_renamed-Keeps slot ev next rest =
      Keeps-bind _ _ (find_watch_checked-Keeps next.wd) (λ next_slot.
        Keeps-elim next_slot _ _ rebuild-Keeps (λ j.
          Keeps-bind _ _ (path_at-Keeps slot) (λ old_path.
            Keeps-bind _ _ (path_at-Keeps (some j)) (λ new_path.
              Keeps-bind _ _
                (Keeps-modify _ (λ w g. record {
                  well_formed =
                      rewrite_cached_paths-IsWellFormed w.cache old_path ev.name new_path next.name
                        g.well_formed;
                  ignored = g.ignored;
                }))
                (λ _. Keeps-pure _)))))

  on_moved_out-Keeps :
      (slot : Option ℕ) (ev : Event) (rest : List Event) → Keeps (on_moved_out os slot ev rest)
  unfolding on_moved_out
  on_moved_out-Keeps slot ev rest = Keeps-bind _ _ (path_at-Keeps slot) (λ path.
      Keeps-bind _ _ (zap_subtree-Keeps os doc _)
        (λ cnt. Keeps-elim cnt _ _ rebuild-Keeps (λ _. Keeps-pure _)))

  on_moved_from_next-Keeps :
      (slot : Option ℕ) (ev : Event) (rest : List Event)
      → Keeps (on_moved_from_next os slot ev rest)
  unfolding on_moved_from_next
  on_moved_from_next-Keeps slot ev [] = Keeps-halt undefined
  on_moved_from_next-Keeps slot ev (next ∷ rest) =
      Keeps-if _ _ _ (on_renamed-Keeps slot ev next rest) (on_moved_out-Keeps slot ev (next ∷ rest))

  on_moved_from-Keeps :
      (slot : Option ℕ) (ev : Event) (rest : List Event) (buf_size : ℕ) (first_try : Bool)
      → Keeps (on_moved_from os slot ev rest buf_size first_try)
  unfolding on_moved_from
  on_moved_from-Keeps slot ev rest buf_size first_try =
      Keeps-if _ _ _ (on_moved_from_next-Keeps slot ev rest)
        (Keeps-if first_try _ _ (Keeps-pure hanging) (on_moved_out-Keeps slot ev rest))

  on_overflow-Keeps : Keeps (on_overflow os)
  unfolding on_overflow
  on_overflow-Keeps =
      Keeps-bind _ _ (Keeps-frame _ (λ w. (refl, refl, refl)))
        (λ _. Keeps-bind _ _ (reinitialize-Keeps os doc false) (λ _. Keeps-pure _))

  on_root_moved-Keeps :
      (slot : Option ℕ) (ev : Event) (rest : List Event) → Keeps (on_root_moved os slot ev rest)
  unfolding on_root_moved
  on_root_moved-Keeps slot ev rest = Keeps-bind _ _ (path_at-Keeps slot) (λ path.
      Keeps-bind _ _ (zap_root_dir_path-Keeps path) (λ _.
        Keeps-bind _ _ (zap_subtree-Keeps os doc path)
          (λ cnt. Keeps-elim cnt _ _ rebuild-Keeps (λ _. Keeps-pure _))))

  on_move_self-Keeps :
      (slot : Option ℕ) (ev : Event) (rest : List Event) → Keeps (on_move_self os slot ev rest)
  unfolding on_move_self
  on_move_self-Keeps slot ev rest = Keeps-bind _ _ (path_at-Keeps slot) (λ path.
      Keeps-bind _ _ (Keeps-gets _)
        (λ is_root. Keeps-if is_root _ _ (on_root_moved-Keeps slot ev rest) (Keeps-pure _)))

  handle_event-Keeps :
      (slot : Option ℕ) (ev : Event) (rest : List Event) (buf_size : ℕ) (first_try : Bool)
      → Keeps (handle_event os slot ev rest buf_size first_try)
  unfolding handle_event
  handle_event-Keeps slot ev rest buf_size first_try =
      Keeps-if _ _ _ (Keeps-bind _ _ (on_created-Keeps slot ev) (λ _. Keeps-pure _)) (
        Keeps-if _ _ _ (Keeps-bind _ _ (on_deleted-Keeps slot) (λ _. Keeps-pure _)) (
          Keeps-if _ _ _ (on_moved_from-Keeps slot ev rest buf_size first_try) (
            Keeps-if _ _ _ on_overflow-Keeps (
              Keeps-if _ _ _ (Keeps-bind _ _ (clear_slot-Keeps slot) (λ _. Keeps-pure _))
                (Keeps-if _ _ _ (on_move_self-Keeps slot ev rest) (Keeps-pure _))))))

  check_slots-Keeps : (c : Cache) (sb : Option Stat) → Keeps (check_slots os c sb)
  unfolding check_slots
  check_slots-Keeps [] sb = Keeps-pure tt
  check_slots-Keeps (e ∷ c) sb =
      Keeps-if _ _ _
        (Keeps-bind _ _ (Keeps-call _) (λ res.
          Keeps-elim res _ _ (check_slots-Keeps c sb) (λ st. check_slots-Keeps c (some st))))
        (Keeps-elim sb _ _ (Keeps-halt undefined)
          (λ st. Keeps-if _ _ _ (check_slots-Keeps c (some st)) (Keeps-halt failure)))

  pub check_cache_consistency-Keeps : Keeps (check_cache_consistency os)
  unfolding check_cache_consistency
  check_cache_consistency-Keeps = Keeps-bind _ _ (Keeps-gets _) (λ c. check_slots-Keeps c none)

  finish_event-Keeps : (s : Step) → Keeps (finish_event os s)
  unfolding finish_event
  finish_event-Keeps discarded = Keeps-pure discarded
  finish_event-Keeps hanging = Keeps-pure hanging
  finish_event-Keeps (consumed n rest) = Keeps-bind _ _ (Keeps-gets _) (λ check.
      Keeps-bind _ _ (Keeps-if check _ _ check_cache_consistency-Keeps (Keeps-pure tt)) (λ _.
        Keeps-bind _ _ (Keeps-gets _) (λ dump.
          Keeps-bind _ _ (Keeps-if dump _ _ dump_cache_to_log-Keeps (Keeps-pure tt))
            (λ _. Keeps-pure _))))

  pub process_next_inotify_event-Keeps :
      (ev : Event) (rest : List Event) (buf_size : ℕ) (first_try : Bool)
      → Keeps (process_next_inotify_event os ev rest buf_size first_try)
  unfolding process_next_inotify_event
  process_next_inotify_event-Keeps ev rest buf_size first_try =
      Keeps-if _ _ _
        (Keeps-bind _ _ (find_watch_checked-Keeps ev.wd) (λ slot.
          Keeps-elim slot _ _ rebuild-Keeps (λ j.
            Keeps-bind _ _ (handle_event-Keeps (some j) ev rest buf_size first_try)
              finish_event-Keeps)))
        (Keeps-bind _ _ (handle_event-Keeps none ev rest buf_size first_try) finish_event-Keeps)
