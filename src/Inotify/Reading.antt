-- ===== src/Inotify/Reading.antt =====
-- `processInotifyEvents` of inotify_dtree.c: reading a buffer of events and going through it.
pub mod Invariant
pub mod Termination
use mathlib.Core.List.{head?, tail}
use my_notes.Common.{
  ℕ, zero, suc, ◌+◌, ◌-◌, ◌*◌, Bool, true, false, List, [], ◌∷◌, ◌++◌, Option, none, some, length,
}
use my_notes.Inotify.World.{
  Os, Event, ReadResult, bytes, interrupted, failed, at_end, M, failure, undefined, blocked, ◌>>=◌,
  ◌>>◌, pure, halt, modify,
}
use my_notes.Inotify.Events.{consumed, discarded, hanging, process_next_inotify_event}

-- How the loop over a buffer ends; `out_of_fuel` is an artefact of the model.
pub data Progress : Type 0 where
  finished : Progress
  out_of_fuel : Progress

-- the number of events that the given results of `read` bring
abbrev pub event_count : List ReadResult → ℕ
event_count [] = 0
event_count (bytes nr evs ∷ reads) = length evs + event_count reads
event_count (interrupted ∷ reads) = event_count reads
event_count (failed ∷ reads) = event_count reads
event_count (at_end ∷ reads) = event_count reads

module _ {K : Type 0} where
  count_read : M K (Unit {0})
  count_read = modify (λ w. record w { inotify_read_cnt = w.inotify_read_cnt + 1 })

  -- The contents and size of the buffer after the timed `read` for what follows a hanging event.
  -- When the alarm comes first the result is -1, and the source adds it to `numRead`: its test for
  -- this case is made on `errno`, which is not -1.
  append_read : List Event → ℕ → Option ReadResult → M K (List Event × ℕ)
  append_read evs num_read none = do count_read; pure (evs, num_read - 1)
  append_read evs num_read (some (bytes nr more)) = do count_read; pure (evs ++ more, num_read + nr)
  append_read evs num_read (some interrupted) = do count_read; pure (evs, num_read - 1)
  append_read evs num_read (some failed) = halt failure
  append_read evs num_read (some at_end) = halt failure

module _ {K : Type 0} (os : Os K) where
  -- The loop over the buffer: `reads` are the results of the coming calls of `read`, `evs` the events
  -- from `evp` on, `num_read` the bytes.
  process_buffer : ℕ → List ReadResult → List Event → ℕ → Bool → M K Progress
  process_buffer zero reads evs num_read first_try = pure out_of_fuel
  process_buffer (suc fuel) reads evs zero first_try = pure finished
  process_buffer (suc fuel) reads [] (suc n) first_try = halt undefined
  process_buffer (suc fuel) reads (ev ∷ rest) (suc n) first_try = do
    s ← process_next_inotify_event os ev rest (suc n) first_try
    elim s [
      | consumed k evs ↦ process_buffer fuel reads evs (suc n - k) true
      | discarded ↦ pure finished
      | hanging ↦ do
        more ← append_read (ev ∷ rest) (suc n) (head? reads)
        process_buffer fuel (tail reads) more.0 more.1 false
    ]

  -- Every event is handled at most twice.
  pub process_inotify_events : List ReadResult → M K Progress
  process_inotify_events [] = halt blocked
  process_inotify_events (bytes nr evs ∷ reads) = do
    count_read
    process_buffer (2 * (length evs + event_count reads) + 2) reads evs nr true
  process_inotify_events (interrupted ∷ reads) = halt failure
  process_inotify_events (failed ∷ reads) = halt failure
  process_inotify_events (at_end ∷ reads) = halt failure
