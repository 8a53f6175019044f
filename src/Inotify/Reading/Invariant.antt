-- ===== src/Inotify/Reading/Invariant.antt =====
-- Reading and processing a buffer of events keeps the variables consistent.
use my_notes.Common.{ℕ, zero, suc, ◌-◌, refl, Bool, true, false, List, [], ◌∷◌, Option, none, some}
use my_notes.Inotify.World.{
  Os, Event, ReadResult, bytes, interrupted, failed, at_end, M, failure, undefined, blocked,
}
use my_notes.Inotify.World.Keeps.{
  IsDocumented, Keeps, Keeps-bind, Keeps-frame, Keeps-halt, Keeps-pure,
}
use my_notes.Inotify.Events.{Step, consumed, discarded, hanging}
use my_notes.Inotify.Events.Invariant.{process_next_inotify_event-Keeps}
use mathlib.Core.List.{head?, tail}
use my_notes.Inotify.Reading.{
  finished, out_of_fuel, count_read, append_read, process_buffer, process_inotify_events,
}

module _ {K : Type 0} where
  count_read-Keeps : Keeps {K = K} count_read
  unfolding count_read
  count_read-Keeps = Keeps-frame _ (λ w. (refl, refl, refl))

  append_read-Keeps :
      (evs : List Event) (num_read : ℕ) (r : Option ReadResult)
      → Keeps {K = K} (append_read evs num_read r)
  unfolding append_read
  append_read-Keeps evs n none = Keeps-bind _ _ count_read-Keeps (λ _. Keeps-pure _)
  append_read-Keeps evs n (some (bytes nr more)) =
      Keeps-bind _ _ count_read-Keeps (λ _. Keeps-pure _)
  append_read-Keeps evs n (some interrupted) = Keeps-bind _ _ count_read-Keeps (λ _. Keeps-pure _)
  append_read-Keeps evs n (some failed) = Keeps-halt failure
  append_read-Keeps evs n (some at_end) = Keeps-halt failure

  Keeps-Step :
      {A : Type 0} (s : Step) (f : ℕ → List Event → M K A) (m n : M K A)
      → ((k : ℕ) (evs : List Event) → Keeps (f k evs))
      → Keeps m
      → Keeps n
      → Keeps (elim s [ consumed k evs ↦ f k evs | discarded ↦ m | hanging ↦ n ])
  Keeps-Step (consumed k evs) f m n hf hm hn = hf k evs
  Keeps-Step discarded f m n hf hm hn = hm
  Keeps-Step hanging f m n hf hm hn = hn

module _ {K : Type 0} (os : Os K) (doc : IsDocumented os) where
  process_buffer-Keeps :
      (fuel : ℕ) (reads : List ReadResult) (evs : List Event) (num_read : ℕ) (first_try : Bool)
      → Keeps (process_buffer os fuel reads evs num_read first_try)
  unfolding process_buffer
  process_buffer-Keeps zero reads evs num_read first_try = Keeps-pure out_of_fuel
  process_buffer-Keeps (suc fuel) reads evs zero first_try = Keeps-pure finished
  process_buffer-Keeps (suc fuel) reads [] (suc n) first_try = Keeps-halt undefined
  process_buffer-Keeps (suc fuel) reads (ev ∷ rest) (suc n) first_try =
      Keeps-bind _ _ (process_next_inotify_event-Keeps os doc ev rest (suc n) first_try) (λ s.
        Keeps-Step s _ _ _ (λ k evs. process_buffer-Keeps fuel reads evs (suc n - k) true)
          (Keeps-pure finished)
          (Keeps-bind _ _ (append_read-Keeps (ev ∷ rest) (suc n) (head? reads))
            (λ more. process_buffer-Keeps fuel (tail reads) more.0 more.1 false)))

  pub process_inotify_events-Keeps :
      (reads : List ReadResult) → Keeps (process_inotify_events os reads)
  unfolding process_inotify_events
  process_inotify_events-Keeps [] = Keeps-halt blocked
  process_inotify_events-Keeps (bytes nr evs ∷ reads) =
      Keeps-bind _ _ count_read-Keeps (λ _. process_buffer-Keeps _ reads evs nr true)
  process_inotify_events-Keeps (interrupted ∷ reads) = Keeps-halt failure
  process_inotify_events-Keeps (failed ∷ reads) = Keeps-halt failure
  process_inotify_events-Keeps (at_end ∷ reads) = Keeps-halt failure
