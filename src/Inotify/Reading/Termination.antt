-- ===== src/Inotify/Reading/Termination.antt =====
-- The loop over a buffer of events ends.
use my_notes.Common.{ℕ, ◌+◌, ◌*◌, ◌≡◌, Bool, List, length, if◌then◌else◌}
use my_notes.Inotify.World.{World, Event, ReadResult, Outcome, Ensures}
use my_notes.Inotify.Reading.{Progress, finished, event_count}

-- A call that returns has finished the buffer: it did not run out of fuel.
abbrev pub Finishes : {K : Type 0} → Outcome K Progress → Type 0
Finishes o = Ensures (λ p _. p ≡ finished) (λ _. Unit) o

-- what is left to do, a second try of the first event included
abbrev work : List ReadResult → List Event → Bool → ℕ
work reads evs first_try = 2 * (length evs + event_count reads) + (if first_try then 1 else 0)
