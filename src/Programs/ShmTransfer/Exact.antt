-- ===== src/Programs/ShmTransfer/Exact.antt =====
-- The reader writes exactly what the writer reads.
use my_notes.Common.{◌≡◌, refl, true, false, List, ◌++◌, Bytes, All, arith}
use my_notes.Programs.ShmTransfer.{System, initial, Steps, start, after}
use my_notes.Programs.ShmTransfer.Invariant.{concat, Nonempty, has_finished, Goes}
use my_notes.Programs.ShmTransfer.Turns.{step-Goes}

steps-Goes :
    (input : List Bytes)
    → All Nonempty input
    → (s : System) → Steps (initial input) s
    → Goes (concat input) s
steps-Goes input full s start = (
  false,
  concat input,
  record {
    is = refl;
    tokens = omega arith;
    content = λ ok. refl;
    begins = (concat input, refl);
    eof = λ t end. absurd (cc);
    finished = λ f. absurd (cc);
    source = λ ne. refl;
    nonempty = full;
  },
)
steps-Goes input full s (after b c before step) =
    let (fresh, rest, h) = steps-Goes input full b before in
    step-Goes (concat input) b fresh rest h c step

-- In every interleaving of the two programs, with failures at any place, what the reader has written is a
-- beginning of what `read` gives to the writer, and is all of it once the reader has seen the end.
-- The blocks that `read` returns are not empty.
pub steps_transfer_exactly :
    (input : List Bytes)
    → All Nonempty input
    → (s : System) → Steps (initial input) s
    → ((r : Bytes) × (concat input ≡ s.output ++ r))
      × (has_finished s.reader ≡ true → concat input ≡ s.output)
steps_transfer_exactly input full s steps =
    let (fresh, rest, h) = steps-Goes input full s steps in (h.begins, h.finished)
