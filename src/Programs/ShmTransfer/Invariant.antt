-- ===== src/Programs/ShmTransfer/Invariant.antt =====
-- What holds at every point of a transfer through shared memory.
use my_notes.Common.{
  ℕ, ◌+◌, ◌≤◌, ◌≡◌, ◌≢◌, refl, Bool, true, false, ◌||◌, List, [], ◌∷◌, ◌++◌, Bytes, All, leb,
  if◌then◌else◌,
}
use my_notes.Programs.ShmTransfer.{
  Writer, writer_waiting, writer_reading, writer_releasing, writer_testing, writer_last,
  writer_done, writer_failed, Reader, reader_waiting, reader_copying, reader_giving,
  reader_finishing, reader_done, reader_failed, System, next_block, later_blocks, at_end,
  after_test, after_copy,
}

abbrev pub concat : List Bytes → Bytes
concat [] = []
concat (block ∷ blocks) = block ++ concat blocks

abbrev pub Nonempty : Bytes → Type 0
Nonempty b = b ≢ []

-- Has the process taken a turn that it has not yet passed on?
abbrev pub writer_turn : Writer → ℕ
writer_turn writer_reading = 1
writer_turn writer_releasing = 1
writer_turn _ = 0

abbrev pub reader_turn : Reader → ℕ
reader_turn reader_copying = 1
reader_turn reader_giving = 1
reader_turn reader_finishing = 1
reader_turn _ = 0

-- What is in the segment and not yet written: it is there when the writer is about to pass the turn on, and
-- as long as the reader has not taken it and copied.
abbrev pub writer_fresh : Writer → Bool
writer_fresh writer_releasing = true
writer_fresh _ = false

abbrev pub reader_fresh : Reader → Bool
reader_fresh reader_copying = true
reader_fresh _ = false

abbrev pub is_fresh : System → Bool
is_fresh s = writer_fresh s.writer || (leb 1 s.read_sem || reader_fresh s.reader)

abbrev pub fresh_bytes : Bool → Bytes → Bytes
fresh_bytes b segment = if b then segment else []

abbrev pub has_finished : Reader → Bool
has_finished reader_finishing = true
has_finished reader_done = true
has_finished _ = false

abbrev pub has_failed : Reader → Bool
has_failed reader_failed = true
has_failed _ = false

-- `fresh` tells whether the segment has bytes still to be written, and `rest` is what comes behind them.
pub record Transfers (all : Bytes) (s : System) (fresh : Bool) (rest : Bytes) : Type 0 where
  pub is : is_fresh s ≡ fresh
  pub tokens : s.write_sem + s.read_sem + writer_turn s.writer + reader_turn s.reader ≤ 1
  pub content :
      has_failed s.reader ≡ false → all ≡ s.output ++ (fresh_bytes fresh s.segment ++ rest)
  pub begins : (r : Bytes) × (all ≡ s.output ++ r)
  pub eof : fresh ≡ true → s.segment ≡ [] → rest ≡ []
  pub finished : has_finished s.reader ≡ true → all ≡ s.output
  pub source : s.writer ≢ writer_failed → rest ≡ concat s.input
  pub nonempty : All Nonempty s.input

abbrev pub Goes : Bytes → System → Type 0
Goes all s = (fresh : Bool) × (rest : Bytes) × Transfers all s fresh rest

pub concat-next :
    (input : List Bytes) → concat input ≡ next_block input ++ concat (later_blocks input)
concat-next [] = refl
concat-next (b ∷ bs) = refl

pub next_block-end :
    (input : List Bytes)
    → All Nonempty input
    → next_block input ≡ []
    → concat (later_blocks input) ≡ []
next_block-end [] h e = refl
next_block-end (b ∷ bs) h e = absurd (h.0 e)

pub later_blocks-All : (input : List Bytes) → All Nonempty input → All Nonempty (later_blocks input)
later_blocks-All [] h = h
later_blocks-All (b ∷ bs) h = h.1

pub at_end_lem : (s : Bytes) → has_finished (after_copy (at_end s)) ≡ true → s ≡ []
at_end_lem [] e = refl
at_end_lem (b ∷ s) e = absurd (cc)

pub after_copy-facts :
    (b : Bool)
    → (reader_fresh (after_copy b) ≡ false)
      × ((reader_turn (after_copy b) ≡ 1) × (has_failed (after_copy b) ≡ false))
after_copy-facts true = (refl, (refl, refl))
after_copy-facts false = (refl, (refl, refl))

pub after_test-facts :
    (b : Bool)
    → (writer_fresh (after_test b) ≡ false)
      × ((writer_turn (after_test b) ≡ 0) × (after_test b ≢ writer_failed))
after_test-facts true = (refl, (refl, (λ e. cc)))
after_test-facts false = (refl, (refl, (λ e. cc)))

pub idle_writer : (w : Writer) → writer_turn w ≡ 0 → writer_fresh w ≡ false
idle_writer writer_waiting h = refl
idle_writer writer_reading h = refl
idle_writer writer_releasing h = absurd (cc)
idle_writer writer_testing h = refl
idle_writer writer_last h = refl
idle_writer writer_done h = refl
idle_writer writer_failed h = refl

pub idle_reader :
    (r : Reader)
    → reader_turn r ≡ 0
    → (reader_fresh r ≡ false) × (has_failed r ≡ true → r ≡ reader_failed)
idle_reader reader_waiting h = (refl, (λ e. absurd (cc)))
idle_reader reader_copying h = absurd (cc)
idle_reader reader_giving h = (refl, (λ e. absurd (cc)))
idle_reader reader_finishing h = (refl, (λ e. absurd (cc)))
idle_reader reader_done h = (refl, (λ e. absurd (cc)))
idle_reader reader_failed h = (refl, (λ e. refl))
