-- ===== src/Programs/ShmTransfer.antt =====
-- svshm/svshm_xfr_writer.c and svshm/svshm_xfr_reader.c: a stream through shared memory.
pub mod Invariant
pub mod Turns
pub mod Exact
use my_notes.Common.{
  ℕ, zero, suc, ◌+◌, ◌≡◌, Bool, true, false, List, [], ◌∷◌, ◌++◌, Option, none, some, Bytes,
}

-- The places between the calls of each program. `writer_testing` is the test for the end of the file behind
-- `releaseSem`, and `writer_last` the wait for one more turn.
pub data Writer : Type 0 where
  writer_waiting writer_reading writer_releasing writer_testing writer_last writer_done
        writer_failed :
      Writer

pub data Reader : Type 0 where
  reader_waiting reader_copying reader_giving reader_finishing reader_done reader_failed : Reader

-- The two processes; the values of the semaphores WRITE_SEM and READ_SEM; the segment, of whose buffer the
-- first `cnt` bytes matter; the blocks that the writer is still to read; and what the reader has written.
pub record System : Type 0 where
  pub writer : Writer
  pub reader : Reader
  pub write_sem : ℕ
  pub read_sem : ℕ
  pub segment : Bytes
  pub input : List Bytes
  pub output : Bytes

-- Both programs in front of their loops.
abbrev pub initial : List Bytes → System
initial input = record {
  writer = writer_waiting;
  reader = reader_waiting;
  write_sem = 1;
  read_sem = 0;
  segment = [];
  input = input;
  output = [];
}

-- `read` returns 0 at the end of the file.
abbrev pub next_block : List Bytes → Bytes
next_block [] = []
next_block (block ∷ blocks) = block

abbrev pub later_blocks : List Bytes → List Bytes
later_blocks [] = []
later_blocks (block ∷ blocks) = blocks

-- Is `cnt` 0?
abbrev pub at_end : Bytes → Bool
at_end [] = true
at_end (b ∷ s) = false

abbrev pub after_test : Bool → Writer
after_test true = writer_last
after_test false = writer_waiting

abbrev pub after_copy : Bool → Reader
after_copy true = reader_finishing
after_copy false = reader_giving

unfoldable pub writer_reserve : ℕ → System → System
writer_reserve n s = record s { writer = writer_reading; write_sem = n }

unfoldable pub writer_read : System → System
writer_read s = record s {
  writer = writer_releasing;
  segment = next_block s.input;
  input = later_blocks s.input;
}

unfoldable pub writer_release : System → System
writer_release s = record s { writer = writer_testing; read_sem = s.read_sem + 1 }

unfoldable pub writer_test : System → System
writer_test s = record s { writer = after_test (at_end s.segment) }

unfoldable pub writer_end : ℕ → System → System
writer_end n s = record s { writer = writer_done; write_sem = n }

unfoldable pub reader_reserve : ℕ → System → System
reader_reserve n s = record s { reader = reader_copying; read_sem = n }

-- Nothing is written where `cnt` is 0.
unfoldable pub reader_copy : System → System
reader_copy s = record s { reader = after_copy (at_end s.segment); output = s.output ++ s.segment }

unfoldable pub reader_give : Reader → System → System
reader_give next s = record s { reader = next; write_sem = s.write_sem + 1 }

-- A step of either process. `reserveSem` goes on where the semaphore is not 0, and takes 1 from it;
-- `releaseSem` adds 1. Calls may fail, and a failing `write` may have written a part.
pub data Step (s : System) : System → Type 0 where
  writer_reserves :
      (n : ℕ) → s.writer ≡ writer_waiting → s.write_sem ≡ n + 1 → Step s (writer_reserve n s)
  writer_reads : s.writer ≡ writer_reading → Step s (writer_read s)
  writer_releases : s.writer ≡ writer_releasing → Step s (writer_release s)
  writer_tests : s.writer ≡ writer_testing → Step s (writer_test s)
  writer_ends : (n : ℕ) → s.writer ≡ writer_last → s.write_sem ≡ n + 1 → Step s (writer_end n s)
  writer_fails : Step s (record s { writer = writer_failed })
  reader_reserves :
      (n : ℕ) → s.reader ≡ reader_waiting → s.read_sem ≡ n + 1 → Step s (reader_reserve n s)
  reader_copies : s.reader ≡ reader_copying → Step s (reader_copy s)
  reader_gives : s.reader ≡ reader_giving → Step s (reader_give reader_waiting s)
  reader_finishes : s.reader ≡ reader_finishing → Step s (reader_give reader_done s)
  write_fails :
      (part rest : Bytes)
      → s.reader ≡ reader_copying
      → s.segment ≡ part ++ rest
      → Step s (record s { reader = reader_failed; output = s.output ++ part })

pub data Steps (a : System) : System → Type 0 where
  start : Steps a a
  after : (b c : System) → Steps a b → Step b c → Steps a c
