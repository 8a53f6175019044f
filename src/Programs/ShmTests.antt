-- ===== src/Programs/ShmTests.antt =====
-- A run of the transfer through shared memory.
use my_notes.Common.{◌≡◌, refl, true, List, [], ◌∷◌, ◌++◌, Bytes, codes}
use my_notes.Programs.ShmTransfer.{
  System, initial, writer_reserve, writer_read, writer_release, writer_test, reader_waiting,
  reader_reserve, reader_copy, reader_give, writer_reserves, writer_reads, writer_releases,
  writer_tests, reader_reserves, reader_copies, reader_gives, Steps, start, after,
}
use my_notes.Programs.ShmTransfer.Invariant.{concat, has_finished}
use my_notes.Programs.ShmTransfer.Exact.{steps_transfer_exactly}

abbrev input : List Bytes
input = codes "ab" ∷ []

-- One block is passed on, and the writer tests for the end only after the reader has copied it.
abbrev one_block : System
one_block = writer_test (
    reader_give reader_waiting (
      reader_copy
        (reader_reserve 0 (writer_release (writer_read (writer_reserve 0 (initial input)))))))

abbrev finishing : System
finishing =
    reader_copy (reader_reserve 0 (writer_release (writer_read (writer_reserve 0 one_block))))

one_block-Steps : Steps (initial input) one_block
unfolding writer_reserve writer_read writer_release writer_test reader_reserve reader_copy
    reader_give
one_block-Steps =
    after _ _
      (after _ _
        (after _ _
          (after _ _
            (after _ _
              (after _ _ (after _ _ start (writer_reserves 0 refl refl)) (writer_reads refl))
              (writer_releases refl))
            (reader_reserves 0 refl refl))
          (reader_copies refl))
        (reader_gives refl))
      (writer_tests refl)

finishing-Steps : Steps (initial input) finishing
unfolding writer_reserve writer_read writer_release writer_test reader_reserve reader_copy
    reader_give
finishing-Steps =
    after _ _
      (after _ _
        (after _ _
          (after _ _ (after _ _ one_block-Steps (writer_reserves 0 refl refl)) (writer_reads refl))
          (writer_releases refl))
        (reader_reserves 0 refl refl))
      (reader_copies refl)

steps_transfer_exactly_example :
    ((r : Bytes) × (concat input ≡ finishing.output ++ r))
    × (has_finished finishing.reader ≡ true → concat input ≡ finishing.output)
steps_transfer_exactly_example =
    steps_transfer_exactly input ((λ e. cc), tt) finishing finishing-Steps
