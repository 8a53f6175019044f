-- ===== src/Sockets/Tests.antt =====
-- Runs of the theorems on the input and output helpers at concrete inputs.
use my_notes.Common.{ℕ, ◌≡◌, refl, false, List, [], ◌∷◌, ◌++◌, length, All, arith}
use my_notes.Sockets.ReadLine
use my_notes.Sockets.ReadLine.Lines.{IsQuiet, read_line-line, read_line-unfinished}
use my_notes.Sockets.Transfer
use my_notes.Sockets.Transfer.Complete.{IsProgress, readn_completes, writen_completes}
use my_notes.Sockets.Transfer.Conservation.{Conserves, readn-writen-Conserves}
use my_notes.Sockets.ReadLineBuf
use my_notes.Sockets.ReadLineBuf.Lines.{bytes, read_line_buf-line}

-- "ab", with an interruption in between
abbrev two_reads : List ReadLine.CharRead
two_reads = ReadLine.got 97 ∷ ReadLine.interrupted ∷ ReadLine.got 98 ∷ []

two_reads-IsQuiet : All IsQuiet two_reads
two_reads-IsQuiet = (omega arith, (tt, (omega arith, tt)))

read_line-line_example :
    ReadLine.read_line (two_reads ++ ReadLine.got 10 ∷ ReadLine.at_end ∷ []) false 3
    ≡ ReadLine.line (97 ∷ 98 ∷ []) (ReadLine.at_end ∷ [])
read_line-line_example =
    read_line-line 3 two_reads (ReadLine.at_end ∷ []) (omega arith) two_reads-IsQuiet

read_line-unfinished_example :
    (ReadLine.read_line (two_reads ++ ReadLine.at_end ∷ []) false 3
      ≡ ReadLine.line (97 ∷ 98 ∷ []) [])
    × (ReadLine.read_line (two_reads ++ ReadLine.failed ∷ []) false 3 ≡ ReadLine.read_error [])
read_line-unfinished_example = read_line-unfinished 3 two_reads [] (omega arith) two_reads-IsQuiet

abbrev four_calls : List Transfer.Transfer
four_calls = Transfer.upto 2 ∷ Transfer.interrupted ∷ Transfer.upto 1 ∷ Transfer.upto 5 ∷ []

four_calls-IsProgress : All IsProgress four_calls
four_calls-IsProgress = (omega arith, (tt, (omega arith, (omega arith, tt))))

readn_completes_example :
    (rest : List Transfer.Transfer) × (Transfer.readn 3 (1 ∷ 2 ∷ 3 ∷ 4 ∷ []) four_calls
      ≡ Transfer.moved (1 ∷ 2 ∷ 3 ∷ []) (4 ∷ []) rest)
readn_completes_example =
    readn_completes 3 (1 ∷ 2 ∷ 3 ∷ 4 ∷ []) four_calls (omega arith) four_calls-IsProgress

writen_completes_example :
    (rest : List Transfer.Transfer) × (Transfer.writen 3 (1 ∷ 2 ∷ 3 ∷ 4 ∷ []) four_calls
      ≡ Transfer.moved (1 ∷ 2 ∷ 3 ∷ []) (4 ∷ []) rest)
    × (length {A = ℕ} (1 ∷ 2 ∷ 3 ∷ []) ≡ 3)
writen_completes_example =
    writen_completes 3 (1 ∷ 2 ∷ 3 ∷ 4 ∷ []) four_calls (omega arith) (omega arith)
      four_calls-IsProgress

-- "b" is buffered, "c" and a newline come in two blocks.
read_line_buf-line_example :
    (rlbuf' : ReadLineBuf.ReadLineBuf) × (reads' : List ReadLineBuf.BlockRead)
    × (ReadLineBuf.read_line_buf
          (record { fd = 0; left = 98 ∷ [] })
          (ReadLineBuf.block (99 ∷ []) ∷ ReadLineBuf.block (10 ∷ 100 ∷ []) ∷ [])
          false
          5
        ≡ ReadLineBuf.delivered (98 ∷ 99 ∷ 10 ∷ []) rlbuf' reads')
    × (rlbuf'.left ++ bytes reads' ≡ 100 ∷ [])
read_line_buf-line_example =
    read_line_buf-line 5 (record { fd = 0; left = 98 ∷ [] })
      (ReadLineBuf.block (99 ∷ []) ∷ ReadLineBuf.block (10 ∷ 100 ∷ []) ∷ []) (98 ∷ 99 ∷ [])
      (100 ∷ []) (omega arith) (omega arith, (omega arith, tt)) refl

-- The second call fails.
readn-writen-Conserves_example :
    Conserves 3
      (1 ∷ 2 ∷ 3 ∷ 4 ∷ [])
      (Transfer.readn 3 (1 ∷ 2 ∷ 3 ∷ 4 ∷ []) (Transfer.upto 2 ∷ Transfer.failed ∷ []))
    × Conserves 3
        (1 ∷ 2 ∷ 3 ∷ 4 ∷ [])
        (Transfer.writen 3 (1 ∷ 2 ∷ 3 ∷ 4 ∷ []) (Transfer.upto 2 ∷ Transfer.failed ∷ []))
readn-writen-Conserves_example =
    readn-writen-Conserves 3 (1 ∷ 2 ∷ 3 ∷ 4 ∷ []) (Transfer.upto 2 ∷ Transfer.failed ∷ [])
