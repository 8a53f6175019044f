-- ===== src/Sockets/ReadLineBuf.antt =====
-- `readLineBufInit` and `readLineBuf` of sockets/read_line_buf.c.
pub mod Lines
use my_notes.Common.{ℕ, Bool, ◌||◌, List, [], ◌∷◌, Bytes, ◌==◌, if◌then◌else◌}
use my_notes.Sockets.ReadLine.{newline, store}

-- One result of `read(fd, buf, RL_MAX_BUF)`: a block of bytes, empty at the end of the file, or -1.
pub data BlockRead : Type 0 where
  block : Bytes → BlockRead
  failed : BlockRead

-- `struct ReadLineBuf`: `left` is what lies in `buf` from `next` up to `len`, the part of the buffer
-- that the code will read; it is empty where `next >= len`, also where `len` is -1.
pub record ReadLineBuf : Type 0 where
  pub fd : ℕ
  pub left : Bytes

-- The results of `readLineBuf`, with the buffer after the call and the later results of `read`: the
-- bytes placed in `buffer`, whose number is returned, or -1. `blocked` is a wait for ever.
pub data BufResult : Type 0 where
  delivered : Bytes → ReadLineBuf → List BlockRead → BufResult
  invalid : BufResult
  read_error : ReadLineBuf → List BlockRead → BufResult
  blocked : BufResult

pub read_line_buf_init : ℕ → ReadLineBuf
read_line_buf_init fd = record { fd = fd; left = [] }

-- The loop: `out` holds the `cnt` bytes placed so far.
fetch_chars : ℕ → ℕ → Bytes → Bytes → List BlockRead → BufResult
fetch_chars fd n out (c ∷ left) reads =
    let out' = store n out c in
    let more = fetch_chars fd n out' left reads in
    if c == newline then delivered out' (record { fd = fd; left = left }) reads else more
fetch_chars fd n out [] [] = blocked
fetch_chars fd n out [] (failed ∷ reads) = read_error (record { fd = fd; left = [] }) reads
fetch_chars fd n out [] (block [] ∷ reads) = delivered out (record { fd = fd; left = [] }) reads
fetch_chars fd n out [] (block (c ∷ left) ∷ reads) = fetch_chars fd n out (c ∷ left) reads

pub read_line_buf : ReadLineBuf → List BlockRead → Bool → ℕ → BufResult
read_line_buf rlbuf reads is_null n =
    if (n == 0) || is_null then invalid else fetch_chars rlbuf.fd n [] rlbuf.left reads
