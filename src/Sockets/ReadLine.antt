-- ===== src/Sockets/ReadLine.antt =====
-- `readLine` of sockets/read_line.c.
pub mod Lines
use my_notes.Common.{
  ℕ, ◌+◌, ◌-◌, Bool, true, false, ◌||◌, List, [], ◌∷◌, ◌++◌, Bytes, ltb, ◌==◌, if◌then◌else◌,
  length,
}

-- One result of `read(fd, &ch, 1)`: a byte, -1 with `EINTR`, -1 with another error, or 0.
pub data CharRead : Type 0 where
  got : ℕ → CharRead
  interrupted : CharRead
  failed : CharRead
  at_end : CharRead

-- The results of `readLine`. A string in `buf` was terminated and its length returned; `no_line` is a
-- return of 0 that leaves `buf` alone; the errors are a return of -1. `rest` is what later calls of
-- `read` will return; `blocked` is a `read` that waits for ever.
pub data LineResult : Type 0 where
  line : Bytes → List CharRead → LineResult
  no_line : List CharRead → LineResult
  invalid : LineResult
  read_error : List CharRead → LineResult
  blocked : LineResult

abbrev pub newline : ℕ
newline = 10

-- the step that discards the bytes behind the first `m`
abbrev pub store : ℕ → Bytes → ℕ → Bytes
store m buf ch = if ltb (length buf) m then buf ++ ch ∷ [] else buf

-- The loop: `buf` holds the `totRead` bytes so far.
read_chars : ℕ → Bytes → List CharRead → LineResult
read_chars n buf [] = blocked
read_chars n buf (interrupted ∷ reads) = read_chars n buf reads
read_chars n buf (failed ∷ reads) = read_error reads
read_chars n buf (at_end ∷ reads) = if length buf == 0 then no_line reads else line buf reads
read_chars n buf (got ch ∷ reads) =
    let buf' = store (n - 1) buf ch in
    let more = read_chars n buf' reads in if ch == newline then line buf' reads else more

pub read_line : List CharRead → Bool → ℕ → LineResult
read_line reads is_null n = if (n == 0) || is_null then invalid else read_chars n [] reads
