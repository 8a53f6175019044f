-- ===== src/Sockets/Transfer.antt =====
-- `readn` and `writen` of sockets/rdwrn.c.
pub mod Complete
pub mod Conservation
use my_notes.Common.{
  ℕ, ◌+◌, ◌-◌, Bool, true, false, List, [], ◌∷◌, ◌++◌, Bytes, ltb, ◌==◌, if◌then◌else◌, length,
  take, drop,
}

-- One result of `read` or `write`: at most `k` bytes, as far as they were asked for and are there, or
-- -1 with `EINTR`, or -1 with another error.
pub data Transfer : Type 0 where
  upto : ℕ → Transfer
  interrupted : Transfer
  failed : Transfer

-- What a call returned, with the bytes moved, those not moved, and the results that later calls of
-- `read` and `write` will have: the number of bytes moved, or -1. `blocked` is a wait for ever.
pub data Moved : Type 0 where
  moved : Bytes → Bytes → List Transfer → Moved
  error : Bytes → Bytes → List Transfer → Moved
  blocked : Moved

-- the bytes that `read(fd, buf, n - tot)` or `write(fd, buf, n - tot)` moves
abbrev pub part : ℕ → ℕ → Bytes → Bytes
part n k s = take (if ltb n k then n else k) s

-- The loop of `readn`: `buf` holds the `totRead` bytes read so far.
read_loop : ℕ → Bytes → Bytes → List Transfer → Moved
read_loop n buf stream [] = if ltb (length buf) n then blocked else moved buf stream []
read_loop n buf stream (interrupted ∷ ts) =
    let again = read_loop n buf stream ts in
    if ltb (length buf) n then again else moved buf stream (interrupted ∷ ts)
read_loop n buf stream (failed ∷ ts) =
    if ltb (length buf) n then error buf stream ts else moved buf stream (failed ∷ ts)
read_loop n buf stream (upto k ∷ ts) =
    let got = part (n - length buf) k stream in
    let next = read_loop n (buf ++ got) (drop (length got) stream) ts in
    let step = if length got == 0 then moved buf stream ts else next in
    if ltb (length buf) n then step else moved buf stream (upto k ∷ ts)

pub readn : ℕ → Bytes → List Transfer → Moved
readn n stream ts = read_loop n [] stream ts

-- The loop of `writen`: `out` holds the `totWritten` bytes, `buf` those to come. A `write` that
-- returns 0 is an error.
write_loop : ℕ → Bytes → Bytes → List Transfer → Moved
write_loop n out buf [] = if ltb (length out) n then blocked else moved out buf []
write_loop n out buf (interrupted ∷ ts) =
    let again = write_loop n out buf ts in
    if ltb (length out) n then again else moved out buf (interrupted ∷ ts)
write_loop n out buf (failed ∷ ts) =
    if ltb (length out) n then error out buf ts else moved out buf (failed ∷ ts)
write_loop n out buf (upto k ∷ ts) =
    let sent = part (n - length out) k buf in
    let next = write_loop n (out ++ sent) (drop (length sent) buf) ts in
    let step = if length sent == 0 then error out buf ts else next in
    if ltb (length out) n then step else moved out buf (upto k ∷ ts)

pub writen : ℕ → Bytes → List Transfer → Moved
writen n buffer ts = write_loop n [] buffer ts
