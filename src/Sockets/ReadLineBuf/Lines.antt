-- ===== src/Sockets/ReadLineBuf/Lines.antt =====
-- What `readLineBuf` returns is the next line of the bytes, however they are cut into blocks.
use my_notes.Common.{
  ℕ, ◌<◌, ◌≡◌, ◌≢◌, refl, sym, ap, ◌∙◌, true, false, List, [], ◌∷◌, ◌++◌, append_assoc, Bytes, ◌==◌,
  take, take-nil, All, arith,
}
use my_notes.Sockets.ReadLine.{newline}
use my_notes.Sockets.ReadLine.Lines.{store-take}
use my_notes.Sockets.ReadLineBuf.{
  BlockRead, block, failed, ReadLineBuf, delivered, fetch_chars, read_line_buf,
}

-- The bytes that come before the end of the file or an error.
abbrev pub bytes : List BlockRead → Bytes
bytes [] = []
bytes (failed ∷ reads) = []
bytes (block [] ∷ reads) = []
bytes (block (c ∷ left) ∷ reads) = (c ∷ left) ++ bytes reads

fetch_chars-line :
    (fd n : ℕ) (s left : Bytes) (reads : List BlockRead) (p q : Bytes)
    → All (λ c. c ≢ newline) p
    → left ++ bytes reads ≡ p ++ newline ∷ q
    → (left' : Bytes) × (reads' : List BlockRead) × (fetch_chars fd n (take n s) left reads
        ≡ delivered (take n (s ++ (p ++ newline ∷ []))) (record { fd = fd; left = left' }) reads')
      × (left' ++ bytes reads' ≡ q)
unfolding fetch_chars
fetch_chars-line fd n s (c ∷ left) reads [] q h e =
    let is : c ≡ newline = grind arith in
    let same : (c == newline) ≡ true = ground (arith, is) in
    (left, reads, rw (same, store-take n s c, is) refl, grind arith)
fetch_chars-line fd n s (c ∷ left) reads (b ∷ p) q h e =
    let is : c ≡ b = grind arith in
    let tails : left ++ bytes reads ≡ p ++ newline ∷ q = grind arith in
    let other : (c == newline) ≡ false = ground (arith, is, h.0) in
    let (l, r, found, rest) = fetch_chars-line fd n (s ++ c ∷ []) left reads p q h.1 tails in
    (l, r, rw (other, store-take n s c, found, append_assoc, is) refl, rest)
fetch_chars-line fd n s [] [] [] q h e = grind arith
fetch_chars-line fd n s [] [] (b ∷ p) q h e = grind arith
fetch_chars-line fd n s [] (failed ∷ reads) [] q h e = grind arith
fetch_chars-line fd n s [] (failed ∷ reads) (b ∷ p) q h e = grind arith
fetch_chars-line fd n s [] (block [] ∷ reads) [] q h e = grind arith
fetch_chars-line fd n s [] (block [] ∷ reads) (b ∷ p) q h e = grind arith
fetch_chars-line fd n s [] (block (c ∷ left) ∷ reads) p q h e =
    fetch_chars-line fd n s (c ∷ left) reads p q h e

-- If the bytes in the buffer and those to be read before the end of the file or an error are `p`, a
-- newline, and `q`, and no byte of `p` is a newline, then `readLineBuf` places the first `n` bytes of
-- `p` with the newline in the caller's buffer, and what is left in its buffer and to be read is `q`.
pub read_line_buf-line :
    (n : ℕ) (rlbuf : ReadLineBuf) (reads : List BlockRead) (p q : Bytes)
    → 0 < n
    → All (λ c. c ≢ newline) p
    → rlbuf.left ++ bytes reads ≡ p ++ newline ∷ q
    → (rlbuf' : ReadLineBuf) × (reads' : List BlockRead) × (read_line_buf rlbuf reads false n
        ≡ delivered (take n (p ++ newline ∷ [])) rlbuf' reads')
      × (rlbuf'.left ++ bytes reads' ≡ q)
unfolding read_line_buf
read_line_buf-line n rlbuf reads p q positive h e =
    let some_room : (n == 0) ≡ false = ground arith in
    let (l, r, found, rest) = fetch_chars-line rlbuf.fd n [] rlbuf.left reads p q h e in
    let start = ap (λ b. fetch_chars rlbuf.fd n b rlbuf.left reads) (sym (take-nil ℕ n)) in
    (record { fd = rlbuf.fd; left = l }, r, rw some_room (start ∙ found), rest)
