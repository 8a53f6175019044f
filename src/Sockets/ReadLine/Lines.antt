-- ===== src/Sockets/ReadLine/Lines.antt =====
-- Which line `readLine` returns.
use my_notes.Common.{
  ℕ, zero, suc, ◌-◌, ◌<◌, ◌≡◌, ◌≢◌, sym, ap, ◌∙◌, false, List, [], ◌∷◌, ◌++◌, append-nil,
  append_assoc, Bytes, ◌==◌, if◌then◌else◌, length, take, take-nil, All, arith,
}
use my_notes.Sockets.ReadLine.{
  CharRead, got, interrupted, failed, at_end, line, no_line, read_error, newline, store, read_chars,
  read_line,
}

-- Reads that end no line: interruptions, and bytes other than the newline.
abbrev pub IsQuiet : CharRead → Type 0
IsQuiet (got ch) = ch ≢ newline
IsQuiet interrupted = Unit
IsQuiet failed = ⊥
IsQuiet at_end = ⊥

-- the bytes that were read
abbrev pub chars : List CharRead → Bytes
chars [] = []
chars (got ch ∷ reads) = ch ∷ chars reads
chars (interrupted ∷ reads) = chars reads
chars (failed ∷ reads) = chars reads
chars (at_end ∷ reads) = chars reads

-- Storing byte by byte while there is room keeps a prefix.
pub store-take : (m : ℕ) (s : Bytes) (ch : ℕ) → store m (take m s) ch ≡ take m (s ++ ch ∷ [])
store-take zero s ch = ground arith
store-take (suc m) [] ch = ground (arith, take-nil ℕ m)
store-take (suc m) (b ∷ s) ch = ground (arith, store-take m s ch)

read_chars-append :
    (n : ℕ) (s : Bytes) (p rest : List CharRead)
    → All IsQuiet p
    → read_chars n (take (n - 1) s) (p ++ rest) ≡ read_chars n (take (n - 1) (s ++ chars p)) rest
unfolding read_chars
read_chars-append n s [] rest q = rw append-nil
read_chars-append n s (got ch ∷ p) rest q =
    let other : (ch == newline) ≡ false = ground (arith, q.0) in
    rw (other, store-take (n - 1) s ch, read_chars-append n (s ++ ch ∷ []) p rest q.1, append_assoc)
read_chars-append n s (interrupted ∷ p) rest q = read_chars-append n s p rest q.1
read_chars-append n s (failed ∷ p) rest q = absurd q.0
read_chars-append n s (at_end ∷ p) rest q = absurd q.0

read_line_quiet :
    (n : ℕ) (p rest : List CharRead)
    → 0 < n
    → All IsQuiet p
    → read_line (p ++ rest) false n ≡ read_chars n (take (n - 1) (chars p)) rest
unfolding read_line
read_line_quiet n p rest h q =
    let positive : (n == 0) ≡ false = ground arith in
    rw positive (
      ap (λ b. read_chars n b (p ++ rest)) (sym (take-nil ℕ (n - 1)))
      ∙ read_chars-append n [] p rest q)

-- A line ends at its newline: whatever interruptions came before, the first `n - 1` bytes up to and
-- with the newline are delivered, the excess is discarded, and nothing behind it has been read.
pub read_line-line :
    (n : ℕ) (p rest : List CharRead)
    → 0 < n
    → All IsQuiet p
    → read_line (p ++ got newline ∷ rest) false n
      ≡ line (take (n - 1) (chars p ++ newline ∷ [])) rest
unfolding read_chars
read_line-line n p rest h q =
    read_line_quiet n p (got newline ∷ rest) h q
    ∙ ap (λ b. line b rest) (store-take (n - 1) (chars p) newline)

-- At the end of the input the bytes read so far are delivered as a line, and 0 is returned if none
-- was stored; at an error the bytes read so far are lost.
pub read_line-unfinished :
    (n : ℕ) (p rest : List CharRead)
    → 0 < n
    → All IsQuiet p
    → (read_line (p ++ at_end ∷ rest) false n ≡ (
        if length (take (n - 1) (chars p)) == 0
        then no_line rest
        else line (take (n - 1) (chars p)) rest))
      × (read_line (p ++ failed ∷ rest) false n ≡ read_error rest)
unfolding read_chars
read_line-unfinished n p rest h q =
    (read_line_quiet n p (at_end ∷ rest) h q, read_line_quiet n p (failed ∷ rest) h q)
