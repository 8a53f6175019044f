-- ===== src/Sockets/Transfer/Conservation.antt =====
-- No byte is lost, repeated or reordered by `readn` and `writen`, whatever the system calls return.
use my_notes.Common.{
  ℕ, zero, suc, ◌-◌, ◌≤◌, ◌≡◌, refl, ap, ◌∙◌, Bool-cases, inl, inr, List, [], ◌∷◌, ◌++◌,
  append_assoc, Bytes, ltb, ◌==◌, if◌then◌else◌, length, take, drop, length-append, length-take_le,
  arith,
}
use my_notes.Sockets.Transfer.{
  Transfer, upto, interrupted, failed, Moved, moved, error, blocked, part, read_loop, readn,
  write_loop, writen,
}

-- What was moved and what was not make up the bytes there were, and at most `n` were moved.
abbrev pub Conserves : ℕ → Bytes → Moved → Type 0
Conserves n all (moved a b ts) = (a ++ b ≡ all) × (length a ≤ n)
Conserves n all (error a b ts) = (a ++ b ≡ all) × (length a ≤ n)
Conserves n all blocked = Unit

take-drop-length : (a : ℕ) (s : Bytes) → take a s ++ drop (length (take a s)) s ≡ s
take-drop-length zero s = refl
take-drop-length (suc a) [] = refl
take-drop-length (suc a) (b ∷ s) = ap (λ t. b ∷ t) (take-drop-length a s)

-- A part that is moved leaves what was there, and does not exceed what is asked for.
module _ (n k : ℕ) (all buf s : Bytes) where
  part-joins :
      let got = part (n - length buf) k s in
      buf ++ s ≡ all → (buf ++ got) ++ drop (length got) s ≡ all
  part-joins e =
      let a = if ltb (n - length buf) k then n - length buf else k in
      append_assoc buf (take a s) (drop (length (take a s)) s)
      ∙ ap (λ t. buf ++ t) (take-drop-length a s)
      ∙ e

  part-fits : length buf ≤ n → length (buf ++ part (n - length buf) k s) ≤ n
  part-fits h =
      let a = if ltb (n - length buf) k then n - length buf else k in
      let bound : a ≤ n - length buf = ground arith in
      omega (arith, length-append buf (take a s), length-take_le a s, bound, h)

read_loop-Conserves :
    (n : ℕ) (all buf s : Bytes) (ts : List Transfer)
    → buf ++ s ≡ all
    → length buf ≤ n
    → Conserves n all (read_loop n buf s ts)
unfolding read_loop
read_loop-Conserves n all buf s [] e h = elim (Bool-cases (ltb (length buf) n)) [
  | inl less ↦ rw (read_loop, less) tt
  | inr full ↦ rw (read_loop, full) (e, h)
]
read_loop-Conserves n all buf s (interrupted ∷ ts) e h = elim (Bool-cases (ltb (length buf) n)) [
  | inl less ↦ rw (read_loop, less) (read_loop-Conserves n all buf s ts e h)
  | inr full ↦ rw (read_loop, full) (e, h)
]
read_loop-Conserves n all buf s (failed ∷ ts) e h = elim (Bool-cases (ltb (length buf) n)) [
  | inl less ↦ rw (read_loop, less) (e, h)
  | inr full ↦ rw (read_loop, full) (e, h)
]
read_loop-Conserves n all buf s (upto k ∷ ts) e h =
    let got = part (n - length buf) k s in
    let more =
      read_loop-Conserves n all (buf ++ got) (drop (length got) s) ts (part-joins n k all buf s e)
        (part-fits n k all buf s h) in
    elim (Bool-cases (ltb (length buf) n)) [
      | inl less ↦ elim (Bool-cases (length got == 0)) [
        | inl end ↦ rw (read_loop, less, end) (e, h)
        | inr on ↦ rw (read_loop, less, on) more
      ]
      | inr full ↦ rw (read_loop, full) (e, h)
    ]

write_loop-Conserves :
    (n : ℕ) (all buf s : Bytes) (ts : List Transfer)
    → buf ++ s ≡ all
    → length buf ≤ n
    → Conserves n all (write_loop n buf s ts)
unfolding write_loop
write_loop-Conserves n all buf s [] e h = elim (Bool-cases (ltb (length buf) n)) [
  | inl less ↦ rw (write_loop, less) tt
  | inr full ↦ rw (write_loop, full) (e, h)
]
write_loop-Conserves n all buf s (interrupted ∷ ts) e h = elim (Bool-cases (ltb (length buf) n)) [
  | inl less ↦ rw (write_loop, less) (write_loop-Conserves n all buf s ts e h)
  | inr full ↦ rw (write_loop, full) (e, h)
]
write_loop-Conserves n all buf s (failed ∷ ts) e h = elim (Bool-cases (ltb (length buf) n)) [
  | inl less ↦ rw (write_loop, less) (e, h)
  | inr full ↦ rw (write_loop, full) (e, h)
]
write_loop-Conserves n all buf s (upto k ∷ ts) e h =
    let got = part (n - length buf) k s in
    let more =
      write_loop-Conserves n all (buf ++ got) (drop (length got) s) ts (part-joins n k all buf s e)
        (part-fits n k all buf s h) in
    elim (Bool-cases (ltb (length buf) n)) [
      | inl less ↦ elim (Bool-cases (length got == 0)) [
        | inl end ↦ rw (write_loop, less, end) (e, h)
        | inr on ↦ rw (write_loop, less, on) more
      ]
      | inr full ↦ rw (write_loop, full) (e, h)
    ]

-- Whatever `read` and `write` return: if `readn` or `writen` returns, what it moved is at most `n` bytes,
-- and followed by what is left it is the stream or the buffer; so it is after an error.
pub readn-writen-Conserves :
    (n : ℕ) (all : Bytes) (ts : List Transfer)
    → Conserves n all (readn n all ts) × Conserves n all (writen n all ts)
unfolding readn writen
readn-writen-Conserves n all ts = (
  read_loop-Conserves n all [] all ts refl (omega arith),
  write_loop-Conserves n all [] all ts refl (omega arith),
)
