-- ===== src/Sockets/Transfer/Complete.antt =====
-- `readn` and `writen` move all that was asked for, in as many calls as it takes.
use my_notes.Common.{
  ℕ, zero, suc, ◌+◌, ◌-◌, ◌<◌, ◌≤◌, ◌≡◌, refl, ap, ◌∙◌, Bool-cases, inl, inr, List, [], ◌∷◌, ◌++◌,
  append-nil, append_assoc, Bytes, ltb, ◌==◌, if◌then◌else◌, length, take, drop, take-nil, drop-nil,
  length-append, length-drop, length-take, All, arith,
}
use my_notes.Sockets.Transfer.{
  Transfer, upto, interrupted, failed, Moved, moved, part, read_loop, readn, write_loop, writen,
}

-- A call that does not fail: interrupted, or at least one byte if there is one.
abbrev pub IsProgress : Transfer → Type 0
IsProgress (upto k) = 0 < k
IsProgress interrupted = Unit
IsProgress failed = ⊥

abbrev pub transfer_count : List Transfer → ℕ
transfer_count [] = 0
transfer_count (upto k ∷ ts) = transfer_count ts + 1
transfer_count (interrupted ∷ ts) = transfer_count ts
transfer_count (failed ∷ ts) = transfer_count ts

take-append-take-drop :
    (a m : ℕ) (s : Bytes)
    → a ≤ m
    → take a s ++ take (m - length (take a s)) (drop (length (take a s)) s) ≡ take m s
take-append-take-drop zero m s h = ap (λ k. take k s) (omega arith)
take-append-take-drop (suc a) zero s h = absurd (omega arith)
take-append-take-drop (suc a) (suc m) [] h = take-nil ℕ (suc m - 0)
take-append-take-drop (suc a) (suc m) (b ∷ s) h =
    let n = length (take a s) in
    let e : suc m - suc n ≡ m - n = omega arith in
    ap (λ r. b ∷ r)
      (ap (λ k. take a s ++ take k (drop n s)) e ∙ take-append-take-drop a m s (omega arith))

drop-drop-take :
    (a m : ℕ) (s : Bytes)
    → a ≤ m
    → drop (m - length (take a s)) (drop (length (take a s)) s) ≡ drop m s
drop-drop-take zero m s h = ap (λ k. drop k s) (omega arith)
drop-drop-take (suc a) zero s h = absurd (omega arith)
drop-drop-take (suc a) (suc m) [] h = drop-nil ℕ (suc m - 0)
drop-drop-take (suc a) (suc m) (b ∷ s) h =
    let n = length (take a s) in
    let e : suc m - suc n ≡ m - n = omega arith in
    ap (λ k. drop k (drop n s)) e ∙ drop-drop-take a m s (omega arith)

-- A part that is empty although bytes were wanted and allowed shows that none are left.
part-empty : (m k : ℕ) (s : Bytes) → 0 < m → 0 < k → length (part m k s) ≡ 0 → s ≡ []
part-empty m k [] hm hk e = refl
part-empty zero k (b ∷ s) hm hk e = absurd (omega arith)
part-empty (suc m) zero (b ∷ s) hm hk e = absurd (omega arith)
part-empty (suc m) (suc k) (b ∷ s) hm hk e = ground arith

-- What is moved from a stream when all goes well, with `buf` moved before.
abbrev all_moved : ℕ → Bytes → Bytes → List Transfer → Moved
all_moved n buf s ts = moved (buf ++ take (n - length buf) s) (drop (n - length buf) s) ts

all_moved-full :
    (n : ℕ) (buf s : Bytes) (ts : List Transfer)
    → n - length buf ≡ 0
    → moved buf s ts ≡ all_moved n buf s ts
all_moved-full n buf s ts e = rw (e, append-nil)

all_moved-nil :
    (n : ℕ) (buf s : Bytes) (ts : List Transfer) → s ≡ [] → moved buf s ts ≡ all_moved n buf s ts
all_moved-nil n buf s ts e =
    rw (e, take-nil ℕ (n - length buf), drop-nil ℕ (n - length buf), append-nil)

all_moved-part :
    (n k : ℕ) (buf s : Bytes) (ts : List Transfer)
    → let got = part (n - length buf) k s in
      all_moved n (buf ++ got) (drop (length got) s) ts ≡ all_moved n buf s ts
all_moved-part n k buf s ts =
    let m = n - length buf in
    let a = if ltb m k then m else k in
    let le : a ≤ m = ground arith in
    let n' : n - length (buf ++ take a s) ≡ m - length (take a s) =
      omega (arith, length-append buf (take a s)) in
    rw (n', append_assoc)
      (ap (λ b. moved (buf ++ b) (drop (m - length (take a s)) (drop (length (take a s)) s)) ts)
          (take-append-take-drop a m s le)
        ∙ ap (λ d. moved (buf ++ take m s) d ts) (drop-drop-take a m s le))

read_loop_completes :
    (n : ℕ) (buf s : Bytes) (ts : List Transfer)
    → n - length buf ≤ transfer_count ts
    → All IsProgress ts
    → (rest : List Transfer) × (read_loop n buf s ts ≡ all_moved n buf s rest)
unfolding read_loop
read_loop_completes n buf s [] h p = elim (Bool-cases (ltb (length buf) n)) [
  | inl less ↦ absurd (ground arith)
  | inr full ↦ ([], rw full (all_moved-full n buf s [] (ground arith)))
]
read_loop_completes n buf s (interrupted ∷ ts) h p = elim (Bool-cases (ltb (length buf) n)) [
  | inl less ↦ let (rest, e) = read_loop_completes n buf s ts h p.1 in (rest, rw less e)
  | inr full ↦ (interrupted ∷ ts, rw full (all_moved-full n buf s _ (ground arith)))
]
read_loop_completes n buf s (failed ∷ ts) h p = absurd p.0
read_loop_completes n buf s (upto k ∷ ts) h p = elim (Bool-cases (ltb (length buf) n)) [
  | inl less ↦
      let got = part (n - length buf) k s in
      elim (Bool-cases (length got == 0)) [
        | inl none_left ↦
            let empty = part-empty (n - length buf) k s (ground arith) p.0 (ground arith) in
            (ts, rw (less, none_left) (all_moved-nil n buf s ts empty))
        | inr more ↦
            let len = length-append buf got in
            let (rest, e) =
              read_loop_completes n (buf ++ got) (drop (length got) s) ts (ground (arith, len))
                p.1 in
            (rest, rw (less, more) (e ∙ all_moved-part n k buf s rest))
      ]
  | inr full ↦ (upto k ∷ ts, rw full (all_moved-full n buf s _ (ground arith)))
]

write_loop_completes :
    (n : ℕ) (out s : Bytes) (ts : List Transfer)
    → n ≤ length out + length s
    → n - length out ≤ transfer_count ts
    → All IsProgress ts
    → (rest : List Transfer) × (write_loop n out s ts ≡ all_moved n out s rest)
unfolding write_loop
write_loop_completes n out s [] enough h p = elim (Bool-cases (ltb (length out) n)) [
  | inl less ↦ absurd (ground arith)
  | inr full ↦ ([], rw full (all_moved-full n out s [] (ground arith)))
]
write_loop_completes n out s (interrupted ∷ ts) enough h p =
    elim (Bool-cases (ltb (length out) n)) [
      | inl less ↦ let (rest, e) = write_loop_completes n out s ts enough h p.1 in (rest, rw less e)
      | inr full ↦ (interrupted ∷ ts, rw full (all_moved-full n out s _ (ground arith)))
    ]
write_loop_completes n out s (failed ∷ ts) enough h p = absurd p.0
write_loop_completes n out s (upto k ∷ ts) enough h p = elim (Bool-cases (ltb (length out) n)) [
  | inl less ↦
      let sent = part (n - length out) k s in
      elim (Bool-cases (length sent == 0)) [
        | inl none_left ↦
            let empty = part-empty (n - length out) k s (ground arith) p.0 (ground arith) in
            absurd (ground (arith, ap length empty))
        | inr more ↦
            let len = length-append out sent in
            let gone = length-drop (length sent) s in
            let (rest, e) =
              write_loop_completes n (out ++ sent) (drop (length sent) s) ts
                (ground (arith, len, gone)) (ground (arith, len)) p.1 in
            (rest, rw (less, more) (e ∙ all_moved-part n k out s rest))
      ]
  | inr full ↦ (upto k ∷ ts, rw full (all_moved-full n out s _ (ground arith)))
]

-- The loops start with nothing moved.
all_moved-start :
    (n : ℕ) (s : Bytes) (ts : List Transfer) → all_moved n [] s ts ≡ moved (take n s) (drop n s) ts
all_moved-start n s ts =
    let e : n - 0 ≡ n = omega arith in ap (λ k. moved (take k s) (drop k s) ts) e

-- If no `read` fails, each moves at least one byte while bytes are left, and there are at least `n` that
-- are not interrupted, then `readn` returns the first `n` bytes of the stream, or all of it if it is
-- shorter, and leaves what is behind them to be read.
pub readn_completes :
    (n : ℕ) (stream : Bytes) (ts : List Transfer)
    → n ≤ transfer_count ts
    → All IsProgress ts
    → (rest : List Transfer) × (readn n stream ts ≡ moved (take n stream) (drop n stream) rest)
unfolding readn
readn_completes n stream ts h p =
    let (rest, e) = read_loop_completes n [] stream ts (omega arith) p in
    (rest, e ∙ all_moved-start n stream rest)

-- If no `write` fails, each writes at least one byte, and there are at least `n` that are not
-- interrupted, then `writen` writes the first `n` bytes of the buffer, in order, and returns `n`.
pub writen_completes :
    (n : ℕ) (buffer : Bytes) (ts : List Transfer)
    → n ≤ length buffer
    → n ≤ transfer_count ts
    → All IsProgress ts
    → (rest : List Transfer) × (writen n buffer ts ≡ moved (take n buffer) (drop n buffer) rest)
      × (length (take n buffer) ≡ n)
unfolding writen
writen_completes n buffer ts enough h p =
    let (rest, e) = write_loop_completes n [] buffer ts (omega arith) (omega arith) p in
    (rest, e ∙ all_moved-start n buffer rest, length-take n buffer enough)
