-- ===== src/Programs/SemOps/Tests.antt =====
-- Runs of the theorems on `parseOps` at concrete inputs.
use my_notes.Common.{
  ℕ, ◌+◌, ◌-◌, ◌*◌, ◌≤◌, ◌≡◌, refl, ap, true, false, inl, inr, [], ◌∷◌, ◌++◌, map, Bytes, codes,
  if◌then◌else◌, All, arith,
}
use my_notes.Programs.SemOps.{parsed, Strtol, is_digit, starts_with_digit, parse_ops, max_semops}
use my_notes.Programs.SemOps.Counting.{commas, parse_ops_count}
use my_notes.Programs.SemOps.RoundTrip.{OpText, IsOpText, ReadsDigits, meaning, parse_ops-join_ops}

-- A `strtol` for numbers of any size.
abbrev digits : Bytes → Bytes
digits [] = []
digits (c ∷ s) = if is_digit c then c ∷ digits s else []

abbrev behind : Bytes → Bytes
behind [] = []
behind (c ∷ s) = if is_digit c then behind s else c ∷ s

abbrev decimal : ℕ → Bytes → ℕ
decimal n [] = n
decimal n (c ∷ s) = decimal (n * 10 + (c - 48)) s

abbrev strtol : Strtol
strtol = λ s. (decimal 0 (digits s), behind s)

digits-append :
    (ds rest : Bytes)
    → All (λ c. is_digit c ≡ true) ds
    → starts_with_digit rest ≡ false
    → (digits (ds ++ rest) ≡ ds) × (behind (ds ++ rest) ≡ rest)
unfolding starts_with_digit
digits-append [] [] h e = (refl, refl)
digits-append [] (c ∷ rest) h e = rw e (refl, refl)
digits-append (d ∷ ds) rest h e =
    let more = digits-append ds rest h.1 e in rw h.0 (ap (λ s. d ∷ s) more.0, more.1)

strtol-ReadsDigits : ReadsDigits (decimal 0) strtol
strtol-ReadsDigits ds rest h e = let cut = digits-append ds rest h.1 e in rw (cut.0, cut.1) refl

abbrev add_two : OpText
add_two = record { num = codes "1"; sign = b'+'; value = codes "2"; flags = [] }

abbrev take_three : OpText
take_three = record { num = codes "0"; sign = b'-'; value = codes "3"; flags = true ∷ [] }

both-IsOpText : All (IsOpText (decimal 0) strtol strtol-ReadsDigits) (add_two ∷ take_three ∷ [])
unfolding is_digit
both-IsOpText = (
  (
    ((λ e. grind arith), (refl, tt)),
    ((λ e. grind arith), (refl, tt)),
    omega arith,
    omega arith,
    inl refl,
  ),
  (
    (
      ((λ e. grind arith), (refl, tt)),
      ((λ e. grind arith), (refl, tt)),
      omega arith,
      omega arith,
      inr (inl refl),
    ),
    tt,
  ),
)

parse_ops-join_ops_example :
    parse_ops strtol (codes "1+2,0-3n")
    ≡ parsed (map (meaning (decimal 0) strtol strtol-ReadsDigits) (add_two ∷ take_three ∷ []))
parse_ops-join_ops_example =
    parse_ops-join_ops (decimal 0) strtol strtol-ReadsDigits add_two (take_three ∷ []) both-IsOpText
      (omega arith)

two_parsed :
    parse_ops strtol (codes "1+2,0-3n")
    ≡ parsed (map (meaning (decimal 0) strtol strtol-ReadsDigits) (add_two ∷ take_three ∷ []))
two_parsed =
    parse_ops-join_ops (decimal 0) strtol strtol-ReadsDigits add_two (take_three ∷ []) both-IsOpText
      (omega arith)

parse_ops_count_example : (2 ≡ commas (codes "1+2,0-3n") + 1) × (2 ≤ max_semops)
parse_ops_count_example =
    parse_ops_count strtol (codes "1+2,0-3n")
      (map (meaning (decimal 0) strtol strtol-ReadsDigits) (add_two ∷ take_three ∷ [])) two_parsed
