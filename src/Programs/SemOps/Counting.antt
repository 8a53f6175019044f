-- ===== src/Programs/SemOps/Counting.antt =====
-- How many operations `parseOps` finds.
use my_notes.Common.{
  ℕ, zero, suc, ◌+◌, ◌≤◌, ◌≡◌, refl, ap, Bool-cases, Option-cases, ◌⊎◌, inl, inr, List, [], ◌∷◌,
  none, some, Bytes, ◌==◌, if◌then◌else◌, length, arith,
}
use my_notes.Programs.SemOps.{
  Sembuf, BadArg, Result, exits, parsed, Strtol, parse_op, after_comma, prepend, parse_from,
  max_semops, parse_ops,
}

abbrev pub commas : Bytes → ℕ
commas [] = 0
commas (c ∷ s) = if c == b',' then commas s + 1 else commas s

commas-none : (s : Bytes) → after_comma s ≡ none → commas s ≡ 0
unfolding after_comma
commas-none [] e = refl
commas-none (c ∷ s) e = ground (arith, commas-none s)

commas-some : (s rest : Bytes) → after_comma s ≡ some rest → commas s ≡ commas rest + 1
unfolding after_comma
commas-some [] rest e = ground arith
commas-some (c ∷ s) rest e = elim (Bool-cases (c == b',')) [
  | inl is ↦ ground (arith, is)
  | inr isnt ↦ rw isnt (commas-some s rest (rw isnt at e))
]

Result-cases :
    {A : Type 0} (r : Result A) → ((e : BadArg) × (r ≡ exits e)) ⊎ ((a : A) × (r ≡ parsed a))
Result-cases (exits e) = inl (e, refl)
Result-cases (parsed a) = inr (a, refl)

prepend-parsed :
    (op : Sembuf) (r : Result (List Sembuf)) (ops : List Sembuf)
    → prepend op r ≡ parsed ops
    → (rest : List Sembuf) × (r ≡ parsed rest) × (ops ≡ op ∷ rest)
unfolding prepend
prepend-parsed op (exits e) ops h = grind arith
prepend-parsed op (parsed rest) ops h = (rest, refl, grind arith)

parse_from_count :
    (strtol : Strtol) (room : ℕ) (remaining : Bytes) (ops : List Sembuf)
    → parse_from strtol room remaining ≡ parsed ops
    → (length ops ≡ commas remaining + 1) × (length ops ≤ room)
unfolding parse_from
parse_from_count strtol zero remaining ops e = grind arith
parse_from_count strtol (suc room) remaining ops e =
    elim (Result-cases (parse_op strtol remaining)) [
      | inl (bad, failed) ↦ absurd (grind (arith, failed))
      | inr (op, done) ↦ elim (Option-cases (after_comma remaining)) [
        | inl last ↦
            let one : parsed (op ∷ []) ≡ parsed ops = rw (parse_from, done, last) at e in
            let single : op ∷ [] ≡ ops = grind arith in
            let number = ap length single in
            let none_left = commas-none remaining last in (omega arith, omega arith)
        | inr (rest, more) ↦
            let go_on : prepend op (parse_from strtol room rest) ≡ parsed ops =
              rw (parse_from, done, more) at e in
            let (ops', parsed_rest, whole) =
              prepend-parsed op (parse_from strtol room rest) ops go_on in
            let counted = parse_from_count strtol room rest ops' parsed_rest in
            let number = ap length whole in
            let one_more = commas-some remaining rest more in (omega arith, omega arith)
      ]
    ]

-- If `parseOps` accepts an argument, it has parsed one operation for each text between commas, and no
-- more than the array `sops` has room for.
pub parse_ops_count :
    (strtol : Strtol) (arg : Bytes) (ops : List Sembuf)
    → parse_ops strtol arg ≡ parsed ops
    → (length ops ≡ commas arg + 1) × (length ops ≤ max_semops)
unfolding parse_ops
parse_ops_count strtol arg ops e = parse_from_count strtol max_semops arg ops e
