-- ===== src/Programs/SemOps.antt =====
-- `parseOps` of svsem/svsem_op.c.
pub mod Counting
pub mod RoundTrip
mod Tests
use my_notes.Common.{
  ℕ, zero, suc, ◌+◌, ◌-◌, ◌%◌, ◌^◌, Bool, true, false, ◌&&◌, ◌||◌, not, List, [], ◌∷◌, Option, none,
  some, Bytes, ltb, leb, ℤ, pos, negsuc, eq_ℤ, ◌==◌, if◌then◌else◌,
}

-- `struct sembuf`, with the two bits of `sem_flg`.
pub record Sembuf : Type 0 where
  pub sem_num : ℕ
  pub sem_op : ℤ
  pub nowait : Bool
  pub undo : Bool

-- The diagnostics with which the process exits, in the order of the source.
pub data BadArg : Type 0 where
  too_many : BadArg
  trailing_comma : BadArg
  no_initial_digit : BadArg
  no_sign : BadArg
  no_digit_after_sign : BadArg
  nonzero_equals : BadArg
  bad_trailing : BadArg

pub data Result (A : Type 0) : Type 0 where
  exits : BadArg → Result A
  parsed : A → Result A

-- `strtol` in base 10 of a string that begins with a digit: the value and the text at `endptr`.
abbrev pub Strtol : Type 0
Strtol = Bytes → ℕ × Bytes

unfoldable pub is_digit : ℕ → Bool
is_digit c = leb 48 c && leb c 57

unfoldable pub starts_with_digit : Bytes → Bool
starts_with_digit [] = false
starts_with_digit (c ∷ s) = is_digit c

-- The conversion of a `long` to `short`.
unfoldable pub to_short : ℕ → ℤ
to_short v = let m = v % (2 ^ 16) in if ltb m (2 ^ 15) then pos m else negsuc (2 ^ 16 - 1 - m)

-- `- sem_op`, stored in a `short`
unfoldable pub negate_short : ℤ → ℤ
negate_short (pos zero) = pos 0
negate_short (pos (suc n)) = negsuc n
negate_short (negsuc n) = to_short (n + 1)

-- The loop over the flags: `IPC_NOWAIT`, `SEM_UNDO`, and the text behind them.
parse_flags : Bool → Bool → Bytes → Bool × Bool × Bytes
parse_flags nowait undo [] = (nowait, undo, [])
parse_flags nowait undo (c ∷ s) =
    let with_n = parse_flags true undo s in
    let with_u = parse_flags nowait true s in
    if c == b'n' then with_n else (if c == b'u' then with_u else (nowait, undo, c ∷ s))

-- `*flags == ',' || *flags == '\0'`
ends_op : Bytes → Bool
ends_op [] = true
ends_op (c ∷ s) = c == b','

-- The flags and the end of an operation.
finish_op : ℕ → ℤ → Bytes → Result Sembuf
finish_op sem_num sem_op flags =
    let f = parse_flags false false flags in
    if ends_op f.2
    then parsed (record { sem_num = sem_num; sem_op = sem_op; nowait = f.0; undo = f.1 })
    else exits bad_trailing

-- The operation behind the sign `c`.
parse_value : Strtol → ℕ → ℕ → Bytes → Result Sembuf
parse_value strtol sem_num c s =
    if not (starts_with_digit s)
    then exits no_digit_after_sign
    else (let v = strtol s in
        let sem_op = to_short v.0 in
        if c == b'-'
        then finish_op sem_num (negate_short sem_op) v.1
        else (if (c == b'=') && not (eq_ℤ sem_op (pos 0))
            then exits nonzero_equals
            else finish_op sem_num sem_op v.1))

-- From the sign on.
parse_sign : Strtol → ℕ → Bytes → Result Sembuf
parse_sign strtol sem_num [] = exits no_sign
parse_sign strtol sem_num (c ∷ s) =
    if (c == b'+') || ((c == b'-') || (c == b'='))
    then parse_value strtol sem_num c s
    else exits no_sign

parse_op : Strtol → Bytes → Result Sembuf
parse_op strtol [] = exits trailing_comma
parse_op strtol (c ∷ s) =
    if is_digit c
    then (let v = strtol (c ∷ s) in parse_sign strtol (v.0 % (2 ^ 16)) v.1)
    else exits no_initial_digit

-- `strchr(remaining, ',')`, and the text behind the comma
after_comma : Bytes → Option Bytes
after_comma [] = none
after_comma (c ∷ s) = let rest = after_comma s in if c == b',' then some s else rest

prepend : Sembuf → Result (List Sembuf) → Result (List Sembuf)
prepend op (exits e) = exits e
prepend op (parsed ops) = parsed (op ∷ ops)

-- The loop, with room for so many operations in `sops`.
parse_from : Strtol → ℕ → Bytes → Result (List Sembuf)
parse_from strtol zero remaining = exits too_many
parse_from strtol (suc room) remaining = elim (parse_op strtol remaining) [
  | exits e ↦ exits e
  | parsed op ↦ elim (after_comma remaining) [
    | none ↦ parsed (op ∷ [])
    | some rest ↦ prepend op (parse_from strtol room rest)
  ]
]

abbrev pub max_semops : ℕ
max_semops = 1000

pub parse_ops : Strtol → Bytes → Result (List Sembuf)
parse_ops strtol arg = parse_from strtol max_semops arg
