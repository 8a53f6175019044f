-- ===== src/Programs/SemOps/RoundTrip.antt =====
-- `parseOps` reads back what is written in its notation.
use my_notes.Common.{
  ℕ, zero, suc, ◌%◌, ◌^◌, ◌≤◌, ◌<◌, ◌≡◌, ◌≢◌, refl, sym, ap, ◌∙◌, Bool, true, false, ◌||◌, ◌⊎◌, inl,
  inr, List, [], ◌∷◌, ◌++◌, append-nil, append_assoc, map, none, some, Bytes, ◌==◌, if◌then◌else◌,
  length, All, All-append, ℤ, pos, negsuc, arith,
}
use my_notes.Programs.SemOps.{
  Sembuf, parsed, Strtol, is_digit, starts_with_digit, to_short, negate_short, parse_flags, ends_op,
  finish_op, parse_value, parse_sign, parse_op, after_comma, prepend, parse_from, max_semops,
  parse_ops,
}

-- An operation as it is written: the digits of the number, the sign, the digits of the value, and the
-- flags, `true` for `n` and `false` for `u`.
pub record OpText : Type 0 where
  pub num : Bytes
  pub sign : ℕ
  pub value : Bytes
  pub flags : List Bool

abbrev pub flag_char : Bool → ℕ
flag_char true = b'n'
flag_char false = b'u'

abbrev pub text_of : OpText → Bytes
text_of t = t.num ++ t.sign ∷ (t.value ++ map flag_char t.flags)

abbrev pub join_ops : List OpText → Bytes
join_ops [] = []
join_ops (t ∷ []) = text_of t
join_ops (t ∷ u ∷ ts) = text_of t ++ b',' ∷ join_ops (u ∷ ts)

abbrev pub IsNumber : Bytes → Type 0
IsNumber ds = (ds ≢ []) × All (λ c. is_digit c ≡ true) ds

-- What strtol(3) says of base 10: it reads the digits up to the first byte that is none. `val` is the
-- value it gives to digits.
abbrev pub ReadsDigits : (Bytes → ℕ) → Strtol → Type 0
ReadsDigits val strtol =
    (ds rest : Bytes)
    → IsNumber ds
    → starts_with_digit rest ≡ false
    → strtol (ds ++ rest) ≡ (val ds, rest)

abbrev pub set_flags : Bool → Bool → List Bool → Bool × Bool
set_flags nowait undo [] = (nowait, undo)
set_flags nowait undo (true ∷ fs) = set_flags true undo fs
set_flags nowait undo (false ∷ fs) = set_flags nowait true fs

parse_flags-text :
    (nowait undo : Bool) (fs : List Bool) (rest : Bytes)
    → ends_op rest ≡ true
    → parse_flags nowait undo (map flag_char fs ++ rest)
      ≡ ((set_flags nowait undo fs).0, (set_flags nowait undo fs).1, rest)
unfolding parse_flags ends_op
parse_flags-text nowait undo [] [] e = refl
parse_flags-text nowait undo [] (c ∷ s) e =
    let comma : c ≡ b',' = ground arith in
    let not_n : (c == b'n') ≡ false = ground arith in
    let not_u : (c == b'u') ≡ false = ground arith in rw (not_n, not_u) refl
parse_flags-text nowait undo (true ∷ fs) rest e = parse_flags-text true undo fs rest e
parse_flags-text nowait undo (false ∷ fs) rest e = parse_flags-text nowait true fs rest e

flags-no_digit :
    (fs : List Bool) (rest : Bytes)
    → ends_op rest ≡ true
    → starts_with_digit (map flag_char fs ++ rest) ≡ false
unfolding ends_op starts_with_digit is_digit
flags-no_digit [] [] e = refl
flags-no_digit [] (c ∷ s) e = ground arith
flags-no_digit (true ∷ fs) rest e = refl
flags-no_digit (false ∷ fs) rest e = refl

starts_with_digit-number : (ds rest : Bytes) → IsNumber ds → starts_with_digit (ds ++ rest) ≡ true
unfolding starts_with_digit
starts_with_digit-number [] rest h = absurd (h.0 refl)
starts_with_digit-number (d ∷ ds) rest h = h.1.0

after_comma-found :
    (s rest : Bytes) → All (λ c. c ≢ b',') s → after_comma (s ++ b',' ∷ rest) ≡ some rest
unfolding after_comma
after_comma-found [] rest h = refl
after_comma-found (c ∷ s) rest h =
    let other : (c == b',') ≡ false = ground (arith, h.0) in rw other (after_comma-found s rest h.1)

after_comma-none : (s : Bytes) → All (λ c. c ≢ b',') s → after_comma s ≡ none
unfolding after_comma
after_comma-none [] h = refl
after_comma-none (c ∷ s) h =
    let other : (c == b',') ≡ false = ground (arith, h.0) in rw other (after_comma-none s h.1)

digits-no_comma : (ds : Bytes) → All (λ c. is_digit c ≡ true) ds → All (λ c. c ≢ b',') ds
unfolding is_digit
digits-no_comma [] h = tt
digits-no_comma (d ∷ ds) h = (λ e. ground (arith, h.0), digits-no_comma ds h.1)

flags-no_comma : (fs : List Bool) → All (λ c. c ≢ b',') (map flag_char fs)
flags-no_comma [] = tt
flags-no_comma (true ∷ fs) = (λ e. omega arith, flags-no_comma fs)
flags-no_comma (false ∷ fs) = (λ e. omega arith, flags-no_comma fs)

abbrev pub neg : ℕ → ℤ
neg zero = pos zero
neg (suc n) = negsuc n

to_short_small : (v : ℕ) → v < 32768 → to_short v ≡ pos v
unfolding to_short
to_short_small v h = ground arith

negate_small : (v : ℕ) → v < 32768 → negate_short (pos v) ≡ neg v
unfolding negate_short
negate_small zero h = refl
negate_small (suc n) h = refl

module _ (val : Bytes → ℕ) (strtol : Strtol) (reads : ReadsDigits val strtol) where
  -- The number that a sign and a value stand for.
  abbrev pub signed : OpText → ℤ
  signed t = if t.sign == b'-' then neg (val t.value) else pos (val t.value)

  abbrev pub meaning : OpText → Sembuf
  meaning t =
      let f = set_flags false false t.flags in
      record { sem_num = val t.num; sem_op = signed t; nowait = f.0; undo = f.1 }

  -- An operation in the notation of the usage text, with numbers that fit a `struct sembuf`: both are
  -- digits, and the sign is `+` or `-`, or it is `=` before 0, without the flag `u`.
  abbrev pub IsOpText : OpText → Type 0
  IsOpText t =
      IsNumber t.num
      × IsNumber t.value
      × (val t.num < 65536)
      × (val t.value < 32768)
      × ((t.sign ≡ b'+')
          ⊎ ((t.sign ≡ b'-') ⊎ ((t.sign ≡ b'=') × (val t.value ≡ 0) × All (λ f. f ≡ true) t.flags)))

  finish_op-text :
      (num : ℕ) (op : ℤ) (fs : List Bool) (rest : Bytes)
      → ends_op rest ≡ true
      → finish_op num op (map flag_char fs ++ rest)
        ≡ parsed (record {
          sem_num = num;
          sem_op = op;
          nowait = (set_flags false false fs).0;
          undo = (set_flags false false fs).1;
        })
  unfolding finish_op
  finish_op-text num op fs rest e = rw (parse_flags-text false false fs rest e, e) refl

  parse_value-text :
      (num : ℕ) (t : OpText) (rest : Bytes)
      → IsOpText t
      → ends_op rest ≡ true
      → parse_value strtol num t.sign (t.value ++ (map flag_char t.flags ++ rest))
        ≡ parsed (record (meaning t) { sem_num = num })
  unfolding parse_value
  parse_value-text num t rest h e =
      let tail = map flag_char t.flags ++ rest in
      let there = starts_with_digit-number t.value tail h.1 in
      let read = reads t.value tail h.1 (flags-no_digit t.flags rest e) in
      let short = to_short_small (val t.value) h.3 in
      let negated = negate_small (val t.value) h.3 in
      elim h.4 [
        | inl plus ↦
            rw (parse_value, there, read, plus, short) (finish_op-text num _ t.flags rest e)
        | inr (inl minus) ↦
            rw (parse_value, there, read, minus, short, negated)
              (finish_op-text num _ t.flags rest e)
        | inr (inr (equals, zero_value, only_n)) ↦
            rw (parse_value, there, read, equals, short, zero_value)
              (finish_op-text num _ t.flags rest e)
      ]

  parse_sign-text :
      (num : ℕ) (t : OpText) (rest : Bytes)
      → IsOpText t
      → ends_op rest ≡ true
      → parse_sign strtol num (t.sign ∷ (t.value ++ (map flag_char t.flags ++ rest)))
        ≡ parsed (record (meaning t) { sem_num = num })
  unfolding parse_sign
  parse_sign-text num t rest h e =
      let one_of : ((t.sign == b'+') || ((t.sign == b'-') || (t.sign == b'='))) ≡ true =
        ground (arith, h.4) in
      rw one_of (parse_value-text num t rest h e)

  parse_op_digit :
      (s : Bytes)
      → starts_with_digit s ≡ true
      → parse_op strtol s ≡ parse_sign strtol ((strtol s).0 % (2 ^ 16)) (strtol s).1
  unfolding parse_op starts_with_digit
  parse_op_digit [] h = grind arith
  parse_op_digit (c ∷ s) h = rw h refl

  sign-no_digit : (t : OpText) (s : Bytes) → IsOpText t → starts_with_digit (t.sign ∷ s) ≡ false
  unfolding starts_with_digit is_digit
  sign-no_digit t s h = ground (arith, h.4)

  sign-no_comma : (t : OpText) → IsOpText t → t.sign ≢ b','
  sign-no_comma t h = λ e. ground (arith, h.4)

  text_of-no_comma : (t : OpText) → IsOpText t → All (λ c. c ≢ b',') (text_of t)
  text_of-no_comma t h =
      let value = digits-no_comma t.value h.1.1 in
      let behind =
        All-append (λ c. c ≢ b',') t.value (map flag_char t.flags) value (flags-no_comma t.flags) in
      All-append (λ c. c ≢ b',') t.num _ (digits-no_comma t.num h.0.1) (sign-no_comma t h, behind)

  parse_op-text :
      (t : OpText) (rest : Bytes)
      → IsOpText t
      → ends_op rest ≡ true
      → parse_op strtol (text_of t ++ rest) ≡ parsed (meaning t)
  parse_op-text t rest h e =
      let tail = t.sign ∷ (t.value ++ (map flag_char t.flags ++ rest)) in
      let whole : text_of t ++ rest ≡ t.num ++ tail =
        append_assoc t.num (t.sign ∷ (t.value ++ map flag_char t.flags)) rest
        ∙ ap (λ l. t.num ++ t.sign ∷ l) (append_assoc t.value (map flag_char t.flags) rest) in
      let no_digit : starts_with_digit tail ≡ false = sign-no_digit t _ h in
      let read = reads t.num tail h.0 no_digit in
      let fits : val t.num % (2 ^ 16) ≡ val t.num = ground (arith, h.2) in
      rw whole (
        parse_op_digit (t.num ++ tail) (starts_with_digit-number t.num tail h.0)
        ∙ ap (λ r. parse_sign strtol (r.0 % (2 ^ 16)) r.1) read
        ∙ ap (λ n. parse_sign strtol n tail) fits
        ∙ parse_sign-text (val t.num) t rest h e)

  parse_from-join :
      (room : ℕ) (t : OpText) (ts : List OpText)
      → All IsOpText (t ∷ ts)
      → length (t ∷ ts) ≤ room
      → parse_from strtol room (join_ops (t ∷ ts)) ≡ parsed (map meaning (t ∷ ts))
  unfolding parse_from ends_op prepend
  parse_from-join zero t ts h fits = absurd (omega arith)
  parse_from-join (suc room) t [] h fits =
      let op : parse_op strtol (text_of t) ≡ parsed (meaning t) =
        ap (λ s. parse_op strtol s) (sym (append-nil (text_of t))) ∙ parse_op-text t [] h.0 refl in
      rw (parse_from, op, after_comma-none (text_of t) (text_of-no_comma t h.0)) refl
  parse_from-join (suc room) t (u ∷ ts) h fits =
      let rest = join_ops (u ∷ ts) in
      let comma = after_comma-found (text_of t) rest (text_of-no_comma t h.0) in
      rw
        (
          parse_from,
          parse_op-text t (b',' ∷ rest) h.0 refl,
          comma,
          parse_from-join room u ts h.1 (omega arith),
        )
        refl

  -- Operations in the notation of the usage text, joined with commas, are parsed to what they say, if
  -- there are at least one and at most 1000: the semaphore number, the value, negated behind a minus
  -- sign, and the flags that occur. Numbers fit the fields: they are below 65536 for a semaphore and
  -- below 32768 for a value. strtol reads digits as documented.
  pub parse_ops-join_ops :
      (t : OpText) (ts : List OpText)
      → All IsOpText (t ∷ ts)
      → length (t ∷ ts) ≤ max_semops
      → parse_ops strtol (join_ops (t ∷ ts)) ≡ parsed (map meaning (t ∷ ts))
  unfolding parse_ops
  parse_ops-join_ops t ts h fits = parse_from-join max_semops t ts h fits
