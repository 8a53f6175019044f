-- ===== src/Programs/GetNum/Accepted.antt =====
-- Which arguments `getLong` and `getInt` accept.
use my_notes.Common.{
  ◌≡◌, ◌↔◌, ◌≢◌, true, false, [], ◌∷◌, Option, some, Bytes, ℤ, is_nonneg, codes, arith,
}
use my_notes.Programs.GetNum.{
  Flags, Parsed, Strtol, number, gn_fail, base_of, is_positive, is_empty, check_num, get_num,
  get_long, in_int, check_int, get_int,
}

-- The argument is not empty, `strtol` reads all of it without an error, and the value satisfies the
-- flags.
abbrev pub Accepts : Strtol → Bytes → Flags → ℤ → Type 0
Accepts strtol arg flags r =
    let parsed = strtol arg (base_of flags) in
    (arg ≢ [])
    × (parsed.res ≡ r)
    × (parsed.endptr ≡ [])
    × (parsed.has_errno ≡ false)
    × (flags.nonneg ≡ true → is_nonneg r ≡ true)
    × (flags.gt_0 ≡ true → is_positive r ≡ true)

check_num_iff :
    (fname arg : Bytes) (flags : Flags) (name : Option Bytes) (parsed : Parsed) (r : ℤ)
    → (check_num fname arg flags name parsed ≡ number r) ↔ (
        (parsed.res ≡ r)
        × (parsed.endptr ≡ [])
        × (parsed.has_errno ≡ false)
        × (flags.nonneg ≡ true → is_nonneg r ≡ true)
        × (flags.gt_0 ≡ true → is_positive r ≡ true))
unfolding check_num gn_fail is_empty
check_num_iff fname arg flags name parsed r = ground arith

-- `getLong` of a string returns `r` exactly if the string is not empty, `strtol` reads all of it in the
-- base of the flags as `r` without an error, and `r` is not negative and positive where the flags ask
-- for it.
pub get_long_iff :
    (strtol : Strtol) (arg : Bytes) (flags : Flags) (name : Option Bytes) (r : ℤ)
    → (get_long strtol (some arg) flags name ≡ number r) ↔ Accepts strtol arg flags r
unfolding get_long get_num gn_fail
get_long_iff strtol [] flags name r = ground arith
get_long_iff strtol (c ∷ arg) flags name r = ground (
  arith,
  check_num_iff (codes "getLong") (c ∷ arg) flags name (strtol (c ∷ arg) (base_of flags)) r,
)

-- `getInt` of a string returns `r` exactly under the conditions of `getLong`, and if `r` fits an `int`.
pub get_int_iff :
    (strtol : Strtol) (arg : Bytes) (flags : Flags) (name : Option Bytes) (r : ℤ)
    → (get_int strtol (some arg) flags name ≡ number r)
      ↔ (Accepts strtol arg flags r × (in_int r ≡ true))
unfolding get_int get_num gn_fail check_int
get_int_iff strtol [] flags name r = ground arith
get_int_iff strtol (c ∷ arg) flags name r = ground (
  arith,
  check_num_iff (codes "getInt") (c ∷ arg) flags name (strtol (c ∷ arg) (base_of flags)) r,
)
