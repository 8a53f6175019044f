-- ===== src/Programs/GetNum.antt =====
-- `getNum`, `getLong` and `getInt` of lib/get_num.c.
pub mod Accepted
use my_notes.Common.{
  ℕ, ◌+◌, ◌-◌, ◌^◌, Bool, true, false, not, ◌&&◌, ◌||◌, List, [], ◌∷◌, ◌++◌, Option, none, some,
  Bytes, codes, leb, ltb, ℤ, pos, negsuc, is_nonneg, ◌==◌, if◌then◌else◌,
}

-- The bits of `flags`.
pub record Flags : Type 0 where
  pub nonneg : Bool
  pub gt_0 : Bool
  pub any_base : Bool
  pub base_8 : Bool
  pub base_16 : Bool

-- What `strtol` returns: the value, the text from `endptr` on, and whether it set `errno`.
pub record Parsed : Type 0 where
  pub res : ℤ
  pub endptr : Bytes
  pub has_errno : Bool

-- `strtol` of a string in a base
abbrev pub Strtol : Type 0
Strtol = Bytes → ℕ → Parsed

-- A number, or the text on standard error with which the process exits.
pub data Result : Type 0 where
  number : ℤ → Result
  exits : Bytes → Result

-- `gnFail`; a string is `none` if its pointer is NULL.
in_name : Option Bytes → Bytes
in_name none = []
in_name (some name) = codes " (in " ++ name ++ codes ")"

offending : Option Bytes → Bytes
offending none = []
offending (some []) = []
offending (some (c ∷ arg)) = codes "        offending text: " ++ (c ∷ arg) ++ 10 ∷ []

gn_fail : Bytes → Bytes → Option Bytes → Option Bytes → Result
gn_fail fname msg arg name =
    exits (fname ++ codes " error" ++ in_name name ++ codes ": " ++ msg ++ 10 ∷ [] ++ offending arg)

unfoldable pub base_of : Flags → ℕ
base_of flags =
    if flags.any_base then 0 else (if flags.base_8 then 8 else (if flags.base_16 then 16 else 10))

-- `res > 0`
abbrev pub is_positive : ℤ → Bool
is_positive (pos n) = ltb 0 n
is_positive (negsuc n) = false

is_empty : Bytes → Bool
is_empty [] = true
is_empty (c ∷ s) = false

-- The checks of `getNum` behind the call of `strtol`.
check_num : Bytes → Bytes → Flags → Option Bytes → Parsed → Result
check_num fname arg flags name parsed =
    if parsed.has_errno
    then gn_fail fname (codes "strtol() failed") (some arg) name
    else (if not (is_empty parsed.endptr)
        then gn_fail fname (codes "nonnumeric characters") (some arg) name
        else (if flags.nonneg && not (is_nonneg parsed.res)
            then gn_fail fname (codes "negative value not allowed") (some arg) name
            else (if flags.gt_0 && not (is_positive parsed.res)
                then gn_fail fname (codes "value must be > 0") (some arg) name
                else number parsed.res)))

get_num : Strtol → Bytes → Option Bytes → Flags → Option Bytes → Result
get_num strtol fname none flags name = gn_fail fname (codes "null or empty string") none name
get_num strtol fname (some []) flags name =
    gn_fail fname (codes "null or empty string") (some []) name
get_num strtol fname (some (c ∷ arg)) flags name =
    check_num fname (c ∷ arg) flags name (strtol (c ∷ arg) (base_of flags))

pub get_long : Strtol → Option Bytes → Flags → Option Bytes → Result
get_long strtol arg flags name = get_num strtol (codes "getLong") arg flags name

-- `res <= INT_MAX && res >= INT_MIN`, for an `int` of 32 bits
unfoldable pub in_int : ℤ → Bool
in_int (pos n) = ltb n (2 ^ 31)
in_int (negsuc n) = ltb n (2 ^ 31)

check_int : Option Bytes → Option Bytes → Result → Result
check_int arg name (exits text) = exits text
check_int arg name (number res) =
    if in_int res
    then number res
    else gn_fail (codes "getInt") (codes "integer out of range") arg name

pub get_int : Strtol → Option Bytes → Flags → Option Bytes → Result
get_int strtol arg flags name = check_int arg name (get_num strtol (codes "getInt") arg flags name)
