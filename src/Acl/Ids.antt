-- ===== src/Acl/Ids.antt =====
-- users_groups/ugid_functions.c: names and numbers of users and groups.
use my_notes.Common.{ℕ, ◌-◌, ◌%◌, ◌^◌, Option, none, some, [], ◌∷◌, Bytes, ℤ, pos, negsuc}

-- The C library: `strtol` in base 10 with the text at `endptr`, and the entries of the password and
-- group files by name and by number.
pub record Libc : Type 0 where
  pub strtol : Bytes → ℤ × Bytes
  pub getpwnam : Bytes → Option ℕ
  pub getpwuid : ℕ → Option Bytes
  pub getgrnam : Bytes → Option ℕ
  pub getgrgid : ℕ → Option Bytes

-- -1 as a `uid_t` or `gid_t`, which are unsigned 32-bit integers
abbrev pub no_id : ℕ
no_id = 2 ^ 32 - 1

-- The conversion of a `long` to `uid_t` or `gid_t`.
unfoldable pub to_id : ℤ → ℕ
to_id (pos n) = n % 2 ^ 32
to_id (negsuc n) = 2 ^ 32 - 1 - n % 2 ^ 32

pub user_name_from_id : Libc → ℕ → Option Bytes
user_name_from_id libc uid = libc.getpwuid uid

pub group_name_from_id : Libc → ℕ → Option Bytes
group_name_from_id libc gid = libc.getgrgid gid

-- The identifier found, or -1.
abbrev pub id_or_none : Option ℕ → ℕ
id_or_none none = no_id
id_or_none (some id) = id

-- A number that `strtol` reads to its end, or else the entry that is looked up.
unfoldable pub number_or_entry : ℤ × Bytes → Option ℕ → ℕ
number_or_entry (value, []) entry = to_id value
number_or_entry (value, c ∷ rest) entry = id_or_none entry

-- The name is NULL, or a string.
unfoldable pub user_id_from_name : Libc → Option Bytes → ℕ
user_id_from_name libc none = no_id
user_id_from_name libc (some []) = no_id
user_id_from_name libc (some (c ∷ name)) =
    number_or_entry (libc.strtol (c ∷ name)) (libc.getpwnam (c ∷ name))

pub group_id_from_name : Libc → Option Bytes → ℕ
group_id_from_name libc none = no_id
group_id_from_name libc (some []) = no_id
group_id_from_name libc (some (c ∷ name)) =
    number_or_entry (libc.strtol (c ∷ name)) (libc.getgrnam (c ∷ name))
