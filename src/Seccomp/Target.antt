-- ===== src/Seccomp/Target.antt =====
-- seccomp/seccomp_functions.c: `getTargetPathname`, and the system calls of the supervisor.
use my_notes.Common.{
  ℕ, Bool, true, false, [], ◌∷◌, ◌++◌, Option, none, some, Bytes, cut, drop, length, if◌then◌else◌,
  is_some,
}

-- `struct seccomp_notif`
pub record Request : Type 0 where
  pub id : ℕ
  pub pid : ℕ
  pub nr : ℕ
  pub args : ℕ → ℕ

-- `struct seccomp_notif_resp`, where `error` is what is negated in the source, and `continue` is the flag
-- SECCOMP_USER_NOTIF_FLAG_CONTINUE.
pub record Response : Type 0 where
  pub id : ℕ
  pub val : ℕ
  pub error : ℕ
  pub continue : Bool

-- What SECCOMP_IOCTL_NOTIF_RECV returns: a request, -1 with EINTR, or -1 with another error.
pub data Received : Type 0 where
  got : Request → Received
  interrupted : Received
  recv_error : Received

-- The system calls over a state of the kernel. `none` is a failure of `open` and `pread`; `mkdir` gives `errno`
-- where it fails.
pub record Os (K : Type 0) : Type 0 where
  pub notif_recv : K → Received × K
  pub notif_id_valid : K → ℕ → Bool × K
  pub notif_send : K → Response → Bool × K
  pub open_mem : K → ℕ → Option ℕ × K
  pub pread : K → ℕ → ℕ → ℕ → Option Bytes × K
  pub close : K → ℕ → K
  pub mkdir : K → Bytes → ℕ → Option ℕ × K
  pub sleep : K → K

-- The result of `getTargetPathname`: 0, GTP_BAD_READ, GTP_ID_NOT_VALID or GTP_BAD_PATH.
pub data Status : Type 0 where
  fetched bad_read id_not_valid bad_path : Status

-- `pread` writes to the beginning of the buffer.
abbrev pub overwrite : Bytes → Bytes → Bytes
overwrite bytes buf = bytes ++ drop (length bytes) buf

-- The string in a buffer: what stands before the first NUL.
abbrev pub c_string : Bytes → Bytes
c_string buf = (cut 0 buf).0

-- `strnlen(path, nread) < nread`
abbrev pub has_nul : Bytes → Bool
has_nul bytes = is_some (cut 0 bytes).1

module _ {K : Type 0} (os : Os K) where
  -- The second check of the notification ID, and the check for a NUL.
  abbrev pub check_path : ℕ → Bytes → Bytes → K → (Status × Bytes) × K
  check_path id bytes buf k =
      let v = os.notif_id_valid k id in
      (
        (
          if v.0 then (if has_nul bytes then fetched else bad_path) else id_not_valid,
          overwrite bytes buf,
        ),
        v.1,
      )

  abbrev pub after_pread : ℕ → Bytes → Option Bytes → K → (Status × Bytes) × K
  after_pread id buf none k = ((bad_read, buf), k)
  after_pread id buf (some []) k = ((bad_read, buf), k)
  after_pread id buf (some (b ∷ bytes)) k = check_path id (b ∷ bytes) buf k

  abbrev pub read_memory : Request → ℕ → Bytes → ℕ → Bool × K → (Status × Bytes) × K
  read_memory req arg_num buf fd (false, k) = ((id_not_valid, buf), os.close k fd)
  read_memory req arg_num buf fd (true, k) =
      let r = os.pread k fd (length buf) (req.args arg_num) in
      after_pread req.id buf r.0 (os.close r.1 fd)

  abbrev pub after_open : Request → ℕ → Bytes → Option ℕ × K → (Status × Bytes) × K
  after_open req arg_num buf (none, k) = ((bad_read, buf), k)
  after_open req arg_num buf (some fd, k) =
      read_memory req arg_num buf fd (os.notif_id_valid k req.id)

  -- The result, and the buffer `path` behind the call.
  unfoldable pub get_target_pathname : K → Request → ℕ → Bytes → (Status × Bytes) × K
  get_target_pathname k req arg_num buf = after_open req arg_num buf (os.open_mem k req.pid)
