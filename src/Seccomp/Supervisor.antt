-- ===== src/Seccomp/Supervisor.antt =====
-- seccomp/seccomp_unotify_mkdir.c: `handleNotifications`.
pub mod Log
pub mod Answers
use my_notes.Common.{
  ℕ, zero, suc, Bool, true, false, ◌==◌, not, Option, none, some, Bytes, codes, length, starts_with,
  str_eq, if◌then◌else◌,
}
use my_notes.Seccomp.Target.{
  Request, Response, Received, got, interrupted, recv_error, Os, Status, fetched, bad_read,
  id_not_valid, bad_path, c_string, get_target_pathname,
}

abbrev pub einval : ℕ
einval = 22

abbrev pub eopnotsupp : ℕ
eopnotsupp = 95

-- One turn of the loop: it goes on with the buffer `path`, or the program exits.
pub data Turn (K : Type 0) : Type 0 where
  goes_on : Bytes → K → Turn K
  exits : K → Turn K

-- The loop after some turns.
pub data Loop (K : Type 0) : Type 0 where
  ended : K → Loop K
  running : K → Loop K

module _ {K : Type 0} (os : Os K) where
  unfoldable pub sleeps : ℕ → K → K
  sleeps zero k = k
  sleeps (suc d) k = sleeps d (os.sleep k)

  -- The delay of option -d, with checks before and behind it; `false` is an exit.
  abbrev pub after_check : ℕ → ℕ → Bool × K → Bool × K
  after_check delay_secs id (false, k) = (false, k)
  after_check delay_secs id (true, k) = os.notif_id_valid (sleeps delay_secs k) id

  unfoldable pub delay : ℕ → ℕ → K → Bool × K
  delay zero id k = (true, k)
  delay (suc d) id k = after_check (suc d) id (os.notif_id_valid k id)

  -- `mkdir` on behalf of the target
  abbrev pub mkdir_response : ℕ → Bytes → Option ℕ → Response
  mkdir_response id path none = record { id = id; val = length path; error = 0; continue = false }
  mkdir_response id path (some errno) = record { id = id; val = 0; error = errno; continue = false }

  abbrev pub make_directory : Request → Bytes → K → Response × K
  make_directory req path k =
      let r = os.mkdir k path (req.args 1) in (mkdir_response req.id path r.0, r.1)

  abbrev pub continue_response : ℕ → Response
  continue_response id = record { id = id; val = 0; error = 0; continue = true }

  abbrev pub error_response : ℕ → ℕ → Response
  error_response id errno = record { id = id; val = 0; error = errno; continue = false }

  unfoldable pub answer_path : Request → Bytes → K → Response × K
  answer_path req path k =
      if starts_with (codes "/tmp/") path
      then make_directory req path k
      else if starts_with (codes "./") path
      then (continue_response req.id, k)
      else (error_response req.id eopnotsupp, k)

  abbrev pub answer : Request → Status → Bytes → K → Response × K
  answer req fetched path k = answer_path req path k
  answer req bad_read path k = (error_response req.id einval, k)
  answer req id_not_valid path k = (error_response req.id einval, k)
  answer req bad_path path k = (error_response req.id einval, k)

  -- The response is sent; an error of this call is only reported.
  unfoldable pub respond : Request → (Status × Bytes) × K → Turn K
  respond req ((status, buf), k) =
      let r = answer req status (c_string buf) k in
      let k' = (os.notif_send r.1 r.0).1 in
      if str_eq (c_string buf) (codes "/bye") then exits k' else goes_on buf k'

  abbrev pub after_delay : Request → Bytes → Bool × K → Turn K
  after_delay req buf (false, k) = exits k
  after_delay req buf (true, k) = respond req (get_target_pathname os k req 0 buf)

  -- `nr_mkdir` is __NR_mkdir.
  unfoldable pub handle_request : ℕ → ℕ → Bytes → Request → K → Turn K
  handle_request nr_mkdir delay_secs buf req k =
      if not (req.nr == nr_mkdir) then exits k else after_delay req buf (delay delay_secs req.id k)

  unfoldable pub turn : ℕ → ℕ → Bytes → Received × K → Turn K
  turn nr_mkdir delay_secs buf (got req, k) = handle_request nr_mkdir delay_secs buf req k
  turn nr_mkdir delay_secs buf (interrupted, k) = goes_on buf k
  turn nr_mkdir delay_secs buf (recv_error, k) = exits k

  abbrev pub next_turn : (Bytes → K → Loop K) → Turn K → Loop K
  next_turn further (goes_on buf k) = further buf k
  next_turn further (exits k) = ended k

  -- The loop for at most so many turns.
  unfoldable pub handle_notifications : ℕ → ℕ → ℕ → Bytes → K → Loop K
  handle_notifications nr_mkdir delay_secs zero buf k = running k
  handle_notifications nr_mkdir delay_secs (suc turns) buf k =
      next_turn (handle_notifications nr_mkdir delay_secs turns)
        (turn nr_mkdir delay_secs buf (os.notif_recv k))
