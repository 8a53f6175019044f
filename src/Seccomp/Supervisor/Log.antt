-- ===== src/Seccomp/Supervisor/Log.antt =====
-- The calls by which the supervisor of seccomp/seccomp_unotify_mkdir.c serves requests.
use my_notes.Common.{
  ℕ, zero, suc, ◌≡◌, ◌≢◌, refl, ◌∙◌, Bool, true, false, List, [], ◌∷◌, ◌++◌, Option, none, some,
  Bytes, codes, length, starts_with,
}
use my_notes.Seccomp.Target.{
  Request, Response, got, interrupted, recv_error, Os, after_pread, read_memory, after_open,
  get_target_pathname,
}
use my_notes.Seccomp.Supervisor.{sleeps, after_check, delay}

-- The calls that have to do with requests: a request that was received, a directory that was made or an
-- `errno`, and a response that was sent.
pub data Event : Type 0 where
  received : ℕ → Event
  made : Bytes → ℕ → Option ℕ → Event
  sent : Response → Event

-- The log has these calls in order, and no others, and a failing `mkdir` sets `errno`.
pub record IsLogged {K : Type 0} (os : Os K) (log : K → List Event) : Type 0 where
  pub receives :
      (k : K) (req : Request)
      → (os.notif_recv k).0 ≡ got req
      → log (os.notif_recv k).1 ≡ log k ++ received req.id ∷ []
  pub interrupts : (k : K) → (os.notif_recv k).0 ≡ interrupted → log (os.notif_recv k).1 ≡ log k
  pub recv_errors : (k : K) → (os.notif_recv k).0 ≡ recv_error → log (os.notif_recv k).1 ≡ log k
  pub sends : (k : K) (r : Response) → log (os.notif_send k r).1 ≡ log k ++ sent r ∷ []
  pub makes :
      (k : K) (path : Bytes) (mode : ℕ)
      → log (os.mkdir k path mode).1 ≡ log k ++ made path mode (os.mkdir k path mode).0 ∷ []
  pub mkdir_errno :
      (k : K) (path : Bytes) (mode errno : ℕ) → (os.mkdir k path mode).0 ≡ some errno → errno ≢ 0
  pub validates : (k : K) (id : ℕ) → log (os.notif_id_valid k id).1 ≡ log k
  pub opens : (k : K) (pid : ℕ) → log (os.open_mem k pid).1 ≡ log k
  pub preads : (k : K) (fd len offset : ℕ) → log (os.pread k fd len offset).1 ≡ log k
  pub closes : (k : K) (fd : ℕ) → log (os.close k fd) ≡ log k
  pub sleep_log : (k : K) → log (os.sleep k) ≡ log k

-- The calls for a request behind its receipt: a response to it that is an error or lets the kernel go on,
-- or one `mkdir` of a pathname that begins with /tmp/ and a response with its result.
pub data Answered (id : ℕ) : List Event → Type 0 where
  refuses : (r : Response) → r.id ≡ id → r.error ≢ 0 → Answered id (sent r ∷ [])
  continues : (r : Response) → r.id ≡ id → r.continue ≡ true → Answered id (sent r ∷ [])
  makes_it :
      (path : Bytes) (mode : ℕ) (r : Response)
      → starts_with (codes "/tmp/") path ≡ true
      → r ≡ record { id = id; val = length path; error = 0; continue = false }
      → Answered id (made path mode none ∷ sent r ∷ [])
  passes_error :
      (path : Bytes) (mode errno : ℕ) (r : Response)
      → starts_with (codes "/tmp/") path ≡ true
      → errno ≢ 0
      → r ≡ record { id = id; val = 0; error = errno; continue = false }
      → Answered id (made path mode (some errno) ∷ sent r ∷ [])

-- The requests are answered one after the other. There may be no answer to the last one.
pub data Served : List Event → Type 0 where
  nothing : Served []
  given_up : (id : ℕ) → Served (received id ∷ [])
  answered :
      (id : ℕ) (g es : List Event) → Answered id g → Served es → Served (received id ∷ (g ++ es))

module _ {K : Type 0} (os : Os K) (log : K → List Event) (doc : IsLogged os log) where
  after_pread-log :
      (id : ℕ) (buf : Bytes) (b : Option Bytes) (k : K) → log (after_pread os id buf b k).1 ≡ log k
  after_pread-log id buf none k = refl
  after_pread-log id buf (some []) k = refl
  after_pread-log id buf (some (b ∷ bytes)) k = doc.validates k id

  read_memory-log :
      (req : Request) (arg_num : ℕ) (buf : Bytes) (fd : ℕ) (v : Bool × K)
      → log (read_memory os req arg_num buf fd v).1 ≡ log v.1
  read_memory-log req arg_num buf fd (false, k) = doc.closes k fd
  read_memory-log req arg_num buf fd (true, k) =
      let r = os.pread k fd (length buf) (req.args arg_num) in
      after_pread-log req.id buf r.0 (os.close r.1 fd)
      ∙ (doc.closes r.1 fd ∙ doc.preads k fd (length buf) (req.args arg_num))

  after_open-log :
      (req : Request) (arg_num : ℕ) (buf : Bytes) (o : Option ℕ × K)
      → log (after_open os req arg_num buf o).1 ≡ log o.1
  after_open-log req arg_num buf (none, k) = refl
  after_open-log req arg_num buf (some fd, k) =
      read_memory-log req arg_num buf fd (os.notif_id_valid k req.id) ∙ doc.validates k req.id

  pub get_target_pathname-log :
      (k : K) (req : Request) (arg_num : ℕ) (buf : Bytes)
      → log (get_target_pathname os k req arg_num buf).1 ≡ log k
  unfolding get_target_pathname
  get_target_pathname-log k req arg_num buf =
      after_open-log req arg_num buf (os.open_mem k req.pid) ∙ doc.opens k req.pid

  sleeps-log : (d : ℕ) (k : K) → log (sleeps os d k) ≡ log k
  unfolding sleeps
  sleeps-log zero k = refl
  sleeps-log (suc d) k = sleeps-log d (os.sleep k) ∙ doc.sleep_log k

  after_check-log : (d id : ℕ) (v : Bool × K) → log (after_check os d id v).1 ≡ log v.1
  after_check-log d id (false, k) = refl
  after_check-log d id (true, k) = doc.validates (sleeps os d k) id ∙ sleeps-log d k

  pub delay-log : (d id : ℕ) (k : K) → log (delay os d id k).1 ≡ log k
  unfolding delay
  delay-log zero id k = refl
  delay-log (suc d) id k = after_check-log (suc d) id (os.notif_id_valid k id) ∙ doc.validates k id
