-- ===== src/Seccomp/Supervisor/Answers.antt =====
-- What the supervisor of seccomp/seccomp_unotify_mkdir.c does for each request.
use my_notes.Common.{
  ℕ, zero, suc, ◌≡◌, ◌≢◌, refl, sym, ap, ◌∙◌, ◌⊎◌, inl, inr, Bool, true, false, Bool-cases, ◌==◌,
  List, [], ◌∷◌, ◌++◌, append_assoc, append-nil, Option, none, some, Bytes, codes, starts_with,
  str_eq, arith,
}
use my_notes.Seccomp.Target.{
  Request, Response, Received, got, interrupted, recv_error, Os, Status, fetched, bad_read,
  id_not_valid, bad_path, c_string, get_target_pathname,
}
use my_notes.Seccomp.Supervisor.{
  einval, eopnotsupp, Turn, goes_on, exits, Loop, ended, running, delay, mkdir_response,
  make_directory, continue_response, error_response, answer_path, answer, respond, after_delay,
  handle_request, turn, next_turn, handle_notifications,
}
use my_notes.Seccomp.Supervisor.Log.{
  Event, received, made, sent, IsLogged, Answered, refuses, continues, makes_it, passes_error,
  Served, nothing, given_up, answered, get_target_pathname-log, delay-log,
}

module _ {K : Type 0} (os : Os K) (log : K → List Event) (doc : IsLogged os log) where
  -- A response, with what was done for it.
  Answers : ℕ → K → Response × K → Type 0
  Answers id k r = (g : List Event) × (log r.1 ≡ log k ++ g) × Answered id (g ++ sent r.0 ∷ [])

  error-Answers : (id errno : ℕ) (k : K) → errno ≢ 0 → Answers id k (error_response os id errno, k)
  unfolding Answers
  error-Answers id errno k ne =
      ([], sym (append-nil (log k)), refuses (error_response os id errno) refl ne)

  continue-Answers : (id : ℕ) (k : K) → Answers id k (continue_response os id, k)
  unfolding Answers
  continue-Answers id k =
      ([], sym (append-nil (log k)), continues (continue_response os id) refl refl)

  made-Answered :
      (id : ℕ) (path : Bytes) (mode : ℕ) (r : Option ℕ)
      → starts_with (codes "/tmp/") path ≡ true
      → ((errno : ℕ) → r ≡ some errno → errno ≢ 0)
      → Answered id (made path mode r ∷ sent (mkdir_response os id path r) ∷ [])
  made-Answered id path mode none below ne =
      makes_it path mode (mkdir_response os id path none) below refl
  made-Answered id path mode (some errno) below ne =
      passes_error path mode errno (mkdir_response os id path (some errno)) below (ne errno refl)
        refl

  make_directory-Answers :
      (req : Request) (path : Bytes) (k : K)
      → starts_with (codes "/tmp/") path ≡ true
      → Answers req.id k (make_directory os req path k)
  unfolding Answers
  make_directory-Answers req path k below = (
    made path (req.args 1) (os.mkdir k path (req.args 1)).0 ∷ [],
    doc.makes k path (req.args 1),
    made-Answered req.id path (req.args 1) (os.mkdir k path (req.args 1)).0 below
        (doc.mkdir_errno k path (req.args 1)),
  )

  answer_path-Answers :
      (req : Request) (path : Bytes) (k : K) → Answers req.id k (answer_path os req path k)
  unfolding answer_path
  answer_path-Answers req path k = elim (Bool-cases (starts_with (codes "/tmp/") path)) [
    | inl below ↦ rw (answer_path, below) (make_directory-Answers req path k below)
    | inr other ↦ elim (Bool-cases (starts_with (codes "./") path)) [
      | inl relative ↦ rw (answer_path, other, relative) (continue-Answers req.id k)
      | inr neither ↦
          rw (answer_path, other, neither) (error-Answers req.id eopnotsupp k (λ e. omega arith))
    ]
  ]

  answer-Answers :
      (req : Request) (status : Status) (path : Bytes) (k : K)
      → Answers req.id k (answer os req status path k)
  answer-Answers req fetched path k = answer_path-Answers req path k
  answer-Answers req bad_read path k = error-Answers req.id einval k (λ e. omega arith)
  answer-Answers req id_not_valid path k = error-Answers req.id einval k (λ e. omega arith)
  answer-Answers req bad_path path k = error-Answers req.id einval k (λ e. omega arith)

  -- What a turn adds to the log behind the receipt; only an exit may add nothing.
  AnswersTurn : ℕ → K → Turn K → Type 0
  AnswersTurn id k (goes_on buf k') = (g : List Event) × (log k' ≡ log k ++ g) × Answered id g
  AnswersTurn id k (exits k') =
      (log k' ≡ log k) ⊎ ((g : List Event) × (log k' ≡ log k ++ g) × Answered id g)

  respond-AnswersTurn :
      (req : Request) (r : (Status × Bytes) × K) → AnswersTurn req.id r.1 (respond os req r)
  unfolding respond AnswersTurn Answers
  respond-AnswersTurn req ((status, buf), k) =
      let r = answer os req status (c_string buf) k in
      let (g, logged, good) = answer-Answers req status (c_string buf) k in
      let k' = (os.notif_send r.1 r.0).1 in
      let whole : log k' ≡ log k ++ (g ++ sent r.0 ∷ []) =
        doc.sends r.1 r.0
        ∙ (ap (λ l. l ++ sent r.0 ∷ []) logged ∙ append_assoc (log k) g (sent r.0 ∷ [])) in
      elim (Bool-cases (str_eq (c_string buf) (codes "/bye"))) [
        | inl bye ↦ rw (respond, bye) (inr (g ++ sent r.0 ∷ [], whole, good))
        | inr other ↦ rw (respond, other) (g ++ sent r.0 ∷ [], whole, good)
      ]

  AnswersTurn-same :
      (id : ℕ) (k k1 : K) (t : Turn K) → log k1 ≡ log k → AnswersTurn id k1 t → AnswersTurn id k t
  unfolding AnswersTurn
  AnswersTurn-same id k k1 (goes_on buf k') e (g, logged, good) =
      (g, logged ∙ ap (λ l. l ++ g) e, good)
  AnswersTurn-same id k k1 (exits k') e (inl same) = inl (same ∙ e)
  AnswersTurn-same id k k1 (exits k') e (inr (g, logged, good)) =
      inr (g, logged ∙ ap (λ l. l ++ g) e, good)

  after_delay-AnswersTurn :
      (req : Request) (buf : Bytes) (v : Bool × K)
      → AnswersTurn req.id v.1 (after_delay os req buf v)
  unfolding AnswersTurn
  after_delay-AnswersTurn req buf (false, k) = inl refl
  after_delay-AnswersTurn req buf (true, k) =
      let r = get_target_pathname os k req 0 buf in
      AnswersTurn-same req.id k r.1 (respond os req r)
        (get_target_pathname-log os log doc k req 0 buf) (respond-AnswersTurn req r)

  handle_request-AnswersTurn :
      (nr_mkdir delay_secs : ℕ) (buf : Bytes) (req : Request) (k : K)
      → AnswersTurn req.id k (handle_request os nr_mkdir delay_secs buf req k)
  unfolding handle_request AnswersTurn
  handle_request-AnswersTurn nr_mkdir delay_secs buf req k =
      elim (Bool-cases (req.nr == nr_mkdir)) [
        | inr other ↦ rw (handle_request, other) (inl refl)
        | inl same ↦
            let v = delay os delay_secs req.id k in
            rw (handle_request, same)
              (AnswersTurn-same req.id k v.1 (after_delay os req buf v)
                (delay-log os log doc delay_secs req.id k) (after_delay-AnswersTurn req buf v))
      ]

  -- The requests so far are served, or the last turn has ended the program.
  record Complete (es : List Event) : Type 0 where
    extends : (later : List Event) → Served later → Served (es ++ later)

  Complete-nil : Complete []
  Complete-nil = record { extends = λ later h. h }

  Complete-received : (id : ℕ) (g : List Event) → Answered id g → Complete (received id ∷ g)
  Complete-received id g good = record { extends = λ later h. answered id g later good h }

  ServesTurn : K → Turn K → Type 0
  ServesTurn k (goes_on buf k') = (es : List Event) × (log k' ≡ log k ++ es) × Complete es
  ServesTurn k (exits k') = (es : List Event) × (log k' ≡ log k ++ es) × Served es

  received-ServesTurn :
      (k k1 : K) (id : ℕ) (t : Turn K)
      → log k1 ≡ log k ++ received id ∷ []
      → AnswersTurn id k1 t
      → ServesTurn k t
  unfolding ServesTurn AnswersTurn
  received-ServesTurn k k1 id (goes_on buf k') e (g, logged, good) = (
    received id ∷ g,
    logged ∙ (ap (λ l. l ++ g) e ∙ append_assoc (log k) (received id ∷ []) g),
    Complete-received id g good,
  )
  received-ServesTurn k k1 id (exits k') e (inl same) = (received id ∷ [], same ∙ e, given_up id)
  received-ServesTurn k k1 id (exits k') e (inr (g, logged, good)) = (
    received id ∷ (g ++ []),
    logged
        ∙ (ap (λ l. l ++ g) e
            ∙ (append_assoc (log k) (received id ∷ []) g
                ∙ ap (λ l. log k ++ received id ∷ l) (sym (append-nil g)))),
    answered id g [] good nothing,
  )

  turn-ServesTurn :
      (nr_mkdir delay_secs : ℕ) (buf : Bytes) (k : K)
      → ServesTurn k (turn os nr_mkdir delay_secs buf (os.notif_recv k))
  unfolding turn ServesTurn
  turn-ServesTurn nr_mkdir delay_secs buf k = go (os.notif_recv k).0 refl
    where
      go :
          (r : Received)
          → (os.notif_recv k).0 ≡ r
          → ServesTurn k
              (turn os nr_mkdir delay_secs buf ((os.notif_recv k).0, (os.notif_recv k).1))
      go (got req) e =
          rw (turn, e)
            (received-ServesTurn k (os.notif_recv k).1 req.id _ (doc.receives k req e)
              (handle_request-AnswersTurn nr_mkdir delay_secs buf req (os.notif_recv k).1))
      go interrupted e =
          rw (turn, e) ([], doc.interrupts k e ∙ sym (append-nil (log k)), Complete-nil)
      go recv_error e = rw (turn, e) ([], doc.recv_errors k e ∙ sym (append-nil (log k)), nothing)

  -- The program has served the requests that it has received.
  abbrev pub ServesLoop : K → Loop K → Type 0
  ServesLoop k (ended k') = (es : List Event) × (log k' ≡ log k ++ es) × Served es
  ServesLoop k (running k') = (es : List Event) × (log k' ≡ log k ++ es) × Served es

  ServesLoop-later :
      (k k1 : K) (es : List Event) (l : Loop K)
      → log k1 ≡ log k ++ es
      → Complete es
      → ServesLoop k1 l
      → ServesLoop k l
  ServesLoop-later k k1 es (ended k') e done (later, logged, served) = (
    es ++ later,
    logged ∙ (ap (λ l. l ++ later) e ∙ append_assoc (log k) es later),
    done.extends later served,
  )
  ServesLoop-later k k1 es (running k') e done (later, logged, served) = (
    es ++ later,
    logged ∙ (ap (λ l. l ++ later) e ∙ append_assoc (log k) es later),
    done.extends later served,
  )

  next_turn-ServesLoop :
      (k : K) (further : Bytes → K → Loop K) (t : Turn K)
      → ServesTurn k t
      → ((buf : Bytes) (k' : K) → ServesLoop k' (further buf k'))
      → ServesLoop k (next_turn os further t)
  unfolding ServesTurn
  next_turn-ServesLoop k further (goes_on buf k') (es, logged, done) h =
      ServesLoop-later k k' es (further buf k') logged done (h buf k')
  next_turn-ServesLoop k further (exits k') served h = served

  -- After any number of turns, with or without an exit, each request has been answered by one response with
  -- its ID before the next was received, but the last one, which may have made the program exit. `mkdir`
  -- was called only with pathnames that begin with /tmp/, which those have too that leave it by a
  -- component `..`, and at most once for a request; and a response was an error, let the kernel go on,
  -- or reported what such a `mkdir` returned, the length of its path for a success.
  pub handle_notifications-ServesLoop :
      (nr_mkdir delay_secs turns : ℕ) (buf : Bytes) (k : K)
      → ServesLoop k (handle_notifications os nr_mkdir delay_secs turns buf k)
  unfolding handle_notifications
  handle_notifications-ServesLoop nr_mkdir delay_secs zero buf k =
      ([], sym (append-nil (log k)), nothing)
  handle_notifications-ServesLoop nr_mkdir delay_secs (suc turns) buf k =
      next_turn-ServesLoop k (handle_notifications os nr_mkdir delay_secs turns) _
        (turn-ServesTurn nr_mkdir delay_secs buf k)
        (handle_notifications-ServesLoop nr_mkdir delay_secs turns)
