-- ===== src/Programs/Semaphores/Exclusion.antt =====
-- What the semaphore protocols guarantee.
use my_notes.Common.{
  ℕ, zero, suc, ◌+◌, ◌≤◌, ◌≡◌, ◌≢◌, refl, sym, ap, ◌∙◌, Bool, true, false, Option-cases, ◌⊎◌, inl,
  inr, Option, none, some, ◌==◌, arith,
}
use my_notes.Programs.Semaphores.{
  Error, eintr, other, SemOp, decrement, increment, Kernel, Waited, ok, retry_loop,
  init_sem_available, reserve_sem, release_sem, clear_event_flag, set_event_flag, get_flag_state,
}

module _ {S : Type 0} where
  -- What semop(2) and semctl(2) say of one semaphore, whose value in a state is `val`.
  pub record IsDocumented (k : Kernel S) (sem_id : ℕ) (sem_num : ℕ) (val : S → ℕ) : Type 0 where
    pub fails_unchanged :
        (s : S) (op : SemOp) (undo : Bool) (e : Error)
        → (k.semop s sem_id sem_num op undo).1 ≡ some e
        → val (k.semop s sem_id sem_num op undo).0 ≡ val s
    pub decrements :
        (s : S) (undo : Bool)
        → (k.semop s sem_id sem_num decrement undo).1 ≡ none
        → val s ≡ val (k.semop s sem_id sem_num decrement undo).0 + 1
    pub increments :
        (s : S) (undo : Bool)
        → (k.semop s sem_id sem_num increment undo).1 ≡ none
        → val (k.semop s sem_id sem_num increment undo).0 ≡ val s + 1
    pub sets :
        (s : S) (v : ℕ)
        → (k.setval s sem_id sem_num v).1 ≡ none
        → val (k.setval s sem_id sem_num v).0 ≡ v
    pub gets : (s : S) (v : ℕ) → (k.getval s sem_id sem_num).1 ≡ some v → v ≡ val s

  -- The loop returns 0 after one successful call, from a state with the same value, or it leaves the
  -- value alone.
  Ends : (S → S × Option Error) → (S → ℕ) → S → S × Waited → Type 0
  Ends call val s r =
      ((t : S) × (val t ≡ val s) × ((call t).1 ≡ none) × (r ≡ ((call t).0, ok)))
      ⊎ ((r.1 ≢ ok) × (val r.0 ≡ val s))

  Ends-step :
      (call : S → S × Option Error) (val : S → ℕ) (s s' : S) (r : S × Waited)
      → val s' ≡ val s
      → Ends call val s' r
      → Ends call val s r
  unfolding Ends
  Ends-step call val s s' r e (inl (t, same, done, result)) = inl (t, same ∙ e, done, result)
  Ends-step call val s s' r e (inr (not_ok, same)) = inr (not_ok, same ∙ e)

  retry_loop_lem :
      (call : S → S × Option Error) (retry : Bool) (val : S → ℕ)
      → ((s : S) (e : Error) → (call s).1 ≡ some e → val (call s).0 ≡ val s)
      → (turns : ℕ) (s : S) → Ends call val s (retry_loop call retry turns s)
  unfolding retry_loop Ends
  retry_loop_lem call retry val same zero s = inr (ground arith, refl)
  retry_loop_lem call retry val same (suc turns) s = elim (Option-cases (call s).1) [
    | inl done ↦ inl (s, refl, done, rw (retry_loop, done) refl)
    | inr (other n, failed) ↦ rw (retry_loop, failed) (inr (ground arith, same s (other n) failed))
    | inr (eintr, failed) ↦
        interrupted retry failed (λ b. retry_loop_lem call b val same turns (call s).0)
  ]
    where
      interrupted :
          (retry : Bool)
          → (call s).1 ≡ some eintr
          → ((b : Bool) → Ends call val (call s).0 (retry_loop call b turns (call s).0))
          → Ends call val s (retry_loop call retry (suc turns) s)
      interrupted true failed again =
          rw (retry_loop, failed)
            (Ends-step call val s (call s).0 _ (same s eintr failed) (again true))
      interrupted false failed again =
          rw (retry_loop, failed) (inr (ground arith, same s eintr failed))

-- Processes that share the semaphore: the state of the kernel, and how many of them have reserved it
-- and not yet released it. A reservation that is still waiting is a step of its own, so that others
-- may come between its turns. No process ends while it holds the semaphore.
pub data Step {S : Type 0} (k : Kernel S) (sem_id sem_num : ℕ) : S × ℕ → S × ℕ → Type 0 where
  reserved :
      (undo retry : Bool) (turns : ℕ) (s s' : S) (holders : ℕ)
      → reserve_sem k undo retry turns s sem_id sem_num ≡ (s', ok)
      → Step k sem_id sem_num (s, holders) (s', holders + 1)
  not_reserved :
      (undo retry : Bool) (turns : ℕ) (s s' : S) (w : Waited) (holders : ℕ)
      → w ≢ ok
      → reserve_sem k undo retry turns s sem_id sem_num ≡ (s', w)
      → Step k sem_id sem_num (s, holders) (s', holders)
  released :
      (undo : Bool) (s s' : S) (holders : ℕ)
      → release_sem k undo s sem_id sem_num ≡ (s', none)
      → Step k sem_id sem_num (s, holders + 1) (s', holders)
  not_released :
      (undo : Bool) (s s' : S) (e : Error) (holders : ℕ)
      → release_sem k undo s sem_id sem_num ≡ (s', some e)
      → Step k sem_id sem_num (s, holders) (s', holders)

pub data Steps {S : Type 0} (k : Kernel S) (sem_id sem_num : ℕ) (a : S × ℕ) : S × ℕ → Type 0 where
  start : Steps k sem_id sem_num a a
  after :
      (b c : S × ℕ)
      → Steps k sem_id sem_num a b
      → Step k sem_id sem_num b c
      → Steps k sem_id sem_num a c

module _ {S : Type 0} (k : Kernel S) (sem_id sem_num : ℕ) (val : S → ℕ)
    (doc : IsDocumented k sem_id sem_num val) where
  reserve_sem_lem :
      (undo retry : Bool) (turns : ℕ) (s s' : S) (w : Waited)
      → reserve_sem k undo retry turns s sem_id sem_num ≡ (s', w)
      → ((w ≡ ok) × (val s ≡ val s' + 1)) ⊎ ((w ≢ ok) × (val s' ≡ val s))
  unfolding reserve_sem Ends
  reserve_sem_lem undo retry turns s s' w e =
      let call : S → S × Option Error = λ t. k.semop t sem_id sem_num decrement undo in
      let fixed = λ (t : S) (err : Error). doc.fails_unchanged t decrement undo err in
      elim (retry_loop_lem call retry val fixed turns s) [
        | inl (t, same, done, result) ↦
            let whole : ((call t).0, ok) ≡ (s', w) = sym result ∙ e in
            inl (
              sym (ap (λ r. r.1) whole),
              sym same ∙ doc.decrements t undo done ∙ ap (λ r. val r.0 + 1) whole,
            )
        | inr (not_ok, same) ↦
            inr ((λ is. not_ok (ap (λ r. r.1) e ∙ is)), sym (ap (λ r. val r.0) e) ∙ same)
      ]

  step_value : (a b : S × ℕ) → Step k sem_id sem_num a b → val a.0 + a.1 ≡ val b.0 + b.1
  unfolding release_sem
  step_value a b (reserved undo retry turns s s' holders e) =
      elim (reserve_sem_lem undo retry turns s s' ok e) [
        | inl (_, taken) ↦ omega arith
        | inr (not_ok, _) ↦ absurd (not_ok refl)
      ]
  step_value a b (not_reserved undo retry turns s s' w holders not_ok e) =
      elim (reserve_sem_lem undo retry turns s s' w e) [
        | inl (is, _) ↦ absurd (not_ok is)
        | inr (_, same) ↦ omega arith
      ]
  step_value a b (released undo s s' holders e) =
      let more = doc.increments s undo (ap (λ r. r.1) e) in
      let there = ap (λ r. val r.0) e in omega arith
  step_value a b (not_released undo s s' err holders e) =
      let same = doc.fails_unchanged s increment undo err (ap (λ r. r.1) e) in
      let there = ap (λ r. val r.0) e in omega arith

  steps_value : (a b : S × ℕ) → Steps k sem_id sem_num a b → val a.0 + a.1 ≡ val b.0 + b.1
  steps_value a b start = refl
  steps_value a b (after c d steps step) = steps_value a c steps ∙ step_value c d step

  -- After the semaphore has been initialised as available, with no holder, at most one process at a
  -- time holds it, however the processes' reservations and releases by holders interleave, and the
  -- semaphore's value and the number of holders sum up to 1. Semaphore calls behave as documented.
  pub init_sem_available-exclusive :
      (s s' : S) (holders : ℕ)
      → (init_sem_available k s sem_id sem_num).1 ≡ none
      → Steps k sem_id sem_num ((init_sem_available k s sem_id sem_num).0, 0) (s', holders)
      → (val s' + holders ≡ 1) × (holders ≤ 1)
  unfolding init_sem_available
  init_sem_available-exclusive s s' holders done steps =
      let one = doc.sets s 1 done in let total = steps_value _ _ steps in (omega arith, omega arith)

  abbrev pub change_flag : Bool → S → S × Option Error
  change_flag true s = set_event_flag k s sem_id sem_num
  change_flag false s = clear_event_flag k s sem_id sem_num

  get_flag_state_value :
      (s : S) (is_set : Bool)
      → (get_flag_state k s sem_id sem_num).1 ≡ some is_set
      → is_set ≡ (val s == 0)
  unfolding get_flag_state
  get_flag_state_value s is_set read = elim (Option-cases (k.getval s sem_id sem_num).1) [
    | inl failed ↦ ground (arith, failed)
    | inr (v, got) ↦ let same = doc.gets s v got in ground (arith, got, same)
  ]

  -- If setEventFlag (for `true`) or clearEventFlag (for `false`) succeeds, and a following
  -- getFlagState succeeds, it reports that the flag is set or not set accordingly. Semaphore calls
  -- behave as documented.
  pub get_flag_state-change_flag :
      (s : S) (set is_set : Bool)
      → (change_flag set s).1 ≡ none
      → (get_flag_state k (change_flag set s).0 sem_id sem_num).1 ≡ some is_set
      → is_set ≡ set
  unfolding set_event_flag clear_event_flag
  get_flag_state-change_flag s true is_set done read =
      let value = doc.sets s 0 done in get_flag_state_value _ is_set read ∙ ap (λ v. v == 0) value
  get_flag_state-change_flag s false is_set done read =
      let value = doc.sets s 1 done in get_flag_state_value _ is_set read ∙ ap (λ v. v == 0) value
