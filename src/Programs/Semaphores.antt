-- ===== src/Programs/Semaphores.antt =====
-- The System V semaphore protocols of svsem/binary_sems.c and svsem/event_flags.c.
pub mod Exclusion
use my_notes.Common.{
  ℕ, zero, suc, ◌+◌, ◌-◌, Bool, true, false, not, List, [], ◌∷◌, Option, none, some, ◌==◌,
  if◌then◌else◌,
}

-- A failing system call.
pub data Error : Type 0 where
  eintr : Error
  other : ℕ → Error

-- `sem_op` of the one operation that the code asks for.
pub data SemOp : Type 0 where
  decrement : SemOp
  increment : SemOp
  wait_for_zero : SemOp

-- The System V semaphore calls on a state of the kernel: `semop` with one operation on semaphore
-- `semNum` of the set `semId` and its SEM_UNDO flag, and `semctl` with SETVAL and GETVAL. `semop` may
-- block; its result is that of the call when it returns.
pub record Kernel (S : Type 0) : Type 0 where
  pub semop : S → ℕ → ℕ → SemOp → Bool → S × Option Error
  pub setval : S → ℕ → ℕ → ℕ → S × Option Error
  pub getval : S → ℕ → ℕ → S × (Option ℕ)

-- What a blocking call has come to: 0, -1 with an error, or nothing yet.
pub data Waited : Type 0 where
  ok : Waited
  fails : Error → Waited
  waiting : Waited

module _ {S : Type 0} where
  -- `while (semop(...) == -1) if (errno != EINTR || !retry) return -1; return 0;` for at most so many
  -- turns
  unfoldable pub retry_loop : (S → S × Option Error) → Bool → ℕ → S → S × Waited
  retry_loop call retry zero s = (s, waiting)
  retry_loop call retry (suc turns) s =
      let again = retry_loop call retry turns (call s).0 in
      elim (call s).1 [
        | none ↦ ((call s).0, ok)
        | some eintr ↦ if retry then again else ((call s).0, fails eintr)
        | some (other n) ↦ ((call s).0, fails (other n))
      ]

  -- svsem/binary_sems.c; `undo` is `bsUseSemUndo`, `retry` is `bsRetryOnEintr`.
  unfoldable pub init_sem_available : Kernel S → S → ℕ → ℕ → S × Option Error
  init_sem_available k s sem_id sem_num = k.setval s sem_id sem_num 1

  pub init_sem_in_use : Kernel S → S → ℕ → ℕ → S × Option Error
  init_sem_in_use k s sem_id sem_num = k.setval s sem_id sem_num 0

  unfoldable pub reserve_sem : Kernel S → Bool → Bool → ℕ → S → ℕ → ℕ → S × Waited
  reserve_sem k undo retry turns s sem_id sem_num =
      retry_loop (λ t. k.semop t sem_id sem_num decrement undo) retry turns s

  pub release_sem : Kernel S → Bool → S → ℕ → ℕ → S × Option Error
  release_sem k undo s sem_id sem_num = k.semop s sem_id sem_num increment undo

  -- svsem/event_flags.c. The list has an element for each turn of the loop: what other processes do to
  -- the kernel's state before the turn, or while its call blocks.
  wait_loop : (S → S × Option Error) → List (S → S) → S → S × Waited
  wait_loop call [] s = (s, waiting)
  wait_loop call (others ∷ turns) s =
      let (s', result) = call (others s) in
      let again = wait_loop call turns s' in
      elim result [ none ↦ (s', ok) | some eintr ↦ again | some (other n) ↦ (s', fails (other n)) ]

  pub wait_for_event_flag : Kernel S → List (S → S) → S → ℕ → ℕ → S × Waited
  wait_for_event_flag k turns s sem_id sem_num =
      wait_loop (λ t. k.semop t sem_id sem_num wait_for_zero false) turns s

  pub clear_event_flag : Kernel S → S → ℕ → ℕ → S × Option Error
  clear_event_flag k s sem_id sem_num = k.setval s sem_id sem_num 1

  unfoldable pub set_event_flag : Kernel S → S → ℕ → ℕ → S × Option Error
  set_event_flag k s sem_id sem_num = k.setval s sem_id sem_num 0

  -- `*isSet`, or `none` where -1 is returned
  unfoldable pub get_flag_state : Kernel S → S → ℕ → ℕ → S × Option Bool
  get_flag_state k s sem_id sem_num =
      let state = k.getval s sem_id sem_num in
      (state.0, elim state.1 [ none ↦ none | some sem_val ↦ some (sem_val == 0) ])
