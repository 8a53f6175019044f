-- ===== src/Seccomp/Tests.antt =====
-- Runs of the theorems on seccomp at concrete inputs.
use my_notes.Common.{
  ℕ, zero, suc, ◌≡◌, refl, ap, true, List, [], ◌∷◌, ◌++◌, some, Bytes, codes, drop, leb, ◌==◌,
  if◌then◌else◌, arith,
}
use my_notes.Seccomp.Filter.{
  Field, arch_field, nr_field, Action, kill_process, user_notif, Insn, load, jeq, jge, return,
  notify_filter, SecondFilter, second_action, second_filter, multiarch_filter,
}
use my_notes.Seccomp.Filter.Verdicts as Verdicts
use my_notes.Seccomp.Filter.Verdicts.{rule, multiarch_rule, filters_follow_rule}
use my_notes.Seccomp.Target.{Request, Received, got, interrupted, recv_error, Os}
use my_notes.Seccomp.Supervisor.{handle_notifications}
use my_notes.Seccomp.Supervisor.Log.{Event, received, made, sent, IsLogged}
use my_notes.Seccomp.Supervisor.Answers.{ServesLoop, handle_notifications-ServesLoop}

-- An interpreter, which skips some instructions first. The end of a program kills the process.
abbrev Call : Type 0
Call = ℕ × ℕ

abbrev field_of : Call → Field → ℕ
field_of d arch_field = d.0
field_of d nr_field = d.1

abbrev skip : ℕ → List Insn → Call → ℕ → Action
skip n [] d a = kill_process
skip (suc n) (i ∷ p) d a = skip n p d a
skip zero (load f ∷ p) d a = skip zero p d (field_of d f)
skip zero (jeq k jt jf ∷ p) d a = skip (if a == k then jt else jf) p d a
skip zero (jge k jt jf ∷ p) d a = skip (if leb k a then jt else jf) p d a
skip zero (return r ∷ p) d a = r

skip-drop : (n : ℕ) (p : List Insn) (d : Call) (a : ℕ) → skip n p d a ≡ skip zero (drop n p) d a
skip-drop zero p d a = refl
skip-drop (suc n) [] d a = refl
skip-drop (suc n) (i ∷ p) d a = skip-drop n p d a

skip-IsDocumented : Verdicts.IsDocumented (skip zero) field_of
skip-IsDocumented = record {
  loads = λ p d a f. refl;
  jumps_eq = λ p d a k jt jf. skip-drop (if a == k then jt else jf) p d a;
  jumps_ge = λ p d a k jt jf. skip-drop (if leb k a then jt else jf) p d a;
  returns = λ p d a r. refl;
}

-- A call of mkdir, number 83, on x86-64
filters_follow_rule_example :
    (skip zero (notify_filter 0xC000003E 83) (0xC000003E, 83) 0
      ≡ rule 0xC000003E 83 user_notif 0xC000003E 83)
    × ((f : SecondFilter)
        → skip zero (second_filter 0xC000003E 83 f) (0xC000003E, 83) 0
          ≡ rule 0xC000003E 83 (second_action f) 0xC000003E 83)
    × ((arch_i386 : ℕ)
        → skip zero (multiarch_filter 0xC000003E arch_i386) (0xC000003E, 83) 0
          ≡ multiarch_rule 0xC000003E arch_i386 0xC000003E 83)
filters_follow_rule_example =
    filters_follow_rule (skip zero) field_of skip-IsDocumented 0xC000003E 83 (0xC000003E, 83) 0

-- A kernel with a log, the paths of the calls that are still to come, and the memory of the target.
abbrev Kernel : Type 0
Kernel = List Event × (List Bytes × Bytes)

abbrev request : Request
request = record { id = 5; pid = 9; nr = 83; args = λ n. 448 }

abbrev receive : Kernel → Received × Kernel
receive (log, ([], memory)) = (recv_error, (log, ([], memory)))
receive (log, (path ∷ paths, memory)) =
    (got request, (log ++ received 5 ∷ [], (paths, path ++ 0 ∷ [])))

abbrev kernel_os : Os Kernel
kernel_os = record {
  notif_recv = receive;
  notif_id_valid = λ k id. (true, k);
  notif_send = λ k r. (true, (k.0 ++ sent r ∷ [], k.1));
  open_mem = λ k pid. (some 3, k);
  pread = λ k fd len offset. (some k.1.1, k);
  close = λ k fd. k;
  mkdir = λ k path mode. (some 17, (k.0 ++ made path mode (some 17) ∷ [], k.1));
  sleep = λ k. k;
}

abbrev events : Kernel → List Event
events k = k.0

receives_lem :
    (k : Kernel) (req : Request)
    → (receive k).0 ≡ got req
    → events (receive k).1 ≡ events k ++ received req.id ∷ []
receives_lem (log, ([], memory)) req e = absurd (cc)
receives_lem (log, (path ∷ paths, memory)) req e = ap (λ r. log ++ received (id_of r) ∷ []) e
  where
    id_of : Received → ℕ
    id_of (got r) = r.id
    id_of interrupted = 0
    id_of recv_error = 0

interrupts_lem : (k : Kernel) → (receive k).0 ≡ interrupted → events (receive k).1 ≡ events k
interrupts_lem (log, ([], memory)) e = refl
interrupts_lem (log, (path ∷ paths, memory)) e = absurd (cc)

recv_errors_lem : (k : Kernel) → (receive k).0 ≡ recv_error → events (receive k).1 ≡ events k
recv_errors_lem (log, ([], memory)) e = refl
recv_errors_lem (log, (path ∷ paths, memory)) e = absurd (cc)

kernel_os-IsLogged : IsLogged kernel_os events
kernel_os-IsLogged = record {
  receives = receives_lem;
  interrupts = interrupts_lem;
  recv_errors = recv_errors_lem;
  sends = λ k r. refl;
  makes = λ k path mode. refl;
  mkdir_errno = λ k path mode errno e. grind (arith, e);
  validates = λ k id. refl;
  opens = λ k pid. refl;
  preads = λ k fd len offset. refl;
  closes = λ k fd. refl;
  sleep_log = λ k. refl;
}

handle_notifications_example :
    ServesLoop kernel_os events kernel_os-IsLogged
      ([], (codes "/tmp/a" ∷ codes "./b" ∷ codes "/bye" ∷ [], []))
      (handle_notifications kernel_os 83 1 5
        (0 ∷ [])
        ([], (codes "/tmp/a" ∷ codes "./b" ∷ codes "/bye" ∷ [], [])))
handle_notifications_example =
    handle_notifications-ServesLoop kernel_os events kernel_os-IsLogged 83 1 5 (0 ∷ [])
      ([], (codes "/tmp/a" ∷ codes "./b" ∷ codes "/bye" ∷ [], []))
