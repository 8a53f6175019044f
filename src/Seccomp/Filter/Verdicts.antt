-- ===== src/Seccomp/Filter/Verdicts.antt =====
-- What the kernel makes of the filters.
use my_notes.Common.{
  ◌+◌, ℕ, ◌≡◌, refl, Bool, Bool-cases, not, ◌||◌, inl, inr, List, ◌∷◌, ◌++◌, drop, leb, ◌==◌,
  if◌then◌else◌,
}
use my_notes.Seccomp.Filter.{
  Field, arch_field, nr_field, Action, kill_process, user_notif, allow, Insn, load, jeq, jge,
  return, x32_syscall_bit, check_arch_and_load_syscall_nr, notify_filter, SecondFilter,
  second_action, second_filter, fail_with, nr_mq_notify_x86_64, nr_mq_notify_i386, nr_mq_notify_x32,
  multiarch_filter,
}

-- What seccomp(2) and the description of BPF say of the instructions: `exec` is the result of a program from
-- its first instruction on, with the value of the accumulator. The jumps are relative to the next
-- instruction.
pub record IsDocumented {D : Type 0} (exec : List Insn → D → ℕ → Action) (get : D → Field → ℕ)
    : Type 0 where
  pub loads :
      (p : List Insn) (d : D) (a : ℕ) (f : Field) → exec (load f ∷ p) d a ≡ exec p d (get d f)
  pub jumps_eq :
      (p : List Insn) (d : D) (a k jt jf : ℕ)
      → exec (jeq k jt jf ∷ p) d a ≡ exec (drop (if a == k then jt else jf) p) d a
  pub jumps_ge :
      (p : List Insn) (d : D) (a k jt jf : ℕ)
      → exec (jge k jt jf ∷ p) d a ≡ exec (drop (if leb k a then jt else jf) p) d a
  pub returns : (p : List Insn) (d : D) (a : ℕ) (r : Action) → exec (return r ∷ p) d a ≡ r

-- Is the call one of the 64-bit ABI?
abbrev pub is_foreign : ℕ → ℕ → ℕ → Bool
is_foreign audit_arch arch nr = not (arch == audit_arch) || leb x32_syscall_bit nr

-- The rule that both filters follow, with the action for the chosen call.
abbrev pub rule : ℕ → ℕ → Action → ℕ → ℕ → Action
rule audit_arch chosen action arch nr =
    if is_foreign audit_arch arch nr then kill_process else if nr == chosen then action else allow

-- The rule for the calls of `mq_notify` on three architectures.
abbrev pub multiarch_rule : ℕ → ℕ → ℕ → ℕ → Action
multiarch_rule arch_x86_64 arch_i386 arch nr =
    if arch == arch_x86_64
    then (if nr == nr_mq_notify_x86_64
        then fail_with nr_mq_notify_x86_64
        else if nr == nr_mq_notify_x32 + x32_syscall_bit
        then fail_with nr_mq_notify_x32
        else allow)
    else if arch == arch_i386
    then (if nr == nr_mq_notify_i386 then fail_with nr_mq_notify_i386 else allow)
    else kill_process

module _ {D : Type 0} (exec : List Insn → D → ℕ → Action) (get : D → Field → ℕ)
    (doc : IsDocumented exec get) where
  -- The shared beginning of the filters.
  check_arch_lem :
      (audit_arch : ℕ) (p : List Insn) (d : D) (a : ℕ)
      → exec (check_arch_and_load_syscall_nr audit_arch ++ p) d a ≡ (
          if is_foreign audit_arch (get d arch_field) (get d nr_field)
          then kill_process
          else exec p d (get d nr_field))
  check_arch_lem audit_arch p d a = elim (Bool-cases (get d arch_field == audit_arch)) [
    | inr other ↦
        rw (doc.loads, doc.jumps_eq, other) (doc.returns p d (get d arch_field) kill_process)
    | inl native ↦ elim (Bool-cases (leb x32_syscall_bit (get d nr_field))) [
      | inl x32 ↦
          rw (doc.loads, doc.jumps_eq, native, doc.loads, doc.jumps_ge, x32)
            (doc.returns p d (get d nr_field) kill_process)
      | inr n64 ↦ rw (doc.loads, doc.jumps_eq, native, doc.loads, doc.jumps_ge, n64) refl
    ]
  ]

  notify_filter-rule :
      (audit_arch chosen : ℕ) (d : D) (a : ℕ)
      → exec (notify_filter audit_arch chosen) d a
        ≡ rule audit_arch chosen user_notif (get d arch_field) (get d nr_field)
  unfolding notify_filter
  notify_filter-rule audit_arch chosen d a = elim (Bool-cases (get d nr_field == chosen)) [
    | inl same ↦
        rw (notify_filter, check_arch_lem, doc.jumps_eq, same, doc.returns _ d _ user_notif) refl
    | inr differs ↦
        rw (notify_filter, check_arch_lem, doc.jumps_eq, differs, doc.returns _ d _ allow) refl
  ]

  second_filter-rule :
      (audit_arch chosen : ℕ) (f : SecondFilter) (d : D) (a : ℕ)
      → exec (second_filter audit_arch chosen f) d a
        ≡ rule audit_arch chosen (second_action f) (get d arch_field) (get d nr_field)
  unfolding second_filter
  second_filter-rule audit_arch chosen f d a = elim (Bool-cases (get d nr_field == chosen)) [
    | inl same ↦
        rw (second_filter, check_arch_lem, doc.jumps_eq, same, doc.returns _ d _ (second_action f))
          refl
    | inr differs ↦
        rw (second_filter, check_arch_lem, doc.jumps_eq, differs, doc.returns _ d _ allow) refl
  ]

  multiarch_filter-rule :
      (arch_x86_64 arch_i386 : ℕ) (d : D) (a : ℕ)
      → exec (multiarch_filter arch_x86_64 arch_i386) d a
        ≡ multiarch_rule arch_x86_64 arch_i386 (get d arch_field) (get d nr_field)
  unfolding multiarch_filter
  multiarch_filter-rule arch_x86_64 arch_i386 d a =
      elim (Bool-cases (get d arch_field == arch_x86_64)) [
        | inl x86 ↦ elim (Bool-cases (get d nr_field == nr_mq_notify_x86_64)) [
          | inl same ↦
              rw (multiarch_filter, doc.loads, doc.jumps_eq, x86, doc.loads, doc.jumps_eq, same)
                (doc.returns _ d _ _)
          | inr differs ↦ elim (Bool-cases (get d nr_field == nr_mq_notify_x32 + x32_syscall_bit)) [
            | inl x32 ↦
                rw
                  (
                    multiarch_filter, doc.loads, doc.jumps_eq, x86, doc.loads, doc.jumps_eq,
                    differs, doc.jumps_eq, x32,
                  )
                  (doc.returns _ d _ _)
            | inr other ↦
                rw
                  (
                    multiarch_filter, doc.loads, doc.jumps_eq, x86, doc.loads, doc.jumps_eq,
                    differs, doc.jumps_eq, other,
                  )
                  (doc.returns _ d _ _)
          ]
        ]
        | inr not_x86 ↦ elim (Bool-cases (get d arch_field == arch_i386)) [
          | inr neither ↦
              rw (multiarch_filter, doc.loads, doc.jumps_eq, not_x86, doc.jumps_eq, neither)
                (doc.returns _ d _ _)
          | inl i386 ↦ elim (Bool-cases (get d nr_field == nr_mq_notify_i386)) [
            | inl same ↦
                rw
                  (
                    multiarch_filter, doc.loads, doc.jumps_eq, not_x86, doc.jumps_eq, i386,
                    doc.loads, doc.jumps_eq, same,
                  )
                  (doc.returns _ d _ _)
            | inr differs ↦
                rw
                  (
                    multiarch_filter, doc.loads, doc.jumps_eq, not_x86, doc.jumps_eq, i386,
                    doc.loads, doc.jumps_eq, differs,
                  )
                  (doc.returns _ d _ _)
          ]
        ]
      ]

  -- On any call, the filter for notifications and the second filter kill a process that uses another
  -- architecture or the x32 ABI, allow every system call but the chosen one, and for this one notify
  -- the supervisor, or fail or trace as the option -f says. The filter for several architectures
  -- lets `mq_notify` fail with its number on x86-64, x32 and i386, allows their other system calls,
  -- and kills a process of any other architecture. The kernel executes the instructions as documented.
  pub filters_follow_rule :
      (audit_arch chosen : ℕ) (d : D) (a : ℕ)
      → (exec (notify_filter audit_arch chosen) d a
          ≡ rule audit_arch chosen user_notif (get d arch_field) (get d nr_field))
        × ((f : SecondFilter)
            → exec (second_filter audit_arch chosen f) d a
              ≡ rule audit_arch chosen (second_action f) (get d arch_field) (get d nr_field))
        × ((arch_i386 : ℕ)
            → exec (multiarch_filter audit_arch arch_i386) d a
              ≡ multiarch_rule audit_arch arch_i386 (get d arch_field) (get d nr_field))
  filters_follow_rule audit_arch chosen d a = (
    notify_filter-rule audit_arch chosen d a,
    (λ f. second_filter-rule audit_arch chosen f d a),
    (λ arch_i386. multiarch_filter-rule audit_arch arch_i386 d a),
  )
