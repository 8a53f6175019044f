-- ===== src/Seccomp/Filter.antt =====
-- The filters of seccomp/seccomp_unotify_mkdir.c, seccomp/seccomp_unotify_openat.c and
-- seccomp/seccomp_multiarch.c.
pub mod Verdicts
use my_notes.Common.{ℕ, ◌+◌, List, [], ◌∷◌, ◌++◌}

-- The fields of `struct seccomp_data` that the filters load.
pub data Field : Type 0 where
  arch_field nr_field : Field

-- The values that a filter returns.
pub data Action : Type 0 where
  kill_process user_notif allow trace : Action
  fail_with : ℕ → Action

-- The instructions: BPF_LD | BPF_W | BPF_ABS, BPF_JMP with BPF_JEQ or BPF_JGE, and BPF_RET, all with constants.
pub data Insn : Type 0 where
  load : Field → Insn
  jeq : ℕ → ℕ → ℕ → Insn
  jge : ℕ → ℕ → ℕ → Insn
  return : Action → Insn

abbrev pub x32_syscall_bit : ℕ
x32_syscall_bit = 0x40000000

-- X86_64_CHECK_ARCH_AND_LOAD_SYSCALL_NR; the argument is AUDIT_ARCH_X86_64.
abbrev pub check_arch_and_load_syscall_nr : ℕ → List Insn
check_arch_and_load_syscall_nr audit_arch =
    load arch_field
    ∷ jeq audit_arch 0 2
    ∷ load nr_field
    ∷ jge x32_syscall_bit 0 1
    ∷ return kill_process
    ∷ []

-- The filter of `installNotifyFilter` in both programs, with the number of `mkdir` or of `openat`.
unfoldable pub notify_filter : ℕ → ℕ → List Insn
notify_filter audit_arch nr =
    check_arch_and_load_syscall_nr audit_arch
    ++ (jeq nr 0 1 ∷ return user_notif ∷ return allow ∷ [])

-- The last instruction of the other filter, which depends on the option -f.
pub data SecondFilter : Type 0 where
  ret_errno ret_trace : SecondFilter

abbrev pub enotsup : ℕ
enotsup = 95

abbrev pub second_action : SecondFilter → Action
second_action ret_errno = fail_with enotsup
second_action ret_trace = trace

-- The filter of `installFilter2`.
unfoldable pub second_filter : ℕ → ℕ → SecondFilter → List Insn
second_filter audit_arch nr f =
    check_arch_and_load_syscall_nr audit_arch
    ++ (jeq nr 1 0 ∷ return allow ∷ return (second_action f) ∷ [])

-- The numbers of `mq_notify` in seccomp/seccomp_multiarch.c.
abbrev pub nr_mq_notify_x86_64 : ℕ
nr_mq_notify_x86_64 = 244

abbrev pub nr_mq_notify_i386 : ℕ
nr_mq_notify_i386 = 281

abbrev pub nr_mq_notify_x32 : ℕ
nr_mq_notify_x32 = 527

-- The filter of `install_filter` there; the arguments are AUDIT_ARCH_X86_64 and AUDIT_ARCH_I386.
unfoldable pub multiarch_filter : ℕ → ℕ → List Insn
multiarch_filter arch_x86_64 arch_i386 =
    load arch_field
    ∷ jeq arch_x86_64 0 5
    ∷ load nr_field
    ∷ jeq nr_mq_notify_x86_64 0 1
    ∷ return (fail_with nr_mq_notify_x86_64)
    ∷ jeq (nr_mq_notify_x32 + x32_syscall_bit) 0 5
    ∷ return (fail_with nr_mq_notify_x32)
    ∷ jeq arch_i386 0 4
    ∷ load nr_field
    ∷ jeq nr_mq_notify_i386 0 1
    ∷ return (fail_with nr_mq_notify_i386)
    ∷ return allow
    ∷ return kill_process
    ∷ []
