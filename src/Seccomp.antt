-- ===== src/Seccomp.antt =====
-- The programs of seccomp/ that answer system calls of another process: seccomp_unotify_mkdir.c, the
-- filter of seccomp_unotify_openat.c, and seccomp_functions.c.
pub mod Filter
pub mod Target
pub mod Supervisor
mod Tests
