-- ===== src/Namespaces.antt =====
-- The programs of namespaces/: ns_capable.c (Capable), and userns_child_exec.c with the functions of
-- userns_functions.c and cap/cap_functions.c that it calls (the other modules).
pub mod Capable
pub mod Options
pub mod Maps
pub mod Actions
pub mod Handshake
mod Tests
mod ExecTests
