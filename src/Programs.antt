-- ===== src/Programs.antt =====
-- Library functions and helpers written out as sample programs: the environment, execlp, numeric
-- arguments, System V semaphores and the notation for their operations, and a transfer through shared
-- memory.
pub mod ShmTransfer
pub mod Environment
pub mod Execlp
pub mod GetNum
pub mod SemOps
pub mod Semaphores
mod ShmTests
mod Tests
