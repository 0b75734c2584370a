-- ===== src/Arch.antt =====
-- kangaroos/src/arch: the exception stubs, the initial stack frames and the canaries.
pub mod Cpu
pub mod Asm
pub mod V6m
pub mod V7m
pub mod Fpu
pub mod V8m
pub mod Words
pub mod Stub
pub mod Frame
pub mod Ports
pub mod Select
pub mod Threads
pub mod Switch
pub mod Ran
pub mod Rounds
mod Tests
