-- ===== src/DecodeAddr.antt =====
-- psplink/decodeaddr.c: the evaluator of address expressions that the shell's commands use, and
-- the table of memory areas that it asks before it reads memory.
pub mod Memory
pub mod Operators
pub mod Line
pub mod Parse
pub mod Shorter
pub mod Termination
pub mod Bounds
mod Tests
