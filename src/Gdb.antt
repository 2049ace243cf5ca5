-- ===== src/Gdb.antt =====
-- gdbcommon/gdb-stub.c, the stub that answers the debugger over the remote serial protocol, and
-- the memory access of gdbcommon/gdb-common.c.
pub mod Hex
pub mod Packet
pub mod Framing
pub mod Termination
pub mod Resend
pub mod Transfer
pub mod Decode
pub mod Step
pub mod Hardware
pub mod Registers
pub mod Context
pub mod Queries
pub mod Ranges
pub mod Commands
pub mod Stub
pub mod Untouched
pub mod Kept
pub mod Rounds
pub mod Outside
pub mod Safety
pub mod Numbers
pub mod Requests
pub mod Exchange
pub mod Contexts
mod Tests
mod StubTests
