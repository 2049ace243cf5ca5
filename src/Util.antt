-- ===== src/Util.antt =====
-- psplink/util.c, the helpers on characters and paths that the other parts call.
pub mod Chars
pub mod Clean
pub mod Handle
pub mod Ends
pub mod Handled
pub mod Path
pub mod Segments
pub mod Stack
mod Tests
