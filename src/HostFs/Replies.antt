-- ===== src/HostFs/Replies.antt =====
-- usbhostfs_pc/main.c: what is written to the device for a command.
pub mod Silent
pub mod Reads
pub mod Answers
pub mod Shapes
pub mod Outcomes
pub mod Commands
