-- ===== src/HostFs.antt =====
-- usbhostfs_pc/main.c: the server of the host's files.
pub mod Tests
pub mod Host
pub mod Paths
pub mod Server
pub mod Wire
pub mod Transfer
pub mod Files
pub mod Dirs
pub mod Entries
pub mod Dispatch
pub mod Session
pub mod Replies
pub mod Safety
