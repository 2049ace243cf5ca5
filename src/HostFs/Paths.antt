-- ===== src/HostFs/Paths.antt =====
-- usbhostfs_pc/main.c: from the name that the device sends to a path of the host.
pub mod Tokens
pub mod Names
pub mod Resolve
pub mod Nocase
pub mod Below
pub mod Left
pub mod Opened
pub mod Exact
