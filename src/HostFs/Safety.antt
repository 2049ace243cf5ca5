-- ===== src/HostFs/Safety.antt =====
-- usbhostfs_pc/main.c: the paths that are used, the tables of handles and the transfers to files.
pub mod Keeps
pub mod Invariant
pub mod Calls
pub mod Requests
pub mod Confinement
pub mod Roots
pub mod Handles
pub mod Listing
pub mod Contents
pub mod Stores
