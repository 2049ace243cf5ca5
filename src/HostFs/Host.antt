-- ===== src/HostFs/Host.antt =====
-- The calls of the host's operating system and of the USB library that usbhostfs_pc/main.c uses.
-- They are not code of the repository: a model of them is a record of functions over a state of the
-- world that nothing is known about.
use psplink.Base.{ℕ, Bool, Option, List, Text}

-- What a call that can fail returns: `errno` with a failure.
pub data Sys (A : Type 0) : Type 0 where
  done : A → Sys A
  failed : ℕ → Sys A

-- What the retries of a call return, each of them interrupted by a signal (`EINTR`) but the last
-- one. A call is not interrupted for ever.
pub data Attempts (A : Type 0) : Type 0 where
  interrupted : Attempts A → Attempts A
  answered : Sys A → Attempts A

-- The kinds of file that `S_ISLNK` and `S_ISDIR` tell apart.
pub data Kind : Type 0 where
  link : Kind
  directory : Kind
  other : Kind

pub record DateTime : Type 0 where
  pub year : ℕ
  pub month : ℕ
  pub day : ℕ
  pub hour : ℕ
  pub minute : ℕ
  pub second : ℕ

-- `struct stat`
pub record Stat : Type 0 where
  pub kind : Kind
  pub st_mode : ℕ
  pub st_size : ℕ
  pub st_ctime : ℕ
  pub st_atime : ℕ
  pub st_mtime : ℕ

pub data OpenAccess : Type 0 where
  read_write : OpenAccess
  read_only : OpenAccess
  write_only : OpenAccess

-- The flags of `open`.
pub record Flags : Type 0 where
  pub access : OpenAccess
  pub append : Bool
  pub creat : Bool
  pub trunc : Bool
  pub excl : Bool

-- `struct statvfs`
pub record Volume : Type 0 where
  pub f_blocks : ℕ
  pub f_bfree : ℕ
  pub f_frsize : ℕ

pub record Os : Type 1 where
  pub World : Type 0
  pub stat : Text → World → Sys Stat
  -- `opendir` and `readdir`: nothing for a directory that cannot be opened
  pub names : Text → World → Option (List Text)
  -- the first entry and the others, in order; a directory without entries is a failure
  pub scandir : Text → World → Sys (Text × List Text)
  pub open_fd : Text → Flags → ℕ → World → Sys ℕ × World
  pub close_fd : ℕ → World → Sys Unit × World
  -- at most as many bytes as are asked for, none at the end of the file
  pub read_fd : ℕ → ℕ → World → Attempts Text × World
  -- how many of the bytes were written
  pub write_fd : ℕ → Text → World → Attempts ℕ × World
  -- the offset and the result are patterns of 64 bits
  pub lseek : ℕ → ℕ → ℕ → World → ℕ × World
  pub unlink : Text → World → Sys Unit × World
  pub rmdir : Text → World → Sys Unit × World
  pub mkdir : Text → ℕ → World → Sys Unit × World
  pub rename : Text → Text → World → Sys Unit × World
  pub chmod : Text → ℕ → World → Sys Unit × World
  pub utime : Text → ℕ → ℕ → World → Sys Unit × World
  pub localtime : ℕ → DateTime
  pub mktime : DateTime → Option ℕ
  pub statvfs : Text → World → Option Volume
  -- nothing for a transfer that fails
  pub bulk_read : ℕ → World → Option Text × World
  -- whether as many bytes could be sent
  pub bulk_write : ℕ → World → Bool × World
  pub send_socket : ℕ → Text → World → World
