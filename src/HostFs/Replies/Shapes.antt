-- ===== src/HostFs/Replies/Shapes.antt =====
-- When a command is complete, and which command its answer names.
use psplink.Base.{ℕ, Bool, true, false, not, Text, length, ◌==◌, ◌&&◌, ◌||◌}
use psplink.HostFs.Host.{Os}
use psplink.HostFs.Server.{Server}
use psplink.HostFs.Wire.{u32_at, extralen_of, hostfs_cmd, is_positive}
use psplink.HostFs.Dispatch.{
  Command, cmd_hello, cmd_open, cmd_close, cmd_read, cmd_write, cmd_lseek, cmd_remove, cmd_mkdir,
  cmd_rmdir, cmd_dopen, cmd_dread, cmd_dclose, cmd_getstat, cmd_chstat, cmd_rename, cmd_chdir,
  cmd_ioctl, cmd_devctl, unknown,
}
use psplink.HostFs.Replies.Answers.{exact}

-- What has to come with a command for it to be complete.
pub data Shape : Type 0 where
  -- nothing but the header
  header : Shape
  -- the structure of this size
  sized : ℕ → Shape
  -- the structure of READ, with a length that is greater than 0
  counted : Shape
  -- a structure of this size, and data
  with_name : ℕ → Shape
  -- a structure of this size, and data where there is a length
  with_buffer : ℕ → Shape
  -- no command
  nothing : Shape

abbrev pub shape : Command → Shape
shape cmd_hello = header
shape cmd_open = with_name 24
shape cmd_close = sized 16
shape cmd_read = counted
shape cmd_write = with_name 16
shape cmd_lseek = sized 28
shape cmd_remove = with_name 16
shape cmd_mkdir = with_name 20
shape cmd_rmdir = with_name 16
shape cmd_dopen = with_name 16
shape cmd_dread = sized 16
shape cmd_dclose = sized 16
shape cmd_getstat = with_name 16
shape cmd_chstat = with_name 56
shape cmd_rename = with_name 16
shape cmd_chdir = with_name 16
shape cmd_ioctl = with_buffer 24
shape cmd_devctl = with_buffer 24
shape unknown = nothing

-- The command that the answer names: that to DREAD names READ.
abbrev pub answered_as : Command → ℕ
answered_as cmd_hello = hostfs_cmd 0
answered_as cmd_open = hostfs_cmd 2
answered_as cmd_close = hostfs_cmd 3
answered_as cmd_read = hostfs_cmd 4
answered_as cmd_write = hostfs_cmd 5
answered_as cmd_lseek = hostfs_cmd 6
answered_as cmd_remove = hostfs_cmd 7
answered_as cmd_mkdir = hostfs_cmd 8
answered_as cmd_rmdir = hostfs_cmd 9
answered_as cmd_dopen = hostfs_cmd 10
answered_as cmd_dread = hostfs_cmd 4
answered_as cmd_dclose = hostfs_cmd 12
answered_as cmd_getstat = hostfs_cmd 13
answered_as cmd_chstat = hostfs_cmd 14
answered_as cmd_rename = hostfs_cmd 15
answered_as cmd_chdir = hostfs_cmd 16
answered_as cmd_ioctl = hostfs_cmd 17
answered_as cmd_devctl = hostfs_cmd 18
answered_as unknown = 0

module _ {os : Os} where
  -- Whether the next transfer brings all the data.
  abbrev pub data_comes : Text → Server os → Bool
  data_comes cmd s = exact (os.bulk_read (extralen_of cmd) s.world).0 (extralen_of cmd)

  abbrev pub is_complete : Shape → Text → Server os → Bool
  is_complete header cmd s = true
  is_complete (sized n) cmd s = length cmd == n
  is_complete counted cmd s = length cmd == 20 && is_positive (u32_at cmd 16)
  is_complete (with_name n) cmd s =
      length cmd == n && (not (extralen_of cmd == 0) && data_comes cmd s)
  is_complete (with_buffer n) cmd s =
      length cmd == n && (not (is_positive (extralen_of cmd)) || data_comes cmd s)
  is_complete nothing cmd s = false
