-- ===== src/HostFs/Dispatch.antt =====
-- usbhostfs_pc/main.c: the handlers of HELLO, IOCTL and DEVCTL with `get_drive_info`, `do_hostfs`,
-- `do_async` and `do_bulk`.
use psplink.Base.{
  ℕ, zero, suc, ◌-◌, ◌/◌, ◌^◌, List, [], ◌∷◌, ◌++◌, Option, none, some, ltb, leb, ◌==◌, ◌&&◌,
  if◌then◌else◌, Text, length, get_or, drop, min,
}
use psplink.HostFs.Host.{Volume, Os}
use psplink.HostFs.Paths.Resolve.{max_hostdrives, no_drive}
use psplink.HostFs.Server.{
  max_files, DevctlGetInfo, Serve, drive_info, hello_response, minus_one, pure, ◌>>=◌, ◌>>◌, gets,
  ask, case_option, system, send,
}
use psplink.HostFs.Wire.{u32_at, command_of, hostfs_cmd, with_input, answer, answer_with}
use psplink.HostFs.Transfer.{fixed_write}
use psplink.HostFs.Files.{
  is_open, handle_open, handle_close, handle_read, handle_write, handle_lseek,
}
use psplink.HostFs.Dirs.{handle_dopen, handle_dread, handle_dclose}
use psplink.HostFs.Entries.{
  handle_remove, handle_rmdir, handle_mkdir, handle_getstat, handle_chstat, handle_rename,
  handle_chdir,
}

-- `enum HostFsCommands`, but BYE, which no case of `do_hostfs` names.
pub data Command : Type 0 where
  cmd_hello : Command
  cmd_open : Command
  cmd_close : Command
  cmd_read : Command
  cmd_write : Command
  cmd_lseek : Command
  cmd_remove : Command
  cmd_mkdir : Command
  cmd_rmdir : Command
  cmd_dopen : Command
  cmd_dread : Command
  cmd_dclose : Command
  cmd_getstat : Command
  cmd_chstat : Command
  cmd_rename : Command
  cmd_chdir : Command
  cmd_ioctl : Command
  cmd_devctl : Command
  unknown : Command

-- The cases of the `switch`, by the number behind that of HELLO.
abbrev pub commands : List Command
commands =
    cmd_hello ∷ unknown ∷ cmd_open ∷ cmd_close ∷ cmd_read ∷ cmd_write ∷ cmd_lseek ∷ cmd_remove
    ∷ cmd_mkdir ∷ cmd_rmdir ∷ cmd_dopen ∷ cmd_dread ∷ cmd_dclose ∷ cmd_getstat ∷ cmd_chstat
    ∷ cmd_rename ∷ cmd_chdir ∷ cmd_ioctl ∷ cmd_devctl ∷ []

unfoldable pub command : ℕ → Command
command n = if leb (hostfs_cmd 0) n then get_or commands (n - hostfs_cmd 0) unknown else unknown

abbrev pub volume_info : Volume → DevctlGetInfo
volume_info v = record {
  btotal = v.f_blocks;
  bfree = v.f_bfree;
  unk = v.f_blocks;
  ssize = 512;
  sects = v.f_frsize / 512;
}

abbrev pub info_of : Option Volume → Option DevctlGetInfo
info_of none = none
info_of (some v) = some (volume_info v)

abbrev pub devctl_get_info : ℕ
devctl_get_info = 0x02425818

abbrev pub hostfs_max_block : ℕ
hostfs_max_block = 65536

-- A size that is negative as an `int` lets neither loop run.
abbrev pub as_size : ℕ → ℕ
as_size n = if ltb n (2 ^ 31) then n else 0

module _ {os : Os} where
  unfoldable pub handle_hello : Serve os Unit
  handle_hello = do send hello_response; pure tt

  unfoldable pub handle_ioctl : Text → Serve os Unit
  handle_ioctl cmd = with_input 24 cmd (answer (hostfs_cmd 17) minus_one)

  unfoldable pub get_drive_info : ℕ → Serve os (Option DevctlGetInfo)
  get_drive_info drive = if leb max_hostdrives drive then pure none else do
    g ← gets (λ s. s.setup)
    volume ← ask (os.statvfs (get_or g.drives drive no_drive).rootdir)
    pure (info_of volume)

  unfoldable pub answer_info : Option DevctlGetInfo → Serve os Unit
  answer_info o =
      case_option o (answer (hostfs_cmd 18) minus_one)
        λ info. answer_with (hostfs_cmd 18) 20 0 (drive_info info)

  unfoldable pub handle_devctl : Text → Serve os Unit
  handle_devctl cmd = with_input 24 cmd (
      if u32_at cmd 12 == devctl_get_info
      then (do info ← get_drive_info (u32_at cmd 16); answer_info info)
      else answer (hostfs_cmd 18) minus_one)

  unfoldable pub handle : Command → Text → Serve os Unit
  handle cmd_hello cmd = handle_hello
  handle cmd_open cmd = handle_open cmd
  handle cmd_close cmd = handle_close cmd
  handle cmd_read cmd = handle_read cmd
  handle cmd_write cmd = handle_write cmd
  handle cmd_lseek cmd = handle_lseek cmd
  handle cmd_remove cmd = handle_remove cmd
  handle cmd_mkdir cmd = handle_mkdir cmd
  handle cmd_rmdir cmd = handle_rmdir cmd
  handle cmd_dopen cmd = handle_dopen cmd
  handle cmd_dread cmd = handle_dread cmd
  handle cmd_dclose cmd = handle_dclose cmd
  handle cmd_getstat cmd = handle_getstat cmd
  handle cmd_chstat cmd = handle_chstat cmd
  handle cmd_rename cmd = handle_rename cmd
  handle cmd_chdir cmd = handle_chdir cmd
  handle cmd_ioctl cmd = handle_ioctl cmd
  handle cmd_devctl cmd = handle_devctl cmd
  handle unknown cmd = pure tt

  unfoldable pub do_hostfs : Text → Serve os Unit
  do_hostfs cmd = handle (command (command_of cmd)) cmd

  unfoldable pub do_async : Text → Serve os Unit
  do_async cmd =
      if ltb 8 (length cmd)
      then (do
        socks ← gets (λ s. s.clientsocks)
        case_option (if ltb (u32_at cmd 4) 8 then get_or socks (u32_at cmd 4) none else none)
            (pure tt) λ sock. system (λ w. (tt, os.send_socket sock (drop 8 cmd) w)))
      else pure tt

  -- The blocks of a bulk transfer, by the bytes that are still wanted: all of them, or nothing where
  -- a transfer fails.
  unfoldable pub read_blocks : ℕ → ℕ → Text → Serve os (Option Text)
  read_blocks zero left block = pure (some block)
  read_blocks (suc fuel) left block = if left == 0 then pure (some block) else do
    got ← system (os.bulk_read (min left hostfs_max_block))
    case_option got (pure none) λ part.
        if length part == min left hostfs_max_block
        then read_blocks fuel (left - min left hostfs_max_block) (block ++ part)
        else pure none

  -- The write to the file that is open in bulk mode.
  unfoldable pub write_bulk : Text → Serve os Unit
  write_bulk block = do
    fd ← gets (λ s. s.bulkfd)
    files ← gets (λ s. s.open_files)
    case_option fd (pure tt) λ fd.
        if ltb fd max_files && is_open fd files then (do fixed_write fd block; pure tt) else pure tt

  unfoldable pub do_bulk : Text → Serve os Unit
  do_bulk cmd = do
    block ←
        read_blocks (suc (as_size (u32_at cmd 4) / hostfs_max_block)) (as_size (u32_at cmd 4)) []
    case_option block (pure tt) write_bulk
