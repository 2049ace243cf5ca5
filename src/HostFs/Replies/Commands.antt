-- ===== src/HostFs/Replies/Commands.antt =====
-- What `do_hostfs` answers to a command.
use psplink.Base.{refl, Text}
use psplink.HostFs.Host.{Os}
use psplink.HostFs.Server.{Server, pure}
use psplink.HostFs.Wire.{command_of}
use psplink.HostFs.Dispatch.{
  Command, cmd_hello, cmd_open, cmd_close, cmd_read, cmd_write, cmd_lseek, cmd_remove, cmd_mkdir,
  cmd_rmdir, cmd_dopen, cmd_dread, cmd_dclose, cmd_getstat, cmd_chstat, cmd_rename, cmd_chdir,
  cmd_ioctl, cmd_devctl, unknown, command, handle, do_hostfs,
}
use psplink.HostFs.Replies.Answers.{Outcome}
use psplink.HostFs.Replies.Shapes.{is_complete, shape, answered_as}
use psplink.HostFs.Replies.Outcomes.{
  hello-Answers, handle_read-Outcome, handle_lseek-Outcome, handle_open-Outcome,
  handle_close-Outcome, handle_write-Outcome, handle_remove-Outcome, handle_mkdir-Outcome,
  handle_rmdir-Outcome, handle_dopen-Outcome, handle_dclose-Outcome, handle_getstat-Outcome,
  handle_chstat-Outcome, handle_rename-Outcome, handle_chdir-Outcome, handle_ioctl-Outcome,
  handle_devctl-Outcome, handle_dread-Outcome,
}

module _ {os : Os} where
  handle-Outcome :
      (k : Command) (cmd : Text) (s : Server os)
      → Outcome (is_complete (shape k) cmd s) (answered_as k) s (handle k cmd s).1
  unfolding handle pure
  handle-Outcome cmd_hello cmd s = hello-Answers.at s
  handle-Outcome cmd_open cmd s = handle_open-Outcome cmd s
  handle-Outcome cmd_close cmd s = handle_close-Outcome cmd s
  handle-Outcome cmd_read cmd s = handle_read-Outcome cmd s
  handle-Outcome cmd_write cmd s = handle_write-Outcome cmd s
  handle-Outcome cmd_lseek cmd s = handle_lseek-Outcome cmd s
  handle-Outcome cmd_remove cmd s = handle_remove-Outcome cmd s
  handle-Outcome cmd_mkdir cmd s = handle_mkdir-Outcome cmd s
  handle-Outcome cmd_rmdir cmd s = handle_rmdir-Outcome cmd s
  handle-Outcome cmd_dopen cmd s = handle_dopen-Outcome cmd s
  handle-Outcome cmd_dread cmd s = handle_dread-Outcome cmd s
  handle-Outcome cmd_dclose cmd s = handle_dclose-Outcome cmd s
  handle-Outcome cmd_getstat cmd s = handle_getstat-Outcome cmd s
  handle-Outcome cmd_chstat cmd s = handle_chstat-Outcome cmd s
  handle-Outcome cmd_rename cmd s = handle_rename-Outcome cmd s
  handle-Outcome cmd_chdir cmd s = handle_chdir-Outcome cmd s
  handle-Outcome cmd_ioctl cmd s = handle_ioctl-Outcome cmd s
  handle-Outcome cmd_devctl cmd s = handle_devctl-Outcome cmd s
  handle-Outcome unknown cmd s = refl

  -- A command is answered exactly once if it is complete: with a response that names it (for DREAD:
  -- READ) and, where the response announces a length and could be sent, with a payload of that
  -- length. A command that is not known, of the wrong size or without its data is not answered.
  pub do_hostfs-Outcome :
      (cmd : Text) (s : Server os)
      → Outcome
          (is_complete (shape (command (command_of cmd))) cmd s)
          (answered_as (command (command_of cmd)))
          s
          (do_hostfs cmd s).1
  unfolding do_hostfs
  do_hostfs-Outcome cmd = handle-Outcome (command (command_of cmd)) cmd
