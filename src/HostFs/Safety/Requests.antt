-- ===== src/HostFs/Safety/Requests.antt =====
-- Every request keeps an invariant.
use psplink.Base.{ℕ, zero, suc, List, [], ◌∷◌, Option, Text}
use psplink.HostFs.Host.{Sys, Os}
use psplink.HostFs.Server.{Server, Serve, SceIoStat, DevctlGetInfo, entry}
use psplink.HostFs.Files.{
  open_file, on_file, read_file, close_file, seek_file, handle_open, handle_close, handle_read,
  handle_write, handle_lseek,
}
use psplink.HostFs.Dirs.{dir_open, dir_close, read_entry, handle_dopen, handle_dread, handle_dclose}
use psplink.HostFs.Entries.{
  on_name, answer_stat, handle_remove, handle_rmdir, handle_mkdir, handle_getstat, handle_chstat,
  handle_rename, handle_chdir,
}
use psplink.HostFs.Dispatch.{
  Command, cmd_hello, cmd_open, cmd_close, cmd_read, cmd_write, cmd_lseek, cmd_remove, cmd_mkdir,
  cmd_rmdir, cmd_dopen, cmd_dread, cmd_dclose, cmd_getstat, cmd_chstat, cmd_rename, cmd_chdir,
  cmd_ioctl, cmd_devctl, unknown, get_drive_info, answer_info, handle_hello, handle_ioctl,
  handle_devctl, handle, do_hostfs, do_async, read_blocks, write_bulk, do_bulk,
}
use psplink.HostFs.Session.{Input, packet, timed_out, disconnected, serve_packet, serve}
use psplink.HostFs.Safety.Keeps.{Keeps, Keeps-pure, Keeps-bind, Keeps-if, Keeps-case_option}
use psplink.HostFs.Safety.Invariant.{IsInvariant, invariant_rules}
use psplink.HostFs.Safety.Calls.{answer-Keeps, answer_with-Keeps, call_rules}

module _ {os : Os} {granted : Text → Type 0} {P : Server os → Type 0}
    (inv : IsInvariant granted P) where
  open_file-Keeps :
      (drive : ℕ) (path : Text) (mode mask : ℕ) → Keeps {os = os} P (open_file drive path mode mask)
  unfolding open_file
  open_file-Keeps drive path mode mask = search (invariant_rules, call_rules) depth 12

  pub dir_close-Keeps : (did : ℕ) → Keeps {os = os} P (dir_close did)
  unfolding dir_close
  dir_close-Keeps did = search (invariant_rules, call_rules) depth 12

  dir_open-Keeps : (drive : ℕ) (path : Text) → Keeps {os = os} P (dir_open drive path)
  unfolding dir_open
  dir_open-Keeps drive path = search (invariant_rules, call_rules) depth 12

  close_file-Keeps : (fid : ℕ) → Keeps {os = os} P (close_file fid)
  unfolding close_file
  close_file-Keeps fid = search (invariant_rules, call_rules) depth 12

  seek_file-Keeps : (fid ofs whence : ℕ) → Keeps {os = os} P (seek_file fid ofs whence)
  unfolding seek_file
  seek_file-Keeps fid ofs whence = search (invariant_rules, call_rules) depth 12

  read_file-Keeps : (fid len : ℕ) → Keeps {os = os} P (read_file fid len)
  unfolding read_file
  read_file-Keeps fid len = search (invariant_rules, call_rules) depth 12

  on_file-Keeps : (fid : ℕ) (m : Serve os ℕ) → Keeps P m → Keeps P (on_file fid m)
  unfolding on_file
  on_file-Keeps fid m k = search invariant_rules

  on_name-Keeps :
      (drive : ℕ) (path : Text) (act : Text → Serve os ℕ)
      → ((p : Text) → granted p → Keeps P (act p))
      → Keeps P (on_name drive path act)
  unfolding on_name
  on_name-Keeps drive path act k = search invariant_rules

  answer_stat-Keeps : (st : Sys SceIoStat) → Keeps {os = os} P (answer_stat st)
  unfolding answer_stat
  answer_stat-Keeps st = search (invariant_rules, call_rules) depth 12

  answer_info-Keeps : (o : Option DevctlGetInfo) → Keeps {os = os} P (answer_info o)
  unfolding answer_info
  answer_info-Keeps o = search (invariant_rules, call_rules) depth 12

  get_drive_info-Keeps : (drive : ℕ) → Keeps {os = os} P (get_drive_info drive)
  unfolding get_drive_info
  get_drive_info-Keeps drive = search (invariant_rules, call_rules) depth 12

  read_entry-Keeps : (did : ℕ) → Keeps {os = os} P (read_entry did)
  unfolding read_entry
  read_entry-Keeps did = Keeps-bind _ _ (inv.keeps_next did) λ next.
      Keeps-case_option next _ _ (answer-Keeps inv _ 0)
        λ (e, res) _. answer_with-Keeps inv _ 352 res (entry e)

  handle_open-Keeps : (cmd : Text) → Keeps {os = os} P (handle_open cmd)
  unfolding handle_open
  handle_open-Keeps cmd = search (invariant_rules, call_rules, open_file-Keeps) depth 12

  handle_close-Keeps : (cmd : Text) → Keeps {os = os} P (handle_close cmd)
  unfolding handle_close
  handle_close-Keeps cmd = search (invariant_rules, call_rules, close_file-Keeps) depth 12

  handle_read-Keeps : (cmd : Text) → Keeps {os = os} P (handle_read cmd)
  unfolding handle_read
  handle_read-Keeps cmd = search (invariant_rules, call_rules, read_file-Keeps) depth 12

  handle_write-Keeps : (cmd : Text) → Keeps {os = os} P (handle_write cmd)
  unfolding handle_write
  handle_write-Keeps cmd = search (invariant_rules, call_rules, on_file-Keeps) depth 12

  handle_lseek-Keeps : (cmd : Text) → Keeps {os = os} P (handle_lseek cmd)
  unfolding handle_lseek
  handle_lseek-Keeps cmd = search (invariant_rules, call_rules, seek_file-Keeps) depth 12

  handle_dopen-Keeps : (cmd : Text) → Keeps {os = os} P (handle_dopen cmd)
  unfolding handle_dopen
  handle_dopen-Keeps cmd = search (invariant_rules, call_rules, dir_open-Keeps) depth 12

  handle_dread-Keeps : (cmd : Text) → Keeps {os = os} P (handle_dread cmd)
  unfolding handle_dread
  handle_dread-Keeps cmd = search (invariant_rules, call_rules, read_entry-Keeps) depth 12

  handle_dclose-Keeps : (cmd : Text) → Keeps {os = os} P (handle_dclose cmd)
  unfolding handle_dclose
  handle_dclose-Keeps cmd = search (invariant_rules, call_rules, dir_close-Keeps) depth 12

  handle_remove-Keeps : (cmd : Text) → Keeps {os = os} P (handle_remove cmd)
  unfolding handle_remove
  handle_remove-Keeps cmd = search (invariant_rules, call_rules, on_name-Keeps) depth 12

  handle_rmdir-Keeps : (cmd : Text) → Keeps {os = os} P (handle_rmdir cmd)
  unfolding handle_rmdir
  handle_rmdir-Keeps cmd = search (invariant_rules, call_rules, on_name-Keeps) depth 12

  handle_mkdir-Keeps : (cmd : Text) → Keeps {os = os} P (handle_mkdir cmd)
  unfolding handle_mkdir
  handle_mkdir-Keeps cmd = search (invariant_rules, call_rules, on_name-Keeps) depth 12

  handle_chstat-Keeps : (cmd : Text) → Keeps {os = os} P (handle_chstat cmd)
  unfolding handle_chstat
  handle_chstat-Keeps cmd = search (invariant_rules, call_rules, on_name-Keeps) depth 12

  handle_getstat-Keeps : (cmd : Text) → Keeps {os = os} P (handle_getstat cmd)
  unfolding handle_getstat
  handle_getstat-Keeps cmd = search (invariant_rules, call_rules, answer_stat-Keeps) depth 12

  handle_rename-Keeps : (cmd : Text) → Keeps {os = os} P (handle_rename cmd)
  unfolding handle_rename
  handle_rename-Keeps cmd = search (invariant_rules, call_rules) depth 12

  handle_chdir-Keeps : (cmd : Text) → Keeps {os = os} P (handle_chdir cmd)
  unfolding handle_chdir
  handle_chdir-Keeps cmd = search (invariant_rules, call_rules) depth 12

  handle_hello-Keeps : Keeps {os = os} P handle_hello
  unfolding handle_hello
  handle_hello-Keeps = search (invariant_rules, call_rules) depth 12

  handle_ioctl-Keeps : (cmd : Text) → Keeps {os = os} P (handle_ioctl cmd)
  unfolding handle_ioctl
  handle_ioctl-Keeps cmd = search (invariant_rules, call_rules) depth 12

  handle_devctl-Keeps : (cmd : Text) → Keeps {os = os} P (handle_devctl cmd)
  unfolding handle_devctl
  handle_devctl-Keeps cmd =
      search (invariant_rules, call_rules, get_drive_info-Keeps, answer_info-Keeps) depth 12

  handle-Keeps : (k : Command) (cmd : Text) → Keeps {os = os} P (handle k cmd)
  unfolding handle
  handle-Keeps cmd_hello cmd = handle_hello-Keeps
  handle-Keeps cmd_open cmd = handle_open-Keeps cmd
  handle-Keeps cmd_close cmd = handle_close-Keeps cmd
  handle-Keeps cmd_read cmd = handle_read-Keeps cmd
  handle-Keeps cmd_write cmd = handle_write-Keeps cmd
  handle-Keeps cmd_lseek cmd = handle_lseek-Keeps cmd
  handle-Keeps cmd_remove cmd = handle_remove-Keeps cmd
  handle-Keeps cmd_mkdir cmd = handle_mkdir-Keeps cmd
  handle-Keeps cmd_rmdir cmd = handle_rmdir-Keeps cmd
  handle-Keeps cmd_dopen cmd = handle_dopen-Keeps cmd
  handle-Keeps cmd_dread cmd = handle_dread-Keeps cmd
  handle-Keeps cmd_dclose cmd = handle_dclose-Keeps cmd
  handle-Keeps cmd_getstat cmd = handle_getstat-Keeps cmd
  handle-Keeps cmd_chstat cmd = handle_chstat-Keeps cmd
  handle-Keeps cmd_rename cmd = handle_rename-Keeps cmd
  handle-Keeps cmd_chdir cmd = handle_chdir-Keeps cmd
  handle-Keeps cmd_ioctl cmd = handle_ioctl-Keeps cmd
  handle-Keeps cmd_devctl cmd = handle_devctl-Keeps cmd
  handle-Keeps unknown cmd = Keeps-pure tt

  do_hostfs-Keeps : (cmd : Text) → Keeps {os = os} P (do_hostfs cmd)
  unfolding do_hostfs
  do_hostfs-Keeps cmd = search (invariant_rules, call_rules, handle-Keeps) depth 12

  do_async-Keeps : (cmd : Text) → Keeps {os = os} P (do_async cmd)
  unfolding do_async
  do_async-Keeps cmd = search (invariant_rules, call_rules) depth 12

  read_blocks-Keeps :
      (fuel left : ℕ) (block : Text) → Keeps {os = os} P (read_blocks fuel left block)
  unfolding read_blocks
  read_blocks-Keeps zero left block = search invariant_rules
  read_blocks-Keeps (suc fuel) left block =
      search (invariant_rules, read_blocks-Keeps fuel) depth 12

  write_bulk-Keeps : (block : Text) → Keeps {os = os} P (write_bulk block)
  unfolding write_bulk
  write_bulk-Keeps block = search (invariant_rules, call_rules) depth 12

  do_bulk-Keeps : (cmd : Text) → Keeps {os = os} P (do_bulk cmd)
  unfolding do_bulk
  do_bulk-Keeps cmd =
      search (invariant_rules, call_rules, read_blocks-Keeps, write_bulk-Keeps) depth 12

  serve_packet-Keeps : (p : Text) → Keeps {os = os} P (serve_packet p)
  unfolding serve_packet
  serve_packet-Keeps p =
      search (invariant_rules, call_rules, do_hostfs-Keeps, do_async-Keeps, do_bulk-Keeps) depth 12

  pub serve-Keeps : (inputs : List Input) → Keeps {os = os} P (serve inputs)
  unfolding serve
  serve-Keeps [] = Keeps-pure tt
  serve-Keeps (timed_out ∷ inputs) = serve-Keeps inputs
  serve-Keeps (disconnected ∷ inputs) = Keeps-pure tt
  serve-Keeps (packet p ∷ inputs) =
      Keeps-bind (serve_packet p) _ (serve_packet-Keeps p)
        λ goes_on. Keeps-if goes_on _ _ (λ _. serve-Keeps inputs) (λ _. Keeps-pure tt)
