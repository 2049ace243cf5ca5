-- ===== src/HostFs/Session.antt =====
-- usbhostfs_pc/main.c: `add_drive`, `init_hostfs`, `close_hostfs` and the loop of `start_hostfs`.
use psplink.Base.{
  ℕ, zero, suc, ◌+◌, Bool, true, false, List, [], ◌∷◌, ◌++◌, map, Option, none, some, ltb, ◌==◌,
  if◌then◌else◌, Text, get_or, set, length, replicate,
}
use psplink.HostFs.Paths.Tokens.{gen_path}
use psplink.HostFs.Host.{Os}
use psplink.HostFs.Paths.Resolve.{HostDrive, max_hostdrives, printed}
use psplink.HostFs.Server.{
  max_files, max_dirs, FileHandle, Serve, pure, ◌>>=◌, ◌>>◌, gets, ask, system, change_files,
  change_dirs, change_drives,
}
use psplink.HostFs.Wire.{u32_at}
use psplink.HostFs.Files.{closed_file, closing, is_open}
use psplink.HostFs.Dirs.{closed_dir, dir_close}
use psplink.HostFs.Entries.{is_absolute}
use psplink.HostFs.Dispatch.{do_hostfs, do_async, do_bulk}

abbrev pub root_drive : Text → HostDrive
root_drive rootdir = record { rootdir = rootdir; currdir = b'/' ∷ [] }

abbrev pub in_root : HostDrive → HostDrive
in_root d = record d { currdir = b'/' ∷ [] }

abbrev pub is_there : Option (List Text) → Bool
is_there none = false
is_there (some names) = true

-- HOSTFS_MAGIC, ASYNC_MAGIC and BULK_MAGIC
abbrev pub hostfs_magic : ℕ
hostfs_magic = 0x782F0812

abbrev pub async_magic : ℕ
async_magic = 0x782F0813

abbrev pub bulk_magic : ℕ
bulk_magic = 0x782F0814

-- The path that `add_drive` makes of a directory.
unfoldable pub drive_root : Text → Text → Text
drive_root rootdir dir =
    gen_path (if is_absolute dir then dir else printed (rootdir ++ b'/' ∷ dir)) false

unfoldable pub close_handle : ℕ → List FileHandle → List FileHandle
close_handle i files = set files i (closing (get_or files i closed_file))

-- What `usb_bulk_read` brings to the loop: a packet that is not empty, `-ETIMEDOUT`, or the end of
-- the connection.
pub data Input : Type 0 where
  packet : Text → Input
  timed_out : Input
  disconnected : Input

module _ {os : Os} where
  -- `rootdir` is `g_rootdir`, the directory that the program was started in.
  unfoldable pub add_drive : Text → ℕ → Text → Serve os Bool
  add_drive rootdir num dir =
      if ltb num max_hostdrives
      then (do
        names ← ask (os.names (drive_root rootdir dir))
        if is_there names
            then (do
              change_drives λ ds. set ds num (root_drive (drive_root rootdir dir))
              pure true)
            else pure false)
      else pure false

  unfoldable pub init_hostfs : Serve os Unit
  init_hostfs = do
    change_files (λ _. replicate max_files closed_file)
    change_dirs (λ _. replicate max_dirs closed_dir)
    change_drives (map in_root)

  -- The files from `i` on, `n` of them.
  unfoldable pub close_files : ℕ → ℕ → Serve os Unit
  close_files zero i = pure tt
  close_files (suc n) i = do
    files ← gets (λ s. s.open_files)
    if is_open i files then (do system (os.close_fd i); change_files (close_handle i)) else pure tt
    close_files n (i + 1)

  unfoldable pub close_dirs : ℕ → ℕ → Serve os Unit
  close_dirs zero i = pure tt
  close_dirs (suc n) i = do dir_close i; close_dirs n (i + 1)

  unfoldable pub close_hostfs : Serve os Unit
  close_hostfs = do close_files 253 3; close_dirs max_dirs 0

  -- The body of the loop, for a packet; whether the loop goes on.
  unfoldable pub serve_packet : Text → Serve os Bool
  serve_packet p =
      if ltb (length p) 4
      then pure false
      else if u32_at p 0 == hostfs_magic
      then (if ltb (length p) 12 then pure false else do do_hostfs p; pure true)
      else if u32_at p 0 == async_magic
      then (if ltb (length p) 8 then pure false else do do_async p; pure true)
      else if u32_at p 0 == bulk_magic
      then (if ltb (length p) 8 then pure false else do do_bulk p; pure true)
      else pure true

  unfoldable pub serve : List Input → Serve os Unit
  serve [] = pure tt
  serve (timed_out ∷ inputs) = serve inputs
  serve (disconnected ∷ inputs) = pure tt
  serve (packet p ∷ inputs) = do goes_on ← serve_packet p; if goes_on then serve inputs else pure tt

  -- One round of the outer loop of `start_hostfs`, with what comes until the device goes.
  unfoldable pub connection : List Input → Serve os Unit
  connection inputs = do
    init_hostfs
    ready ← system (os.bulk_write 4)
    if ready then serve inputs else pure tt
    close_hostfs
