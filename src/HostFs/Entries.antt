-- ===== src/HostFs/Entries.antt =====
-- usbhostfs_pc/main.c: the handlers of REMOVE, RMDIR, MKDIR, GETSTAT, CHSTAT, RENAME and CHDIR, which
-- name a file, with `psp_settime` and `psp_chstat`.
use psplink.Base.{
  ℕ, suc, Bool, true, false, List, [], ◌∷◌, ◌++◌, Option, ltb, ◌==◌, ◌&&◌, not, if◌then◌else◌, Text,
  length, get_or, drop, set, bit_and,
}
use psplink.Base.Texts.{cstr}
use psplink.HostFs.Host.{Sys, done, failed, DateTime, Stat, Os}
use psplink.HostFs.Paths.Resolve.{max_hostdrives, HostDrive, no_drive}
use psplink.HostFs.Server.{
  SceIoStat, Serve, on_path, status, get_error, minus_one, result_of, pure, ◌>>=◌, ◌>>◌, path_of,
  ask, case_option, case_sys, system, change_drives, touch,
}
use psplink.HostFs.Wire.{u32_at, time_at, hostfs_cmd, with_data, answer, answer_with}
use psplink.HostFs.Dirs.{fill_stat}

abbrev pub psp_chstat_mode : ℕ
psp_chstat_mode = 0x1

abbrev pub psp_chstat_atime : ℕ
psp_chstat_atime = 0x10

abbrev pub psp_chstat_mtime : ℕ
psp_chstat_mtime = 0x20

-- Which of the times `psp_settime` sets.
pub data Which : Type 0 where
  access_time : Which
  modification_time : Which

abbrev pub actime : Which → ℕ → Stat → ℕ
actime access_time t st = t
actime modification_time t st = st.st_atime

abbrev pub modtime : Which → ℕ → Stat → ℕ
modtime access_time t st = st.st_mtime
modtime modification_time t st = t

-- Whether a call succeeded.
abbrev pub succeeded : Sys Unit → Bool
succeeded (done _) = true
succeeded (failed e) = false

-- `strrchr(path, '/')`: the text up to the last slash, with it; nothing without a slash.
unfoldable pub up_to_slash : Text → Text
up_to_slash [] = []
up_to_slash (c ∷ s) = go (up_to_slash s)
  where
    go : Text → Text
    go [] = if c == b'/' then c ∷ [] else []
    go (d ∷ t) = c ∷ d ∷ t

abbrev pub is_absolute : Text → Bool
is_absolute [] = false
is_absolute (c ∷ s) = c == b'/'

-- `strcpy(g_drives[fsnum].currdir, path)`
unfoldable pub enter_dir : ℕ → Text → List HostDrive → List HostDrive
enter_dir fsnum path ds = set ds fsnum (record (get_or ds fsnum no_drive) { currdir = path })

-- The two names behind a RENAME command, each with its terminator.
abbrev pub old_name : Text → Text
old_name path = cstr path

abbrev pub new_name : Text → Text
new_name path = cstr (drop (suc (length (cstr path))) path)

-- `destpath`
unfoldable pub dest_name : Text → Text → Text
unfolding up_to_slash
dest_name old new = if is_absolute old && not (is_absolute new) then up_to_slash old ++ new else new

module _ {os : Os} where
  -- A call on the path that a name stands for; without one the result stays -1.
  unfoldable pub on_name : ℕ → Text → (Text → Serve os ℕ) → Serve os ℕ
  on_name drive path act = do
    fullpath ← path_of drive path false
    case_option fullpath (pure minus_one) act

  -- A call that changes the world, on a path.
  unfoldable pub call_on : Text → (Text → os.World → Sys Unit × os.World) → Serve os (Sys Unit)
  call_on path f = do touch (on_path path); system (f path)

  unfoldable pub handle_remove : Text → Serve os Unit
  handle_remove cmd = with_data 16 cmd λ path. do
    res ←
        on_name (u32_at cmd 12) (cstr path)
          λ fullpath. do r ← call_on fullpath os.unlink; pure (result_of r)
    answer (hostfs_cmd 7) res

  unfoldable pub handle_rmdir : Text → Serve os Unit
  handle_rmdir cmd = with_data 16 cmd λ path. do
    res ←
        on_name (u32_at cmd 12) (cstr path)
          λ fullpath. do r ← call_on fullpath os.rmdir; pure (result_of r)
    answer (hostfs_cmd 9) res

  unfoldable pub handle_mkdir : Text → Serve os Unit
  handle_mkdir cmd = with_data 20 cmd λ path. do
    res ←
        on_name (u32_at cmd 16) (cstr path)
          λ fullpath. do r ← call_on fullpath (λ p. os.mkdir p (u32_at cmd 12)); pure (result_of r)
    answer (hostfs_cmd 8) res

  -- `LE32(resp.res) == 0` decides on the payload.
  unfoldable pub answer_stat : Sys SceIoStat → Serve os Unit
  answer_stat r =
      case_sys r (λ e. answer (hostfs_cmd 13) (get_error e))
        λ st. answer_with (hostfs_cmd 13) 88 0 (status st)

  unfoldable pub handle_getstat : Text → Serve os Unit
  handle_getstat cmd = with_data 16 cmd λ path. do
    fullpath ← path_of (u32_at cmd 12) (cstr path) false
    case_option fullpath (answer (hostfs_cmd 13) minus_one)
        λ fullpath. do st ← fill_stat fullpath; answer_stat st

  -- The last steps of `psp_settime`, with the status of the file and the time as the host counts it.
  unfoldable pub set_time : Text → Which → Sys Stat → Option ℕ → Serve os Bool
  set_time path which st convtime =
      case_sys st (λ e. pure false)
        λ st. case_option convtime (pure false) λ t. do
          r ← call_on path (λ p. os.utime p (actime which t st) (modtime which t st))
          pure (succeeded r)

  -- Whether the time was set.
  unfoldable pub psp_settime : Text → DateTime → Which → Serve os Bool
  psp_settime path ts which = do
    touch (on_path path)
    st ← ask (os.stat path)
    set_time path which st (os.mktime ts)

  -- One of the times of CHSTAT, where its bit is set.
  unfoldable pub change_time : ℕ → ℕ → Text → DateTime → Which → Serve os Bool
  change_time bits bit path ts which =
      if bit_and bits bit == 0 then pure true else psp_settime path ts which

  unfoldable pub change_mode : ℕ → Text → ℕ → Serve os (Sys Unit)
  change_mode bits path mode =
      if bit_and bits psp_chstat_mode == 0
      then pure (done tt)
      else call_on path (λ p. os.chmod p (bit_and mode 0x1FF))

  unfoldable pub psp_chstat : Text → Text → Serve os ℕ
  psp_chstat cmd path = do
    moded ← change_mode (u32_at cmd 12) path (u32_at cmd 16)
    if not (succeeded moded) then pure (result_of moded) else do
      accessed ← change_time (u32_at cmd 12) psp_chstat_atime path (time_at cmd 28) access_time
      if not accessed then pure minus_one else do
        modified ←
            change_time (u32_at cmd 12) psp_chstat_mtime path (time_at cmd 40) modification_time
        pure (if modified then 0 else minus_one)

  unfoldable pub handle_chstat : Text → Serve os Unit
  handle_chstat cmd = with_data 56 cmd λ path. do
    res ← on_name (u32_at cmd 52) (cstr path) (psp_chstat cmd)
    answer (hostfs_cmd 14) res

  unfoldable pub rename_paths : Option Text → Option Text → Serve os ℕ
  rename_paths old new = case_option old (pure minus_one) λ old.
      case_option new (pure minus_one) λ new. do
        touch (on_path old)
        touch (on_path new)
        r ← system (os.rename old new)
        pure (result_of r)

  unfoldable pub handle_rename : Text → Serve os Unit
  handle_rename cmd = with_data 16 cmd λ path. do
    old ← path_of (u32_at cmd 12) (old_name path) false
    new ← path_of (u32_at cmd 12) (dest_name (old_name path) (new_name path)) false
    res ← rename_paths old new
    answer (hostfs_cmd 15) res

  unfoldable pub change_dir : ℕ → Text → Serve os ℕ
  change_dir fsnum path =
      if ltb fsnum max_hostdrives
      then (do change_drives (enter_dir fsnum path); pure 0)
      else pure minus_one

  unfoldable pub handle_chdir : Text → Serve os Unit
  handle_chdir cmd =
      with_data 16 cmd
        λ path. do res ← change_dir (u32_at cmd 12) (cstr path); answer (hostfs_cmd 16) res
