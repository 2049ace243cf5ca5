-- ===== src/HostFs/Files.antt =====
-- usbhostfs_pc/main.c: `open_file` and the handlers of OPEN, CLOSE,
-- READ, WRITE and LSEEK. The descriptor that `open` returns is not negative.
use psplink.Base.{
  ℕ, ◌^◌, Bool, true, false, List, Option, none, some, ltb, ◌==◌, ◌&&◌, not, if◌then◌else◌, Text,
  length, get_or, take, set, bit_and,
}
use psplink.Base.Texts.{cstr}
use psplink.HostFs.Host.{
  Sys, done, failed, directory, Stat, OpenAccess, read_write, read_only, write_only, Flags, Os,
}
use psplink.HostFs.Server.{
  max_files, FileHandle, Serve, on_path, bytes, position, get_error, enoent, einval, emfile,
  minus_one, result_of, pure, ◌>>=◌, ◌>>◌, gets, path_of, ask, case_option, case_sys, system, touch,
  send,
}
use psplink.HostFs.Transfer.{fixed_read, fixed_write}
use psplink.HostFs.Wire.{u32_at, u64_at, hostfs_cmd, is_positive, with_data, answer, answer_with}

abbrev pub psp_o_append : ℕ
psp_o_append = 0x100

abbrev pub psp_o_creat : ℕ
psp_o_creat = 0x200

abbrev pub psp_o_trunc : ℕ
psp_o_trunc = 0x400

abbrev pub psp_o_excl : ℕ
psp_o_excl = 0x800

abbrev pub hostfs_bulk_open : ℕ
hostfs_bulk_open = 2 ^ 24

-- `mode & flag`
unfoldable pub has : ℕ → ℕ → Bool
has mode flag = not (bit_and mode flag == 0)

-- The access that the first tests of `open_file` choose: PSP_O_RDWR has the bits of both others.
unfoldable pub access_of : ℕ → Option OpenAccess
access_of mode =
    if bit_and mode 3 == 3
    then some read_write
    else if has mode 1
    then some read_only
    else if has mode 2
    then some write_only
    else none

unfoldable pub real_mode : ℕ → OpenAccess → Flags
real_mode mode access = record {
  access = access;
  append = has mode psp_o_append;
  creat = has mode psp_o_creat;
  trunc = has mode psp_o_trunc;
  excl = has mode psp_o_excl;
}

abbrev pub is_directory : Sys Stat → Bool
is_directory (failed e) = false
is_directory (done st) = elim st.kind [ directory ↦ true | _ ↦ false ]

abbrev pub closed_file : FileHandle
closed_file = record { opened = false; mode = 0; name = none }

-- `opened = 0` and `name = NULL`
abbrev pub closing : FileHandle → FileHandle
closing file = record file { opened = false; name = none }

-- Whether `open_files[fid]` is in use.
abbrev pub is_open : ℕ → List FileHandle → Bool
is_open fid files = (get_or files fid closed_file).opened

-- The result of a read is announced as the length of the payload where it is not negative.
abbrev pub read_extralen : ℕ → ℕ
read_extralen res = if ltb res (2 ^ 31) then res else 0

-- The descriptors that CLOSE and LSEEK accept: not the three standard ones.
abbrev pub is_closable : ℕ → List FileHandle → Bool
is_closable fid files = ltb 2 fid && ltb fid max_files && is_open fid files

-- `g_bulkfd = -1` where it names the descriptor
abbrev pub without_bulk : ℕ → Option ℕ → Option ℕ
without_bulk fid none = none
without_bulk fid (some fd) = if fid == fd then none else some fd

module _ {os : Os} where
  unfoldable pub is_dir : Text → Serve os Bool
  is_dir path = do touch (on_path path); st ← ask (os.stat path); pure (is_directory st)

  -- The handle of a new descriptor, and `g_bulkfd` for one in bulk mode.
  unfoldable pub enter_file : ℕ → ℕ → Text → Serve os Unit
  enter_file fd mode path s = (
    tt,
    record s {
      open_files = set s.open_files fd (record { opened = true; mode = mode; name = some path });
      bulkfd = if has mode hostfs_bulk_open then some fd else s.bulkfd;
    },
  )

  -- What `open_file` does with the descriptor.
  unfoldable pub record_file : Text → ℕ → Sys ℕ → Serve os ℕ
  record_file path mode r =
      case_sys r (λ e. pure (get_error e))
        λ fd.
          if ltb fd max_files
          then (do enter_file fd mode path; pure fd)
          else (do system (os.close_fd fd); pure (get_error emfile))

  unfoldable pub open_path : Text → ℕ → ℕ → Serve os ℕ
  open_path path mode mask = case_option (access_of mode) (pure (get_error einval)) λ access. do
    directory_there ← is_dir path
    if directory_there then pure (get_error enoent) else do
      touch (on_path path)
      fd ← system (os.open_fd path (real_mode mode access) (bit_and mask 0xFFFFFFB6))
      record_file path mode fd

  unfoldable pub open_file : ℕ → Text → ℕ → ℕ → Serve os ℕ
  open_file drive path mode mask = do
    fullpath ← path_of drive path false
    case_option fullpath (pure (get_error enoent)) λ fullpath. open_path fullpath mode mask

  unfoldable pub handle_open : Text → Serve os Unit
  handle_open cmd = with_data 24 cmd λ path. do
    res ← open_file (u32_at cmd 20) (cstr path) (u32_at cmd 12) (u32_at cmd 16)
    answer (hostfs_cmd 2) res

  -- An operation on a descriptor that is in range and open.
  unfoldable pub on_file : ℕ → Serve os ℕ → Serve os ℕ
  on_file fid m = do
    files ← gets (λ s. s.open_files)
    if ltb fid max_files && is_open fid files then m else pure minus_one

  unfoldable pub handle_write : Text → Serve os Unit
  handle_write cmd = with_data 16 cmd λ write_block. do
    res ← on_file (u32_at cmd 12) (fixed_write (u32_at cmd 12) write_block)
    answer (hostfs_cmd 5) res

  unfoldable pub read_file : ℕ → ℕ → Serve os Unit
  read_file fid len = do
    (res, read_block) ← fixed_read fid len
    answer_with (hostfs_cmd 4) (read_extralen res) res (bytes (take (read_extralen res) read_block))

  unfoldable pub handle_read : Text → Serve os Unit
  handle_read cmd =
      if length cmd == 20
      then (if is_positive (u32_at cmd 16)
          then (do
            files ← gets (λ s. s.open_files)
            if ltb (u32_at cmd 12) max_files && is_open (u32_at cmd 12) files
                then read_file (u32_at cmd 12) (u32_at cmd 16)
                else answer (hostfs_cmd 4) minus_one)
          else pure tt)
      else pure tt

  -- The handle is not in use any more, nor does `g_bulkfd` name it.
  unfoldable pub forget_file : ℕ → Serve os Unit
  forget_file fid s = (
    tt,
    record s {
      open_files = set s.open_files fid (closing (get_or s.open_files fid closed_file));
      bulkfd = without_bulk fid s.bulkfd;
    },
  )

  unfoldable pub close_file : ℕ → Serve os ℕ
  close_file fid = do closed ← system (os.close_fd fid); forget_file fid; pure (result_of closed)

  unfoldable pub handle_close : Text → Serve os Unit
  handle_close cmd =
      if length cmd == 16
      then (do
        files ← gets (λ s. s.open_files)
        res ←
            (if is_closable (u32_at cmd 12) files
              then close_file (u32_at cmd 12)
              else pure minus_one)
        answer (hostfs_cmd 3) res)
      else pure tt

  unfoldable pub seek_file : ℕ → ℕ → ℕ → Serve os (ℕ × ℕ)
  seek_file fid ofs whence = do
    files ← gets (λ s. s.open_files)
    if is_closable fid files
        then (do
          ofs ← system (os.lseek fid ofs whence)
          pure (if ltb ofs (2 ^ 63) then 0 else minus_one, ofs))
        else pure (minus_one, 0)

  unfoldable pub handle_lseek : Text → Serve os Unit
  handle_lseek cmd =
      if length cmd == 28
      then (do
        (res, ofs) ← seek_file (u32_at cmd 12) (u64_at cmd 16) (u32_at cmd 24)
        send (position res ofs)
        pure tt)
      else pure tt
