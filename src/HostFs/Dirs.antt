-- ===== src/HostFs/Dirs.antt =====
-- usbhostfs_pc/main.c: `fill_stat`, `dir_open`, `dir_close` and the handlers of DOPEN, DREAD and
-- DCLOSE. Memory for a listing is always there.
use psplink.Base.{
  ℕ, suc, ◌+◌, ◌-◌, Bool, true, false, List, [], ◌∷◌, ◌++◌, Option, none, some, ltb, ◌==◌, ◌&&◌,
  if◌then◌else◌, Text, length, get_or, set, bit_and, bit_or,
}
use psplink.Base.Texts.{cstr}
use psplink.HostFs.Host.{Sys, done, failed, Kind, link, directory, other, DateTime, Stat, Os}
use psplink.HostFs.Paths.Resolve.{path_max, printed}
use psplink.HostFs.Server.{
  max_files, max_dirs, SceIoStat, SceIoDirent, DirHandle, Serve, on_path, on_entry, entry,
  get_error, enoent, emfile, enametoolong, minus_one, pure, ◌>>=◌, ◌>>◌, gets, path_of, ask,
  case_option, case_sys, change_dirs, touch,
}
use psplink.HostFs.Wire.{u32_at, hostfs_cmd, with_data, answer, answer_with}

-- FIO_SO_IFLNK, FIO_SO_IFDIR and FIO_SO_IFREG
abbrev pub attr_of : Kind → ℕ
attr_of link = 0x8
attr_of directory = 0x10
attr_of other = 0x20

-- FIO_S_IFLNK, FIO_S_IFDIR and FIO_S_IFREG
abbrev pub mode_of : Kind → ℕ
mode_of link = 0x4000
mode_of directory = 0x1000
mode_of other = 0x2000

-- The path of an entry of a directory: a slash is added where the directory has none at its end.
unfoldable pub ends_with_slash : Text → Bool
ends_with_slash [] = false
ends_with_slash (c ∷ []) = c == b'/'
ends_with_slash (c ∷ d ∷ s) = ends_with_slash (d ∷ s)

unfoldable pub entry_path : Text → Text → Text
unfolding ends_with_slash
entry_path dirname name =
    if ends_with_slash dirname then dirname ++ name else dirname ++ b'/' ∷ name

abbrev pub closed_dir : DirHandle
closed_dir = record { opened = false; count = 0; pos = 0; p_dir = [] }

abbrev midnight : DateTime
midnight = record { year = 0; month = 0; day = 0; hour = 0; minute = 0; second = 0 }

-- What a listing is read as behind its end, which no handler does.
abbrev pub no_entry : SceIoDirent
no_entry = record {
  stat = record {
    mode = 0;
    attr = 0;
    size = 0;
    ctime = midnight;
    atime = midnight;
    mtime = midnight;
  };
  name = [];
}

abbrev pub with_entry : SceIoStat → Text → Option (List SceIoDirent) → Option (List SceIoDirent)
with_entry st name none = none
with_entry st name (some entries) = some (record { stat = st; name = name } ∷ entries)

unfoldable pub clear_dir : ℕ → List DirHandle → List DirHandle
clear_dir did dirs = set dirs did closed_dir

-- The handle of a directory that has just been listed.
unfoldable pub fill_dir : ℕ → List SceIoDirent → List DirHandle → List DirHandle
fill_dir did entries dirs =
    set dirs did (record { opened = true; count = length entries; pos = 0; p_dir = entries })

-- The number of the first handle that is not in use, or that of the handles.
unfoldable pub free_dir : List DirHandle → ℕ
free_dir [] = 0
free_dir (d ∷ dirs) = let rest = free_dir dirs in if d.opened then suc rest else 0

module _ (os : Os) where
  unfoldable pub sce_stat : Stat → SceIoStat
  sce_stat st = record {
    mode = bit_or (mode_of st.kind) (bit_and st.st_mode 0x1FF);
    attr = attr_of st.kind;
    size = st.st_size;
    ctime = os.localtime st.st_ctime;
    atime = os.localtime st.st_atime;
    mtime = os.localtime st.st_mtime;
  }

  abbrev pub stat_result : Sys Stat → Sys SceIoStat
  stat_result (failed e) = failed e
  stat_result (done st) = done (sce_stat st)

module _ {os : Os} where
  -- `fill_stat` with a path that is converted already.
  unfoldable pub fill_stat : Text → Serve os (Sys SceIoStat)
  fill_stat path = do touch (on_path path); st ← ask (os.stat path); pure (stat_result os st)

  -- `fill_stat` with a directory.
  unfoldable pub fill_entry : Text → Text → Serve os (Sys SceIoStat)
  fill_entry dirname name =
      if ltb path_max (length (entry_path dirname name)) then pure (failed enametoolong) else do
        touch (on_entry dirname name)
        st ← ask (os.stat (printed (entry_path dirname name)))
        pure (stat_result os st)

  -- The loop over the names: nothing where one of them has no status.
  unfoldable pub fill_entries : Text → List Text → Serve os (Option (List SceIoDirent))
  fill_entries dirname [] = pure (some [])
  fill_entries dirname (name ∷ names) = do
    st ← fill_entry dirname name
    case_sys st (λ e. pure none)
        λ st. do rest ← fill_entries dirname names; pure (with_entry st name rest)

  -- The handle with the listing, and the result of `dir_open`.
  unfoldable pub store_listing : ℕ → Option (List SceIoDirent) → Serve os ℕ
  store_listing did listing =
      case_option listing (pure minus_one)
        λ entries. do change_dirs (fill_dir did entries); pure did

  unfoldable pub list_dir : ℕ → Text → Serve os ℕ
  list_dir did fulldir = do
    change_dirs (clear_dir did)
    touch (on_path fulldir)
    names ← ask (os.scandir fulldir)
    case_sys names (λ e. pure (get_error e))
        λ (name, names). do entries ← fill_entries fulldir (name ∷ names); store_listing did entries

  unfoldable pub dir_open : ℕ → Text → Serve os ℕ
  dir_open drive dirname = do
    did ← gets (λ s. free_dir s.open_dirs)
    if did == max_dirs then pure (get_error emfile) else do
      fulldir ← path_of drive dirname true
      case_option fulldir (pure (get_error enoent)) (list_dir did)

  unfoldable pub dir_close : ℕ → Serve os ℕ
  dir_close did = do
    dirs ← gets (λ s. s.open_dirs)
    if ltb did max_dirs && (get_or dirs did closed_dir).opened
        then (do change_dirs (clear_dir did); pure 0)
        else pure minus_one

  unfoldable pub handle_dopen : Text → Serve os Unit
  handle_dopen cmd =
      with_data 16 cmd
        λ path. do res ← dir_open (u32_at cmd 12) (cstr path); answer (hostfs_cmd 10) res

  unfoldable pub handle_dclose : Text → Serve os Unit
  handle_dclose cmd =
      if length cmd == 16
      then (do res ← dir_close (u32_at cmd 12); answer (hostfs_cmd 12) res)
      else pure tt

  -- `pos++`, with the entry that was there and the result, if one is left.
  unfoldable pub next_entry : ℕ → Serve os (Option (SceIoDirent × ℕ))
  next_entry did s =
      let d = get_or s.open_dirs did closed_dir in
      if ltb d.pos d.count
      then (
        some (get_or d.p_dir d.pos no_entry, d.count - (d.pos + 1) + 1),
        record s { open_dirs = set s.open_dirs did (record d { pos = d.pos + 1 }) },
      )
      else (none, s)

  -- The answer names the command READ.
  unfoldable pub read_entry : ℕ → Serve os Unit
  read_entry did = do
    next ← next_entry did
    case_option next (answer (hostfs_cmd 4) 0)
        λ (e, res). answer_with (hostfs_cmd 4) 352 res (entry e)

  unfoldable pub handle_dread : Text → Serve os Unit
  handle_dread cmd =
      if length cmd == 16
      then (do
        dirs ← gets (λ s. s.open_dirs)
        if ltb (u32_at cmd 12) max_files && (get_or dirs (u32_at cmd 12) closed_dir).opened
            then read_entry (u32_at cmd 12)
            else answer (hostfs_cmd 4) minus_one)
      else pure tt
