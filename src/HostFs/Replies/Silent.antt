-- ===== src/HostFs/Replies/Silent.antt =====
-- Actions that write nothing to the device, one rule for each way to build an action.
use psplink.Base.{
  ℕ, zero, suc, ◌≡◌, refl, ◌∙◌, Bool, true, false, List, [], ◌∷◌, Text, Option, none, some,
  if◌then◌else◌, length, get_or, ltb, Bool-cases, inl, inr,
}
use psplink.HostFs.Host.{Sys, done, failed, DateTime, Os}
use psplink.HostFs.Server.{
  Server, Serve, Call, FileHandle, DirHandle, SceIoDirent, pure, ◌>>=◌, gets, path_of, ask,
  case_option, case_sys, system, minus_one, change_files, change_dirs, change_drives, touch,
}
use psplink.HostFs.Paths.Resolve.{HostDrive}
use psplink.HostFs.Transfer.{fixed_read_loop, fixed_read, fixed_write_loop, fixed_write}
use psplink.HostFs.Files.{
  is_dir, record_file, open_path, open_file, on_file, close_file, seek_file, enter_file,
  forget_file,
}
use psplink.HostFs.Dirs.{
  closed_dir, next_entry, fill_stat, fill_entry, fill_entries, store_listing, list_dir, dir_open,
  dir_close,
}
use psplink.HostFs.Entries.{
  Which, on_name, call_on, set_time, psp_settime, change_time, change_mode, psp_chstat,
  rename_paths, change_dir,
}
use psplink.HostFs.Dispatch.{get_drive_info}

pub record Silent {os : Os} {A : Type 0} (m : Serve os A) : Type 0 where
  pub at : (s : Server os) → (m s).1.sent ≡ s.sent

module _ {os : Os} {A : Type 0} where
  pub Silent-pure : (a : A) → Silent {os = os} (pure a)
  unfolding pure
  Silent-pure a = record { at = λ s. refl }

  pub Silent-gets : (f : Server os → A) → Silent (gets f)
  unfolding gets
  Silent-gets f = record { at = λ s. refl }

  pub Silent-ask : (f : os.World → A) → Silent (ask {os = os} f)
  unfolding ask
  Silent-ask f = record { at = λ s. refl }

  pub Silent-system : (f : os.World → A × os.World) → Silent (system {os = os} f)
  unfolding system
  Silent-system f = record { at = λ s. refl }

  pub Silent-if : (b : Bool) (m n : Serve os A) → Silent m → Silent n → Silent (if b then m else n)
  Silent-if true m n km kn = km
  Silent-if false m n km kn = kn

module _ {os : Os} {A B : Type 0} where
  pub Silent-bind :
      (m : Serve os A) (f : A → Serve os B) → Silent m → ((a : A) → Silent (f a)) → Silent (m >>= f)
  unfolding ◌>>=◌
  Silent-bind m f km kf = record { at = λ s. let (a, s') = m s in (kf a).at s' ∙ km.at s }

  pub Silent-case_option :
      (o : Option A) (m : Serve os B) (f : A → Serve os B)
      → Silent m
      → ((a : A) → Silent (f a))
      → Silent (case_option o m f)
  unfolding case_option
  Silent-case_option none m f km kf = km
  Silent-case_option (some a) m f km kf = kf a

  pub Silent-case_sys :
      (r : Sys A) (m : ℕ → Serve os B) (f : A → Serve os B)
      → ((e : ℕ) → Silent (m e))
      → ((a : A) → Silent (f a))
      → Silent (case_sys r m f)
  unfolding case_sys
  Silent-case_sys (failed e) m f km kf = km e
  Silent-case_sys (done a) m f km kf = kf a

module _ {os : Os} where
  pub Silent-change_files :
      (f : List FileHandle → List FileHandle) → Silent {os = os} (change_files f)
  unfolding change_files
  Silent-change_files f = record { at = λ s. refl }

  pub Silent-change_dirs : (f : List DirHandle → List DirHandle) → Silent {os = os} (change_dirs f)
  unfolding change_dirs
  Silent-change_dirs f = record { at = λ s. refl }

  pub Silent-enter_file : (fd mode : ℕ) (path : Text) → Silent {os = os} (enter_file fd mode path)
  unfolding enter_file
  Silent-enter_file fd mode path = record { at = λ s. refl }

  pub Silent-forget_file : (fid : ℕ) → Silent {os = os} (forget_file fid)
  unfolding forget_file
  Silent-forget_file fid = record { at = λ s. refl }

  pub Silent-next_entry : (did : ℕ) → Silent {os = os} (next_entry did)
  unfolding next_entry
  Silent-next_entry did = record {
    at = λ s.
        let d : DirHandle = get_or s.open_dirs did closed_dir in
        elim (Bool-cases (ltb d.pos d.count)) [
          | inl e ↦ rw (next_entry, e) refl
          | inr e ↦ rw (next_entry, e) refl
        ];
  }

  pub Silent-change_drives :
      (f : List HostDrive → List HostDrive) → Silent {os = os} (change_drives f)
  unfolding change_drives
  Silent-change_drives f = record { at = λ s. refl }

  pub Silent-path_of :
      (drive : ℕ) (path : Text) (dir : Bool) → Silent {os = os} (path_of drive path dir)
  unfolding path_of
  Silent-path_of drive path dir = record { at = λ s. refl }

  pub Silent-touch : (call : Call) → Silent {os = os} (touch call)
  unfolding touch
  Silent-touch call = record { at = λ s. refl }

pub ruleset silent_rules = (
  Silent-pure, Silent-gets, Silent-ask, Silent-system, Silent-if, Silent-bind, Silent-case_option,
  Silent-case_sys, Silent-change_files, Silent-change_dirs, Silent-enter_file, Silent-forget_file,
  Silent-next_entry, Silent-change_drives, Silent-touch, Silent-path_of,
)

module _ {os : Os} where
  fixed_read_loop-Silent :
      (fuel fid left : ℕ) (block : Text) → Silent {os = os} (fixed_read_loop fuel fid left block)
  unfolding fixed_read_loop
  fixed_read_loop-Silent zero fid left block = search silent_rules
  fixed_read_loop-Silent (suc fuel) fid left block =
      search (silent_rules, fixed_read_loop-Silent fuel) depth 12

  pub fixed_read-Silent : (fid len : ℕ) → Silent {os = os} (fixed_read fid len)
  unfolding fixed_read
  fixed_read-Silent fid len = fixed_read_loop-Silent len fid len []

  fixed_write_loop-Silent :
      (fuel fid : ℕ) (left : Text) (n : ℕ) → Silent {os = os} (fixed_write_loop fuel fid left n)
  unfolding fixed_write_loop
  fixed_write_loop-Silent zero fid left n = search silent_rules
  fixed_write_loop-Silent (suc fuel) fid left n =
      search (silent_rules, fixed_write_loop-Silent fuel) depth 12

  pub fixed_write-Silent : (fid : ℕ) (t : Text) → Silent {os = os} (fixed_write fid t)
  unfolding fixed_write
  fixed_write-Silent fid t = fixed_write_loop-Silent (length t) fid t 0

  record_file-Silent :
      (path : Text) (mode : ℕ) (fd : Sys ℕ) → Silent {os = os} (record_file path mode fd)
  unfolding record_file
  record_file-Silent path mode fd = search silent_rules depth 12

  pub open_file-Silent :
      (drive : ℕ) (path : Text) (mode mask : ℕ) → Silent {os = os} (open_file drive path mode mask)
  unfolding open_file open_path is_dir
  open_file-Silent drive path mode mask = search (silent_rules, record_file-Silent) depth 12

  pub on_file-Silent : (fid : ℕ) (m : Serve os ℕ) → Silent m → Silent (on_file fid m)
  unfolding on_file
  on_file-Silent fid m km =
      Silent-bind _ _ (Silent-gets _) λ files. Silent-if _ m _ km (Silent-pure minus_one)

  pub close_file-Silent : (fid : ℕ) → Silent {os = os} (close_file fid)
  unfolding close_file
  close_file-Silent fid = search silent_rules depth 12

  pub seek_file-Silent : (fid ofs whence : ℕ) → Silent {os = os} (seek_file fid ofs whence)
  unfolding seek_file
  seek_file-Silent fid ofs whence = search silent_rules depth 12

  pub fill_stat-Silent : (path : Text) → Silent {os = os} (fill_stat path)
  unfolding fill_stat
  fill_stat-Silent path = search silent_rules depth 12

  fill_entry-Silent : (dirname name : Text) → Silent {os = os} (fill_entry dirname name)
  unfolding fill_entry
  fill_entry-Silent dirname name = search silent_rules depth 12

  fill_entries-Silent :
      (dirname : Text) (names : List Text) → Silent {os = os} (fill_entries dirname names)
  unfolding fill_entries
  fill_entries-Silent dirname [] = search silent_rules
  fill_entries-Silent dirname (name ∷ names) =
      Silent-bind (fill_entry dirname name) _ (fill_entry-Silent dirname name) λ st.
        Silent-case_sys st _ _ (λ e. Silent-pure none)
          λ st.
            Silent-bind (fill_entries dirname names) _ (fill_entries-Silent dirname names)
              λ rest. Silent-pure _

  store_listing-Silent :
      (did : ℕ) (listing : Option (List SceIoDirent)) → Silent {os = os} (store_listing did listing)
  unfolding store_listing
  store_listing-Silent did listing = search silent_rules depth 12

  list_dir-Silent : (did : ℕ) (path : Text) → Silent {os = os} (list_dir did path)
  unfolding list_dir
  list_dir-Silent did path =
      search (silent_rules, fill_entries-Silent, store_listing-Silent) depth 12

  pub dir_open-Silent : (drive : ℕ) (path : Text) → Silent {os = os} (dir_open drive path)
  unfolding dir_open
  dir_open-Silent drive path = search (silent_rules, list_dir-Silent) depth 12

  pub dir_close-Silent : (did : ℕ) → Silent {os = os} (dir_close did)
  unfolding dir_close
  dir_close-Silent did = search silent_rules depth 12

  pub on_name-Silent :
      (drive : ℕ) (path : Text) (act : Text → Serve os ℕ)
      → ((p : Text) → Silent (act p))
      → Silent (on_name drive path act)
  unfolding on_name
  on_name-Silent drive path act k = search (silent_rules, k) depth 8

  pub call_on-Silent :
      (path : Text) (f : Text → os.World → Sys Unit × os.World) → Silent {os = os} (call_on path f)
  unfolding call_on
  call_on-Silent path f = search silent_rules

  psp_settime-Silent :
      (path : Text) (ts : DateTime) (which : Which) → Silent {os = os} (psp_settime path ts which)
  unfolding psp_settime set_time
  psp_settime-Silent path ts which = search (silent_rules, call_on-Silent) depth 12

  pub psp_chstat-Silent : (cmd path : Text) → Silent {os = os} (psp_chstat cmd path)
  unfolding psp_chstat change_mode change_time
  psp_chstat-Silent cmd path = search (silent_rules, call_on-Silent, psp_settime-Silent) depth 12

  pub rename_paths-Silent : (old new : Option Text) → Silent {os = os} (rename_paths old new)
  unfolding rename_paths
  rename_paths-Silent old new = search silent_rules depth 12

  pub change_dir-Silent : (fsnum : ℕ) (path : Text) → Silent {os = os} (change_dir fsnum path)
  unfolding change_dir
  change_dir-Silent fsnum path = search silent_rules depth 12

  pub get_drive_info-Silent : (drive : ℕ) → Silent {os = os} (get_drive_info drive)
  unfolding get_drive_info
  get_drive_info-Silent drive = search silent_rules depth 12
