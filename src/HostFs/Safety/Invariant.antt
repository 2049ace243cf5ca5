-- ===== src/HostFs/Safety/Invariant.antt =====
-- What is asked of an invariant so that every request keeps it: that each action which changes the
-- server does. The paths that a name is resolved to are `granted`, so that the invariant may know
-- which paths are handed to the operating system.
use psplink.Base.{◌∷◌, get_elem?, ℕ, ◌≡◌, Bool, true, List, Option, none, some, Text, ltb}
use psplink.HostFs.Host.{done, Os}
use psplink.HostFs.Server.{
  max_files, Server, Serve, Output, on_path, on_entry, SceIoDirent, ◌>>=◌, path_of, case_option,
  system, change_dirs, change_drives, touch, send,
}
use psplink.HostFs.Files.{enter_file, forget_file}
use psplink.HostFs.Dirs.{clear_dir, fill_dir, next_entry}
use psplink.HostFs.Entries.{enter_dir}
use psplink.HostFs.Safety.Keeps.{Keeps, keeps_rules}

abbrev pub Maybe : (Text → Type 0) → Option Text → Type 0
Maybe granted none = Unit
Maybe granted (some path) = granted path

-- The name is in a listing of the directory that the host gave.
abbrev pub IsEntry : (os : Os) → Text → Text → Type 0
IsEntry os dirname name =
    (w : os.World) × (first : Text) × (rest : List Text) × (os.scandir dirname w
      ≡ done (first, rest))
    × (i : ℕ) × (get_elem? (first ∷ rest) i ≡ some name)

pub record IsInvariant {os : Os} (granted : Text → Type 0) (P : Server os → Type 0) : Type 1 where
  pub keeps_system : {A : Type 0} (f : os.World → A × os.World) → Keeps P (system {os = os} f)
  pub keeps_send : (x : Output) → Keeps P (send {os = os} x)
  pub keeps_path :
      {B : Type 0} (drive : ℕ) (path : Text) (dir : Bool) (f : Option Text → Serve os B)
      → ((o : Option Text) → Maybe granted o → Keeps P (f o))
      → Keeps P (path_of drive path dir >>= f)
  pub keeps_call : (path : Text) → granted path → Keeps P (touch {os = os} (on_path path))
  pub keeps_lookup :
      (dirname name : Text)
      → granted dirname
      → IsEntry os dirname name
      → Keeps P (touch {os = os} (on_entry dirname name))
  pub keeps_drive :
      (fsnum : ℕ) (path : Text) → Keeps P (change_drives {os = os} (enter_dir fsnum path))
  pub keeps_enter :
      (fd mode : ℕ) (path : Text)
      → ltb fd max_files ≡ true
      → Keeps P (enter_file {os = os} fd mode path)
  pub keeps_forget : (fid : ℕ) → Keeps P (forget_file {os = os} fid)
  pub keeps_next : (did : ℕ) → Keeps P (next_entry {os = os} did)
  pub keeps_clear : (did : ℕ) → Keeps P (change_dirs {os = os} (clear_dir did))
  pub keeps_store :
      (did : ℕ) (entries : List SceIoDirent)
      → Keeps P (change_dirs {os = os} (fill_dir did entries))

module _ {os : Os} {granted : Text → Type 0} {P : Server os → Type 0}
    (inv : IsInvariant granted P) where
  pub Keeps-granted :
      {B : Type 0} (o : Option Text) (m : Serve os B) (f : Text → Serve os B)
      → Maybe granted o
      → Keeps P m
      → ((p : Text) → granted p → Keeps P (f p))
      → Keeps P (case_option o m f)
  unfolding case_option
  Keeps-granted none m f h km kf = km
  Keeps-granted (some p) m f h km kf = kf p h

  pub Keeps-system : {A : Type 0} (f : os.World → A × os.World) → Keeps P (system {os = os} f)
  Keeps-system = inv.keeps_system

  pub Keeps-send : (x : Output) → Keeps P (send {os = os} x)
  Keeps-send = inv.keeps_send

  pub Keeps-path :
      {B : Type 0} (drive : ℕ) (path : Text) (dir : Bool) (f : Option Text → Serve os B)
      → ((o : Option Text) → Maybe granted o → Keeps P (f o))
      → Keeps P (path_of drive path dir >>= f)
  Keeps-path = inv.keeps_path

  pub Keeps-call : (path : Text) → granted path → Keeps P (touch {os = os} (on_path path))
  Keeps-call = inv.keeps_call

  pub Keeps-lookup :
      (dirname name : Text)
      → granted dirname
      → IsEntry os dirname name
      → Keeps P (touch {os = os} (on_entry dirname name))
  Keeps-lookup = inv.keeps_lookup

  pub Keeps-drive :
      (fsnum : ℕ) (path : Text) → Keeps P (change_drives {os = os} (enter_dir fsnum path))
  Keeps-drive = inv.keeps_drive

  pub Keeps-enter :
      (fd mode : ℕ) (path : Text)
      → ltb fd max_files ≡ true
      → Keeps P (enter_file {os = os} fd mode path)
  Keeps-enter = inv.keeps_enter

  pub Keeps-forget : (fid : ℕ) → Keeps P (forget_file {os = os} fid)
  Keeps-forget = inv.keeps_forget

  pub Keeps-next : (did : ℕ) → Keeps P (next_entry {os = os} did)
  Keeps-next = inv.keeps_next

  pub Keeps-clear : (did : ℕ) → Keeps P (change_dirs {os = os} (clear_dir did))
  Keeps-clear = inv.keeps_clear

  pub Keeps-store :
      (did : ℕ) (entries : List SceIoDirent)
      → Keeps P (change_dirs {os = os} (fill_dir did entries))
  Keeps-store = inv.keeps_store

pub ruleset invariant_rules = (
  keeps_rules, Keeps-granted, Keeps-system, Keeps-send, Keeps-path, Keeps-call, Keeps-lookup,
  Keeps-drive, Keeps-enter, Keeps-forget, Keeps-next, Keeps-clear, Keeps-store,
)
