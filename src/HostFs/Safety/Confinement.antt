-- ===== src/HostFs/Safety/Confinement.antt =====
-- The server hands the operating system paths below the roots of its drives only.
use psplink.Base.{
  All-append, ℕ, zero, suc, ◌≡◌, ◌<◌, refl, sym, ap, subst, ◌∙◌, Bool, false, List, [], ◌∷◌, map,
  Option, none, some, Text, length, get_or, All, arith, ltb, leb, inl, inr, Bool-cases,
}
use psplink.HostFs.Host.{Os}
use psplink.HostFs.Paths.Resolve.{HostDrive, Setup, no_drive, max_hostdrives, make_path}
use psplink.HostFs.Paths.Below.{IsRoot, Below, Confined, make_path-Confined}
use psplink.HostFs.Paths.Opened.{make_path-Below}
use psplink.HostFs.Server.{
  Server, Serve, Call, on_path, on_entry, FileHandle, DirHandle, ◌>>=◌, path_of, system,
  change_files, change_dirs, change_drives, touch, send,
}
use psplink.HostFs.Files.{enter_file, forget_file}
use psplink.HostFs.Dirs.{closed_dir, clear_dir, fill_dir, next_entry}
use psplink.HostFs.Entries.{enter_dir}
use psplink.HostFs.Safety.Invariant.{Maybe, IsEntry, IsInvariant}
use psplink.HostFs.Safety.Keeps.{Keeps}

-- The path lies below one of the roots.
abbrev pub Inside : List Text → Text → Type 0
Inside roots path = (n : ℕ) × (n < length roots) × Below (get_or roots n []) path

-- A path lies below a root. An entry is looked up in a directory below a root, by a name that the
-- host's listing of the directory has, which may be `..`.
abbrev pub Allowed : Os → List Text → Call → Type 0
Allowed os roots (on_path path) = Inside roots path
Allowed os roots (on_entry dirname name) = Inside roots dirname × IsEntry os dirname name

-- The drives have these roots, and every call is allowed.
pub record IsConfined {os : Os} (roots : List Text) (s : Server os) : Type 0 where
  pub rooted : map (λ d. d.rootdir) s.setup.drives ≡ roots
  pub allowed : All (Allowed os roots) s.calls

-- Eight roots, as `add_drive` sets them.
pub record AreRoots (roots : List Text) : Type 0 where
  pub eight : length roots ≡ 8
  pub each : All IsRoot roots

All-map :
    (P : Text → Type 0) (ds : List HostDrive)
    → All P (map (λ d. d.rootdir) ds)
    → All (λ d. P d.rootdir) ds
All-map P [] h = tt
All-map P (d ∷ ds) (h, hs) = (h, All-map P ds hs)

get_or-map :
    (ds : List HostDrive) (n : ℕ)
    → (get_or ds n no_drive).rootdir ≡ get_or (map (λ d. d.rootdir) ds) n []
get_or-map [] n = refl
get_or-map (d ∷ ds) zero = refl
get_or-map (d ∷ ds) (suc n) = get_or-map ds n

map-enter_dir :
    (ds : List HostDrive) (n : ℕ) (path : Text)
    → map (λ d. d.rootdir) (enter_dir n path ds) ≡ map (λ d. d.rootdir) ds
unfolding enter_dir
map-enter_dir [] n path = refl
map-enter_dir (d ∷ ds) zero path = refl
map-enter_dir (d ∷ ds) (suc n) path = ap (λ rs. d.rootdir ∷ rs) (map-enter_dir ds n path)

leb→lt : (a b : ℕ) → leb a b ≡ false → b < a
leb→lt a b h = ground arith

Confined-Inside :
    (roots : List Text) (n : ℕ) (o : Option Text)
    → n < length roots
    → Confined (get_or roots n []) o
    → Maybe (Inside roots) o
Confined-Inside roots n none l h = tt
Confined-Inside roots n (some path) l h = (n, l, h)

make_path-Inside :
    {roots : List Text} (os : Os) (g : Setup) (drive : ℕ) (path : Text) (dir : Bool) (w : os.World)
    → AreRoots roots
    → map (λ d. d.rootdir) g.drives ≡ roots
    → Maybe (Inside roots) (make_path os g drive path dir w).0
unfolding make_path
make_path-Inside {roots} os g drive path dir w r e = elim (Bool-cases (leb max_hostdrives drive)) [
  | inl beyond ↦ rw (make_path, beyond) tt
  | inr small ↦
      Confined-Inside roots drive (make_path os g drive path dir w).0
        (subst (λ n. drive < n) (sym r.eight) (leb→lt max_hostdrives drive small))
        (subst (λ root. Confined root (make_path os g drive path dir w).0)
          (get_or-map g.drives drive ∙ ap (λ rs. get_or rs drive []) e)
          (make_path-Confined os g drive path dir w
            (All-map IsRoot g.drives (subst (All IsRoot) (sym e) r.each))))
]

All-calls :
    (os : Os) (roots : List Text) (n : ℕ) (dirs : List Text)
    → n < length roots
    → All (Below (get_or roots n [])) dirs
    → All (Allowed os roots) (map on_path dirs)
All-calls os roots n [] l h = tt
All-calls os roots n (dir ∷ dirs) l (h, hs) = ((n, l, h), All-calls os roots n dirs l hs)

make_path-Allowed :
    {roots : List Text} (os : Os) (g : Setup) (drive : ℕ) (path : Text) (dir : Bool) (w : os.World)
    → AreRoots roots
    → map (λ d. d.rootdir) g.drives ≡ roots
    → All (Allowed os roots) (map on_path (make_path os g drive path dir w).1)
unfolding make_path
make_path-Allowed {roots} os g drive path dir w r e = elim (Bool-cases (leb max_hostdrives drive)) [
  | inl beyond ↦ rw (make_path, beyond) tt
  | inr small ↦
      All-calls os roots drive (make_path os g drive path dir w).1
        (subst (λ n. drive < n) (sym r.eight) (leb→lt max_hostdrives drive small))
        (subst (λ root. All (Below root) (make_path os g drive path dir w).1)
          (get_or-map g.drives drive ∙ ap (λ rs. get_or rs drive []) e)
          (make_path-Below os g drive path dir w))
]

next_entry-calls :
    {os : Os} (did : ℕ) (s : Server os)
    → ((next_entry did s).1.setup ≡ s.setup) × ((next_entry did s).1.calls ≡ s.calls)
unfolding next_entry
next_entry-calls did s =
    let d : DirHandle = get_or s.open_dirs did closed_dir in
    elim (Bool-cases (ltb d.pos d.count)) [
      | inl e ↦ rw (next_entry, e) (refl, refl)
      | inr e ↦ rw (next_entry, e) (refl, refl)
    ]

module _ {os : Os} {roots : List Text} where
  -- An action that leaves the roots and the calls alone keeps it.
  same_calls :
      {A : Type 0} (m : Serve os A)
      → ((s : Server os) → (m s).1.setup ≡ s.setup)
      → ((s : Server os) → (m s).1.calls ≡ s.calls)
      → Keeps (IsConfined roots) m
  same_calls m same calls = record {
    at = λ s h. record {
      rooted = ap (λ g. map (λ d. d.rootdir) g.drives) (same s) ∙ h.rooted;
      allowed = subst (All (Allowed os roots)) (sym (calls s)) h.allowed;
    };
  }

  pub IsConfined-change_drives :
      (f : List HostDrive → List HostDrive)
      → ((ds : List HostDrive) → map (λ d. d.rootdir) (f ds) ≡ map (λ d. d.rootdir) ds)
      → Keeps {os = os} (IsConfined roots) (change_drives f)
  unfolding change_drives
  IsConfined-change_drives f same = record {
    at = λ s h. record { rooted = same s.setup.drives ∙ h.rooted; allowed = h.allowed };
  }

  pub IsConfined-system :
      {A : Type 0} (f : os.World → A × os.World) → Keeps (IsConfined roots) (system {os = os} f)
  unfolding system
  IsConfined-system f = same_calls (system f) (λ s. refl) (λ s. refl)

  pub IsConfined-change_files :
      (f : List FileHandle → List FileHandle) → Keeps {os = os} (IsConfined roots) (change_files f)
  unfolding change_files
  IsConfined-change_files f = same_calls (change_files f) (λ s. refl) (λ s. refl)

  pub IsConfined-change_dirs :
      (f : List DirHandle → List DirHandle) → Keeps {os = os} (IsConfined roots) (change_dirs f)
  unfolding change_dirs
  IsConfined-change_dirs f = same_calls (change_dirs f) (λ s. refl) (λ s. refl)

  -- A path is known to lie inside once it is resolved.
  IsConfined-path_of :
      AreRoots roots
      → {B : Type 0} (drive : ℕ) (path : Text) (dir : Bool) (f : Option Text → Serve os B)
      → ((o : Option Text) → Maybe (Inside roots) o → Keeps (IsConfined roots) (f o))
      → Keeps (IsConfined roots) (path_of drive path dir >>= f)
  unfolding ◌>>=◌ path_of
  IsConfined-path_of r drive path dir f k = record {
    at = λ s h. (k _ (make_path-Inside os s.setup drive path dir s.world r h.rooted)).at _ (record {
      rooted = h.rooted;
      allowed =
          All-append (Allowed os roots) _ s.calls
            (make_path-Allowed os s.setup drive path dir s.world r h.rooted) h.allowed;
    });
  }

  IsConfined-touch :
      (call : Call) → Allowed os roots call → Keeps {os = os} (IsConfined roots) (touch call)
  unfolding touch
  IsConfined-touch call a = record {
    at = λ s h. record { rooted = h.rooted; allowed = (a, h.allowed) };
  }

  pub IsConfined-IsInvariant :
      AreRoots roots → IsInvariant {os = os} (Inside roots) (IsConfined roots)
  unfolding send enter_file forget_file change_dirs
  IsConfined-IsInvariant r = record {
    keeps_system = IsConfined-system;
    keeps_send = λ x. same_calls (send x) (λ s. refl) (λ s. refl);
    keeps_path = IsConfined-path_of r;
    keeps_call = λ path. IsConfined-touch (on_path path);
    keeps_lookup = λ dirname name h e. IsConfined-touch (on_entry dirname name) (h, e);
    keeps_drive = λ fsnum path.
        IsConfined-change_drives (enter_dir fsnum path) (λ ds. map-enter_dir ds fsnum path);
    keeps_enter = λ fd mode path _. same_calls (enter_file fd mode path) (λ s. refl) (λ s. refl);
    keeps_forget = λ fid. same_calls (forget_file fid) (λ s. refl) (λ s. refl);
    keeps_next = λ did.
        same_calls (next_entry did) (λ s. (next_entry-calls did s).0)
          (λ s. (next_entry-calls did s).1);
    keeps_clear = λ did. same_calls (change_dirs (clear_dir did)) (λ s. refl) (λ s. refl);
    keeps_store =
        λ did entries. same_calls (change_dirs (fill_dir did entries)) (λ s. refl) (λ s. refl);
  }
