-- ===== src/HostFs/Safety/Roots.antt =====
-- The roots of the drives from `add_drive` on, and a connection from its start to its end.
use psplink.Base.{
  ℕ, zero, suc, ◌≡◌, ◌≤◌, ◌+◌, refl, sym, ap, subst, ◌∙◌, Bool, true, false, List, [], ◌∷◌, map,
  Text, length, set, All, ltb, length-set,
}
use psplink.HostFs.Paths.Tokens.{gen_path}
use psplink.HostFs.Paths.Names.{IsName, resolved-IsName, length-resolved, tokens-gen_path}
use psplink.HostFs.Host.{Os}
use psplink.HostFs.Paths.Resolve.{HostDrive, max_hostdrives}
use psplink.HostFs.Server.{Server, change_drives, max_dirs}
use psplink.HostFs.Files.{is_open}
use psplink.HostFs.Session.{
  root_drive, drive_root, is_there, in_root, close_handle, add_drive, init_hostfs, close_files,
  close_dirs, close_hostfs, Input, connection,
}
use psplink.HostFs.Paths.Below.{IsRoot}
use psplink.HostFs.Safety.Keeps.{
  Keeps, Keeps-pure, Keeps-bind, Keeps-if, Keeps-gets, Keeps-ask, keeps_rules,
}
use psplink.HostFs.Safety.Confinement.{
  AreRoots, Inside, IsConfined, IsConfined-change_drives, IsConfined-change_files,
  IsConfined-change_dirs, IsConfined-system, IsConfined-IsInvariant,
}
use psplink.HostFs.Safety.Invariant.{IsInvariant, invariant_rules}
use psplink.HostFs.Safety.Requests.{serve-Keeps, dir_close-Keeps}

gen_path-IsRoot : (path : Text) (dir : Bool) → IsRoot (gen_path path dir)
gen_path-IsRoot path dir = record {
  plain = subst (All IsName) (sym (tokens-gen_path path dir)) (resolved-IsName path);
  few = subst (λ ts. length ts ≤ 255) (sym (tokens-gen_path path dir)) (length-resolved path);
}

abbrev roots_of : List HostDrive → List Text
roots_of ds = map (λ d. d.rootdir) ds

roots-set :
    (ds : List HostDrive) (n : ℕ) (root : Text)
    → roots_of (set ds n (root_drive root)) ≡ set (roots_of ds) n root
roots-set [] n root = refl
roots-set (d ∷ ds) zero root = refl
roots-set (d ∷ ds) (suc n) root = ap (λ rs. d.rootdir ∷ rs) (roots-set ds n root)

All-set :
    (P : Text → Type 0) (ts : List Text) (n : ℕ) (t : Text) → All P ts → P t → All P (set ts n t)
All-set P [] n t h p = tt
All-set P (u ∷ ts) zero t (h, hs) p = (p, hs)
All-set P (u ∷ ts) (suc n) t (h, hs) p = (h, All-set P ts n t hs p)

AreRoots-set :
    (ds : List HostDrive) (n : ℕ) (path : Text)
    → AreRoots (roots_of ds)
    → AreRoots (roots_of (set ds n (root_drive (gen_path path false))))
AreRoots-set ds n path r = subst AreRoots (sym (roots-set ds n (gen_path path false))) (record {
  eight = length-set (roots_of ds) n (gen_path path false) ∙ r.eight;
  each = All-set IsRoot (roots_of ds) n (gen_path path false) r.each (gen_path-IsRoot path false);
})

-- The drives have roots as `make_path` relies on.
pub record IsRooted {os : Os} (s : Server os) : Type 0 where
  pub roots : AreRoots (roots_of s.setup.drives)

roots-in_root : (ds : List HostDrive) → roots_of (map in_root ds) ≡ roots_of ds
roots-in_root [] = refl
roots-in_root (d ∷ ds) = ap (λ rs. d.rootdir ∷ rs) (roots-in_root ds)

module _ {os : Os} where
  set_root-IsRooted :
      (num : ℕ) (path : Text)
      → Keeps {os = os} IsRooted (change_drives λ ds. set ds num (root_drive (gen_path path false)))
  unfolding change_drives
  set_root-IsRooted num path = record {
    at = λ s h. record { roots = AreRoots-set s.setup.drives num path h.roots };
  }

  add_drive-Keeps :
      (rootdir : Text) (num : ℕ) (dir : Text) → Keeps {os = os} IsRooted (add_drive rootdir num dir)
  unfolding add_drive drive_root
  add_drive-Keeps rootdir num dir =
      Keeps-if (ltb num max_hostdrives) _ _
        (λ _. Keeps-bind _ _ (Keeps-ask _) λ names.
          Keeps-if (is_there names) _ _
            (λ _. Keeps-bind _ _ (set_root-IsRooted num _) λ _. Keeps-pure true)
            (λ _. Keeps-pure false))
        (λ _. Keeps-pure false)

  -- Whatever directory is named for a drive, relative or not, with `..` or not: if the drives have
  -- roots of plain names, eight of them and none with more than 255 names, they still do after
  -- `add_drive`, whether it accepts the directory or not.
  pub add_drive-IsRooted :
      (rootdir : Text) (num : ℕ) (dir : Text) (s : Server os)
      → IsRooted s
      → IsRooted (add_drive rootdir num dir s).1
  add_drive-IsRooted rootdir num dir s h = (add_drive-Keeps rootdir num dir).at s h

module _ {os : Os} {roots : List Text} where
  init_hostfs-IsConfined : AreRoots roots → Keeps {os = os} (IsConfined roots) init_hostfs
  unfolding init_hostfs
  init_hostfs-IsConfined r =
      search
        (
          keeps_rules,
          IsConfined-change_files,
          IsConfined-change_dirs,
          IsConfined-change_drives (map in_root) roots-in_root,
        )
        depth 12

  close_files-IsConfined : (n i : ℕ) → Keeps {os = os} (IsConfined roots) (close_files n i)
  unfolding close_files
  close_files-IsConfined zero i = Keeps-pure tt
  close_files-IsConfined (suc n) i = Keeps-bind _ _ (Keeps-gets _) λ files.
      Keeps-bind _ _
        (Keeps-if (is_open i files) _ _
          (λ _.
            Keeps-bind _ _ (IsConfined-system (os.close_fd i))
              λ _. IsConfined-change_files (close_handle i))
          (λ _. Keeps-pure tt))
        λ _. close_files-IsConfined n (i + 1)

  close_dirs-IsConfined :
      AreRoots roots → (n i : ℕ) → Keeps {os = os} (IsConfined roots) (close_dirs n i)
  unfolding close_dirs
  close_dirs-IsConfined r zero i = Keeps-pure tt
  close_dirs-IsConfined r (suc n) i =
      Keeps-bind _ _ (dir_close-Keeps (IsConfined-IsInvariant r) i)
        λ _. close_dirs-IsConfined r n (i + 1)

  close_hostfs-IsConfined : AreRoots roots → Keeps {os = os} (IsConfined roots) close_hostfs
  unfolding close_hostfs
  close_hostfs-IsConfined r =
      Keeps-bind _ _ (close_files-IsConfined 253 3) λ _. close_dirs-IsConfined r max_dirs 0

  connection-Keeps :
      (inputs : List Input)
      → AreRoots roots
      → Keeps {os = os} (IsConfined roots) (connection inputs)
  unfolding connection
  connection-Keeps inputs r =
      let inv : IsInvariant {os = os} (Inside roots) (IsConfined roots) =
        IsConfined-IsInvariant r in
      search (invariant_rules, init_hostfs-IsConfined, close_hostfs-IsConfined, serve-Keeps) depth
        12

  -- Whatever the device sends over a connection, from its start to its end: if the drives have roots
  -- that `add_drive` sets, then every path that is handed to the operating system for a name of the
  -- device lies below one of them, the directories that are opened to find a name in another case
  -- included. Apart from these only entries of directories below a root are looked up, by names
  -- that the host's own listing of the directory has; `..` may be one of them. The roots stay as
  -- they are. A name that is too long for the server's buffer is taken whole here.
  pub connection-IsConfined :
      (inputs : List Input) (s : Server os)
      → AreRoots roots
      → IsConfined roots s
      → IsConfined roots (connection inputs s).1
  connection-IsConfined inputs s r h = (connection-Keeps inputs r).at s h
