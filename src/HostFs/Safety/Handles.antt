-- ===== src/HostFs/Safety/Handles.antt =====
-- The tables of open files and directories, and the file of the bulk transfers.
use psplink.Base.{
  ℕ, zero, suc, ◌≡◌, ◌≤◌, ◌<◌, ◌+◌, refl, sym, ap, subst, ◌∙◌, Bool, true, false, List, [], ◌∷◌,
  Option, none, some, Text, length, get_or, set, All, arith, ltb, ltb→lt, ◌==◌, ==_iff, length-set,
  inl, inr, Bool-cases, if◌then◌else◌,
}
use psplink.HostFs.Host.{Os}
use psplink.HostFs.Server.{
  max_files, max_dirs, Server, Serve, FileHandle, DirHandle, ◌>>=◌, path_of, system, change_dirs,
  change_drives, touch, send,
}
use psplink.HostFs.Files.{
  hostfs_bulk_open, has, closed_file, is_open, without_bulk, enter_file, forget_file,
}
use psplink.HostFs.Dirs.{closed_dir, clear_dir, fill_dir, next_entry}
use psplink.HostFs.Entries.{enter_dir}
use psplink.HostFs.Session.{Input, serve}
use psplink.HostFs.Safety.Keeps.{Keeps}
use psplink.HostFs.Safety.Invariant.{Maybe, IsInvariant}
use psplink.HostFs.Safety.Requests.{serve-Keeps}

-- The position is inside the listing, and the count is that of its entries.
pub record IsListing (d : DirHandle) : Type 0 where
  pub inside : d.pos ≤ d.count
  pub counted : d.count ≡ length d.p_dir

-- The file of the bulk transfers, if there is one, is an open one.
abbrev pub IsBulk : Option ℕ → List FileHandle → Type 0
IsBulk none files = Unit
IsBulk (some fd) files = (fd < max_files) × (is_open fd files ≡ true)

pub record IsTables {os : Os} (s : Server os) : Type 0 where
  pub files : length s.open_files ≡ max_files
  pub dirs : length s.open_dirs ≡ max_dirs
  pub listings : All IsListing s.open_dirs
  pub bulk : IsBulk s.bulkfd s.open_files

get_or-set_eq :
    (fs : List FileHandle) (i : ℕ) (f : FileHandle)
    → i < length fs
    → get_or (set fs i f) i closed_file ≡ f
get_or-set_eq [] i f h = absurd (omega arith)
get_or-set_eq (x ∷ fs) zero f h = refl
get_or-set_eq (x ∷ fs) (suc i) f h = get_or-set_eq fs i f (omega arith)

get_or-set_ne :
    (fs : List FileHandle) (i j : ℕ) (f : FileHandle)
    → (i == j) ≡ false
    → get_or (set fs i f) j closed_file ≡ get_or fs j closed_file
get_or-set_ne [] i j f h = refl
get_or-set_ne (x ∷ fs) zero zero f h = absurd (cc)
get_or-set_ne (x ∷ fs) zero (suc j) f h = refl
get_or-set_ne (x ∷ fs) (suc i) zero f h = refl
get_or-set_ne (x ∷ fs) (suc i) (suc j) f h = get_or-set_ne fs i j f (ground arith)

-- Writing a handle that is in use leaves those in use that were.
IsBulk-set :
    (bulkfd : Option ℕ) (fs : List FileHandle) (fd : ℕ) (f : FileHandle)
    → f.opened ≡ true
    → fd < length fs
    → IsBulk bulkfd fs
    → IsBulk bulkfd (set fs fd f)
IsBulk-set none fs fd f o l h = tt
IsBulk-set (some k) fs fd f o l (lt, h) = (
  lt,
  elim (Bool-cases (fd == k)) [
    | inl same ↦
        subst (λ j. is_open j (set fs fd f) ≡ true) ((==_iff fd k).0 same)
          (ap (λ x. x.opened) (get_or-set_eq fs fd f l) ∙ o)
    | inr differs ↦ ap (λ x. x.opened) (get_or-set_ne fs fd k f differs) ∙ h
  ],
)

IsBulk-enter :
    (b : Bool) (bulkfd : Option ℕ) (fs : List FileHandle) (fd : ℕ) (f : FileHandle)
    → f.opened ≡ true
    → fd < max_files
    → length fs ≡ max_files
    → IsBulk bulkfd fs
    → IsBulk (if b then some fd else bulkfd) (set fs fd f)
IsBulk-enter true bulkfd fs fd f o l n h =
    (l, ap (λ x. x.opened) (get_or-set_eq fs fd f (omega arith)) ∙ o)
IsBulk-enter false bulkfd fs fd f o l n h = IsBulk-set bulkfd fs fd f o (omega arith) h

IsBulk-without :
    (bulkfd : Option ℕ) (fs : List FileHandle) (fid : ℕ) (f : FileHandle)
    → IsBulk bulkfd fs
    → IsBulk (without_bulk fid bulkfd) (set fs fid f)
IsBulk-without none fs fid f h = tt
IsBulk-without (some k) fs fid f (lt, h) = elim (Bool-cases (fid == k)) [
  | inl same ↦ rw same tt
  | inr differs ↦ rw differs (lt, ap (λ x. x.opened) (get_or-set_ne fs fid k f differs) ∙ h)
]

All-set :
    (ds : List DirHandle) (i : ℕ) (d : DirHandle)
    → All IsListing ds
    → IsListing d
    → All IsListing (set ds i d)
All-set [] i d h l = tt
All-set (x ∷ ds) zero d (h, hs) l = (l, hs)
All-set (x ∷ ds) (suc i) d (h, hs) l = (h, All-set ds i d hs l)

closed-IsListing : IsListing closed_dir
closed-IsListing = record { inside = omega arith; counted = refl }

pub get_or-IsListing :
    (ds : List DirHandle) (i : ℕ) → All IsListing ds → IsListing (get_or ds i closed_dir)
get_or-IsListing [] i h = closed-IsListing
get_or-IsListing (d ∷ ds) zero (h, hs) = h
get_or-IsListing (d ∷ ds) (suc i) (h, hs) = get_or-IsListing ds i hs

further : (pos count : ℕ) → ltb pos count ≡ true → pos + 1 ≤ count
further pos count h = ground arith

any_path : (o : Option Text) → Maybe (λ _. Unit) o
any_path none = tt
any_path (some path) = tt

module _ {os : Os} where
  -- An action that leaves the tables alone keeps them.
  unchanged :
      {A : Type 0} (m : Serve os A)
      → ((s : Server os) → (m s).1.open_files ≡ s.open_files)
      → ((s : Server os) → (m s).1.open_dirs ≡ s.open_dirs)
      → ((s : Server os) → (m s).1.bulkfd ≡ s.bulkfd)
      → Keeps IsTables m
  unchanged m fs ds b = record {
    at = λ s h. record {
      files = ap length (fs s) ∙ h.files;
      dirs = ap length (ds s) ∙ h.dirs;
      listings = subst (All IsListing) (sym (ds s)) h.listings;
      bulk =
          subst (λ fd. IsBulk fd (m s).1.open_files) (sym (b s))
            (subst (IsBulk s.bulkfd) (sym (fs s)) h.bulk);
    };
  }

  IsTables-dirs :
      (did : ℕ) (d : DirHandle) (f : List DirHandle → List DirHandle)
      → IsListing d
      → ((ds : List DirHandle) → f ds ≡ set ds did d)
      → Keeps {os = os} IsTables (change_dirs f)
  unfolding change_dirs
  IsTables-dirs did d f l e = record {
    at = λ s h. record {
      files = h.files;
      dirs = ap length (e s.open_dirs) ∙ length-set s.open_dirs did d ∙ h.dirs;
      listings =
          subst (All IsListing) (sym (e s.open_dirs)) (All-set s.open_dirs did d h.listings l);
      bulk = h.bulk;
    };
  }

  IsTables-enter :
      (fd mode : ℕ) (path : Text)
      → ltb fd max_files ≡ true
      → Keeps {os = os} IsTables (enter_file fd mode path)
  unfolding enter_file
  IsTables-enter fd mode path l = record {
    at = λ s h. record {
      files = length-set s.open_files fd _ ∙ h.files;
      dirs = h.dirs;
      listings = h.listings;
      bulk =
          IsBulk-enter (has mode hostfs_bulk_open) s.bulkfd s.open_files fd _ refl
            (ltb→lt fd max_files l) h.files h.bulk;
    };
  }

  IsTables-forget : (fid : ℕ) → Keeps {os = os} IsTables (forget_file fid)
  unfolding forget_file
  IsTables-forget fid = record {
    at = λ s h. record {
      files = length-set s.open_files fid _ ∙ h.files;
      dirs = h.dirs;
      listings = h.listings;
      bulk = IsBulk-without s.bulkfd s.open_files fid _ h.bulk;
    };
  }

  IsTables-next : (did : ℕ) → Keeps {os = os} IsTables (next_entry did)
  unfolding next_entry
  IsTables-next did = record {
    at = λ s h.
        let d : DirHandle = get_or s.open_dirs did closed_dir in
        let l : IsListing d = get_or-IsListing s.open_dirs did h.listings in
        elim (Bool-cases (ltb d.pos d.count)) [
          | inr e ↦ rw (next_entry, e) h
          | inl e ↦
              rw (next_entry, e)
                (record {
                  files = h.files;
                  dirs = length-set s.open_dirs did _ ∙ h.dirs;
                  listings =
                      All-set s.open_dirs did _ h.listings
                        (record { inside = further d.pos d.count e; counted = l.counted });
                  bulk = h.bulk;
                })
        ];
  }

  IsTables-path_of :
      {B : Type 0} (drive : ℕ) (path : Text) (dir : Bool) (f : Option Text → Serve os B)
      → ((o : Option Text) → Maybe (λ _. Unit) o → Keeps IsTables (f o))
      → Keeps IsTables (path_of drive path dir >>= f)
  unfolding ◌>>=◌ path_of
  IsTables-path_of drive path dir f k = record {
    at = λ s h.
        (k _ (any_path _)).at _
          (record { files = h.files; dirs = h.dirs; listings = h.listings; bulk = h.bulk });
  }

  IsTables-IsInvariant : IsInvariant {os = os} (λ _. Unit) IsTables
  unfolding system send touch change_drives clear_dir fill_dir
  IsTables-IsInvariant = record {
    keeps_system = λ f. unchanged (system f) (λ s. refl) (λ s. refl) (λ s. refl);
    keeps_send = λ x. unchanged (send x) (λ s. refl) (λ s. refl) (λ s. refl);
    keeps_path = IsTables-path_of;
    keeps_call = λ path _. unchanged (touch _) (λ s. refl) (λ s. refl) (λ s. refl);
    keeps_lookup = λ dirname name _ _. unchanged (touch _) (λ s. refl) (λ s. refl) (λ s. refl);
    keeps_drive = λ fsnum path.
        unchanged (change_drives (enter_dir fsnum path)) (λ s. refl) (λ s. refl) (λ s. refl);
    keeps_enter = IsTables-enter;
    keeps_forget = IsTables-forget;
    keeps_next = IsTables-next;
    keeps_clear = λ did. IsTables-dirs did closed_dir (clear_dir did) closed-IsListing (λ ds. refl);
    keeps_store = λ did entries.
        IsTables-dirs did _ (fill_dir did entries) (record { inside = omega arith; counted = refl })
          (λ ds. refl);
  }

  -- However a connection goes on from tables that are in order: there are 256 handles for files and
  -- for directories, no directory is read past its listing, and the file of the bulk transfers, if
  -- there is one, is open.
  pub serve-IsTables :
      (inputs : List Input) (s : Server os) → IsTables s → IsTables (serve inputs s).1
  serve-IsTables inputs s h = (serve-Keeps IsTables-IsInvariant inputs).at s h
