-- ===== src/HostFs/Paths/Resolve.antt =====
-- usbhostfs_pc/main.c: `calc_rating`, `find_nocase`, `make_nocase` and `make_path`. The drives are
-- the caller's, so that no lock is needed. A path that outgrows its buffer is not cut here.
use psplink.Base.{
  ℕ, ◌+◌, Bool, true, false, not, List, [], ◌∷◌, ◌++◌, map, Option, none, some, ltb, leb, ◌==◌,
  ◌&&◌, ◌||◌, if◌then◌else◌, Text, length, take, get_or,
}
use psplink.Base.Texts.{text_eq_nocase}
use psplink.HostFs.Paths.Tokens.{split_path, gen_path}
use psplink.HostFs.Host.{Os}

-- `struct HostDrive`
pub record HostDrive : Type 0 where
  pub rootdir : Text
  pub currdir : Text

abbrev pub path_max : ℕ
path_max = 4096

unfoldable pub calc_rating : Text → Text → ℕ
calc_rating [] t = 0
calc_rating (a ∷ s) [] = 0
calc_rating (a ∷ s) (b ∷ t) = (if a == b then 1 else 0) + calc_rating s t

-- `match` and `rating`: nothing while `rating` is -1.
abbrev pub Match : Type 0
Match = Option (Text × ℕ)

-- `tmp > rating`
abbrev pub better : ℕ → Match → Bool
better tmp none = true
better tmp (some (_, rating)) = ltb rating tmp

-- The loop over the entries of the directory.
unfoldable pub scan_entries : Text → List Text → Match → Match
unfolding calc_rating
scan_entries token [] best = best
scan_entries token (name ∷ names) best =
    let tmp = calc_rating token name in
    scan_entries token names
      (if text_eq_nocase name token && better tmp best then some (name, tmp) else best)

abbrev pub listed : Option (List Text) → List Text
listed none = []
listed (some names) = names

abbrev pub matched : Match → Option Text
matched none = none
matched (some (name, _)) = some name

-- `snprintf`: a longer text is cut to what fits with its terminator.
unfoldable pub printed : Text → Text
printed s = take 4095 s

abbrev pub no_tokens : List Text → Bool
no_tokens [] = true
no_tokens (t ∷ ts) = false

-- The slash behind a token, by the tokens that follow it.
abbrev pub separator : Bool → List Text → Text
separator dir rest = if dir || not (no_tokens rest) then b'/' ∷ [] else []

abbrev pub max_hostdrives : ℕ
max_hostdrives = 8

-- The variables that `make_path` reads: `g_drives`, `g_nocase` and `g_msslash`.
pub record Setup : Type 0 where
  pub drives : List HostDrive
  pub nocase : Bool
  pub msslash : Bool

abbrev pub no_drive : HostDrive
no_drive = record { rootdir = []; currdir = [] }

-- The loop over `hostpath` with `g_msslash`.
abbrev pub slashes : Bool → Text → Text
slashes msslash s = if msslash then map (λ c. if c == b'\\' then b'/' else c) s else s

-- What a search gives, and the directories that were opened for it, the newest first.
abbrev pub Searched : Type 0 → Type 0
Searched A = A × List Text

-- A search behind one that had opened these.
abbrev pub also : {A : Type 0} → List Text → Searched A → Searched A
also opened (a, more) = (a, more ++ opened)

module _ (os : Os) where
  -- `opendir` and the names that `readdir` then gives
  abbrev pub read_names : Text → os.World → Searched (List Text)
  read_names path w = (listed (os.names path w), path ∷ [])

  -- The name that is copied over the token, if there is one.
  unfoldable pub find_nocase : Text → Text → Text → os.World → Searched (Option Text)
  unfolding scan_entries
  find_nocase rootdir relpath token w =
      if ltb path_max (length (rootdir ++ relpath))
      then (none, [])
      else let (names, opened) = read_names (printed (rootdir ++ relpath)) w in
        (matched (scan_entries token names none), opened)

  -- The loop over the tokens: `none` where it breaks off.
  unfoldable pub nocase_loop : Text → Text → List Text → Bool → os.World → Searched (Option Text)
  unfolding find_nocase
  nocase_loop rootdir retpath [] dir w = (some retpath, [])
  nocase_loop rootdir retpath (token ∷ rest) dir w =
      let (found, opened) = find_nocase rootdir retpath token w in
      also opened (elim found [
        | some name ↦ nocase_loop rootdir (retpath ++ name ++ separator dir rest) rest dir w
        | none ↦
            (if no_tokens rest then some (retpath ++ token ++ separator dir rest) else none, [])
      ])

  unfoldable pub make_nocase : Text → Text → Bool → os.World → Searched Text
  unfolding nocase_loop
  make_nocase rootdir path dir w =
      let (found, opened) = nocase_loop rootdir (b'/' ∷ []) (split_path path) dir w in
      (elim found [ none ↦ path | some retpath ↦ retpath ], opened)

  -- The path behind the drive's own directory.
  unfoldable pub host_path : Setup → HostDrive → Text → Bool → os.World → Searched Text
  unfolding make_nocase gen_path
  host_path g drive path dir w =
      let hostpath = gen_path (slashes g.msslash (drive.currdir ++ path)) dir in
      if g.nocase then make_nocase drive.rootdir hostpath dir w else (hostpath, [])

  unfoldable pub drive_path : Setup → HostDrive → Text → Bool → os.World → Searched (Option Text)
  unfolding host_path
  drive_path g drive path dir w =
      if leb path_max (length (drive.currdir ++ path))
      then (none, [])
      else let (hostpath, opened) = host_path g drive path dir w in
        let retpath = drive.rootdir ++ b'/' ∷ hostpath in
        (if leb path_max (length retpath) then none else some (gen_path retpath dir), opened)

  unfoldable pub make_path : Setup → ℕ → Text → Bool → os.World → Searched (Option Text)
  unfolding drive_path
  make_path g drive path dir w =
      if leb max_hostdrives drive
      then (none, [])
      else drive_path g (get_or g.drives drive no_drive) path dir w
