-- ===== src/HostFs/Server.antt =====
-- usbhostfs_pc/main.c: the variables of the server, and the actions that its handlers are made of.
-- `calls` and `sent` are ghosts: the paths that were handed to the operating system and what was
-- handed to `usb_bulk_write`, the newest first.
use psplink.Base.{ℕ, ◌+◌, Bool, List, ◌∷◌, ◌++◌, map, Option, none, some, Text, length}
use psplink.HostFs.Host.{Sys, done, failed, DateTime, Os}
use psplink.HostFs.Paths.Resolve.{HostDrive, Setup, make_path}

abbrev pub max_files : ℕ
max_files = 256

abbrev pub max_dirs : ℕ
max_dirs = 256

pub record FileHandle : Type 0 where
  pub opened : Bool
  pub mode : ℕ
  pub name : Option Text

-- `SceIoStat`
pub record SceIoStat : Type 0 where
  pub mode : ℕ
  pub attr : ℕ
  pub size : ℕ
  pub ctime : DateTime
  pub atime : DateTime
  pub mtime : DateTime

-- `SceIoDirent`
pub record SceIoDirent : Type 0 where
  pub stat : SceIoStat
  pub name : Text

pub record DirHandle : Type 0 where
  pub opened : Bool
  pub count : ℕ
  pub pos : ℕ
  pub p_dir : List SceIoDirent

-- `struct DevctlGetInfo`
pub record DevctlGetInfo : Type 0 where
  pub btotal : ℕ
  pub bfree : ℕ
  pub unk : ℕ
  pub ssize : ℕ
  pub sects : ℕ

-- What follows a response.
pub data Payload : Type 0 where
  bytes : Text → Payload
  status : SceIoStat → Payload
  entry : SceIoDirent → Payload
  drive_info : DevctlGetInfo → Payload

-- `sizeof` of the structures
abbrev pub payload_size : Payload → ℕ
payload_size (bytes t) = length t
payload_size (status st) = 88
payload_size (entry e) = 352
payload_size (drive_info info) = 20

-- What is written to the device: a response with its command, `extralen` and `res`, that of LSEEK
-- with the offset too, or a payload.
pub data Output : Type 0 where
  hello_response : Output
  response : ℕ → ℕ → ℕ → Output
  position : ℕ → ℕ → Output
  payload : Payload → Output

abbrev pub sent_size : Output → ℕ
sent_size hello_response = 12
sent_size (response command extralen res) = 16
sent_size (position res ofs) = 24
sent_size (payload p) = payload_size p

-- A path that is handed to the operating system, by a handler or by the search of `make_path`, or
-- the name of an entry that `fill_stat` looks up in a directory that was listed.
pub data Call : Type 0 where
  on_path : Text → Call
  on_entry : Text → Text → Call

pub record Server (os : Os) : Type 0 where
  pub world : os.World
  pub open_files : List FileHandle
  pub open_dirs : List DirHandle
  -- nothing while `g_bulkfd` is -1
  pub bulkfd : Option ℕ
  pub setup : Setup
  -- `g_clientsocks`: nothing while the socket is -1
  pub clientsocks : List (Option ℕ)
  pub calls : List Call
  pub sent : List Output

-- `GETERROR`: `errno` is below 2 ^ 16, so that the bits add.
abbrev pub get_error : ℕ → ℕ
get_error e = 0x80010000 + e

-- The constants of <errno.h>
abbrev pub enoent : ℕ
enoent = 2

abbrev pub einval : ℕ
einval = 22

abbrev pub emfile : ℕ
emfile = 24

abbrev pub enametoolong : ℕ
enametoolong = 36

-- `-1` as 32 bits
abbrev pub minus_one : ℕ
minus_one = 0xFFFFFFFF

-- The result that a response carries for a call that returns 0.
abbrev pub result_of : Sys Unit → ℕ
result_of (done _) = 0
result_of (failed e) = get_error e

abbrev pub Serve : Os → Type 0 → Type 0
Serve os A = Server os → A × Server os

module _ {os : Os} where
  unfoldable pub pure : {A : Type 0} → A → Serve os A
  pure a s = (a, s)

  infixl 10 ◌>>=◌ ◌>>◌
  unfoldable pub ◌>>=◌ : {A B : Type 0} → Serve os A → (A → Serve os B) → Serve os B
  ◌>>=◌ m f s = let (a, s') = m s in f a s'

  abbrev pub ◌>>◌ : {A B : Type 0} → Serve os A → Serve os B → Serve os B
  m >> n = m >>= λ _. n

  -- What follows a call that can fail.
  unfoldable pub case_option :
      {A B : Type 0} → Option A → Serve os B → (A → Serve os B) → Serve os B
  case_option none m f = m
  case_option (some a) m f = f a

  unfoldable pub case_sys :
      {A B : Type 0} → Sys A → (ℕ → Serve os B) → (A → Serve os B) → Serve os B
  case_sys (failed e) m f = m e
  case_sys (done a) m f = f a

  unfoldable pub gets : {A : Type 0} → (Server os → A) → Serve os A
  gets f s = (f s, s)

  unfoldable pub ask : {A : Type 0} → (os.World → A) → Serve os A
  ask f s = (f s.world, s)

  -- A call that changes the world.
  unfoldable pub system : {A : Type 0} → (os.World → A × os.World) → Serve os A
  system f s = let (a, w) = f s.world in (a, record s { world = w })

  -- `make_path` on the variables of the server, with the directories that it opens.
  unfoldable pub path_of : ℕ → Text → Bool → Serve os (Option Text)
  path_of drive path dir s =
      let (fullpath, opened) = make_path os s.setup drive path dir s.world in
      (fullpath, record s { calls = map on_path opened ++ s.calls })

  unfoldable pub change_files : (List FileHandle → List FileHandle) → Serve os Unit
  change_files f s = (tt, record s { open_files = f s.open_files })

  unfoldable pub change_dirs : (List DirHandle → List DirHandle) → Serve os Unit
  change_dirs f s = (tt, record s { open_dirs = f s.open_dirs })

  unfoldable pub change_drives : (List HostDrive → List HostDrive) → Serve os Unit
  change_drives f s = (tt, record s { setup = record s.setup { drives = f s.setup.drives } })

  unfoldable pub touch : Call → Serve os Unit
  touch call s = (tt, record s { calls = call ∷ s.calls })

  -- `euid_usb_bulk_write`: whether it does not fail
  unfoldable pub send : Output → Serve os Bool
  send x s =
      let (okay, w) = os.bulk_write (sent_size x) s.world in
      (okay, record s { world = w; sent = x ∷ s.sent })
