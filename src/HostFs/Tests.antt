-- ===== src/HostFs/Tests.antt =====
-- A host with one file, whose reads are short and interrupted, and runs of the server on it.
use psplink.Base.{
  ◌≤◌, ℕ, ◌≡◌, ◌<◌, refl, true, false, List, [], ◌∷◌, ◌++◌, none, some, Text, codes, length, take,
  drop, min, replicate, arith, inl, inr, All, ◌⊎◌, zero, suc, ◌%◌, ◌/◌,
}
use psplink.Base.Texts.{cstr, downcase, text_eq, text_eq_nocase}
use psplink.HostFs.Host.{done, failed, interrupted, answered, DateTime, Os}
use psplink.HostFs.Paths.Resolve.{
  Setup, HostDrive, calc_rating, printed, scan_entries, find_nocase, nocase_loop, make_nocase,
  host_path, drive_path, make_path,
}
use psplink.HostFs.Paths.Tokens.{pieces, tokens, gen_path, render, walk, place}
use psplink.HostFs.Paths.Names.{IsName, gen_path-gen_path}
use psplink.HostFs.Server.{
  on_path, pure, ◌>>=◌, case_option, path_of, system, touch, send, SceIoDirent, Server, response,
}
use psplink.HostFs.Files.{closed_file}
use psplink.HostFs.Dirs.{closed_dir, no_entry, next_entry}
use psplink.HostFs.Dispatch.{handle, do_hostfs}
use psplink.HostFs.Session.{Input, packet, timed_out, disconnected, serve, connection, add_drive}
use psplink.HostFs.Transfer.{fixed_read, fixed_write}
use psplink.HostFs.Paths.Below.{IsRoot}
use psplink.HostFs.Safety.Confinement.{AreRoots, IsConfined}
use psplink.HostFs.Safety.Roots.{IsRooted, add_drive-IsRooted, connection-IsConfined}
use psplink.HostFs.Safety.Handles.{IsListing, IsTables, serve-IsTables}
use psplink.HostFs.Safety.Listing.{Taken, next_entry-Taken}
use psplink.HostFs.Safety.Stores.{Writes, Stored, fixed_write-Stored}
use psplink.HostFs.Safety.Contents.{Reads, Done, fixed_read-Done}
use psplink.HostFs.Replies.Commands.{do_hostfs-Outcome}
use psplink.HostFs.Replies.Shapes.{is_complete, shape, answered_as}
use psplink.HostFs.Replies.Answers.{Outcome}
use psplink.HostFs.Dispatch.{command}
use psplink.HostFs.Wire.{hostfs_cmd, command_of, read_data, with_data, answer}
use psplink.HostFs.Entries.{call_on, on_name, handle_remove}

-- What is left of the file that is read, what stands in the one that is written, and what the device
-- still sends.
pub record World : Type 0 where
  pub left : Text
  pub written : Text
  pub coming : Text

abbrev epoch : ℕ → DateTime
epoch t = record { year = 1970; month = 1; day = 1; hour = 0; minute = 0; second = t }

abbrev pub host : Os
host = record {
  World = World;
  stat = λ path w. failed 2;
  names = λ path w. some (codes "Saves" ∷ codes "readme" ∷ []);
  scandir = λ path w. done (codes "readme", []);
  open_fd = λ path flags mode w. (done 4, w);
  close_fd = λ fd w. (done tt, w);
  read_fd = λ fd n w. (
    interrupted (answered (done (take (min (min n 3) (length w.left)) w.left))),
    record w { left = drop (min (min n 3) (length w.left)) w.left },
  );
  write_fd = λ fd t w. (
    interrupted (answered (done (min 2 (length t)))),
    record w { written = w.written ++ take (min 2 (length t)) t },
  );
  lseek = λ fd ofs whence w. (ofs, w);
  unlink = λ path w. (done tt, w);
  rmdir = λ path w. (done tt, w);
  mkdir = λ path mode w. (done tt, w);
  rename = λ old new w. (done tt, w);
  chmod = λ path mode w. (done tt, w);
  utime = λ path a m w. (done tt, w);
  localtime = epoch;
  mktime = λ t. some 0;
  statvfs = λ path w. none;
  bulk_read = λ n w. (some (take n w.coming), record w { coming = drop n w.coming });
  bulk_write = λ n w. (true, w);
  send_socket = λ sock t w. w;
}

abbrev root : Text
root = codes "/srv/psp"

abbrev drives : List HostDrive
drives = replicate 8 (record { rootdir = root; currdir = codes "/" })

abbrev pub start : Text → Text → Server host
start left coming = record {
  world = record { left = left; written = []; coming = coming };
  open_files = replicate 256 closed_file;
  open_dirs = replicate 256 closed_dir;
  bulkfd = none;
  setup = record { drives = drives; nocase = true; msslash = true };
  clientsocks = [];
  calls = [];
  sent = [];
}

some_come : (n : ℕ) (t : Text) → (n ≡ 0) ⊎ ((t ≡ []) ⊎ (0 < min (min n 3) (length t)))
some_come zero t = inl refl
some_come (suc n) [] = inr (inl refl)
some_come (suc n) (c ∷ t) = inr (inr (omega arith))

some_go : (t : Text) → (length t ≡ 0) ⊎ (0 < min 2 (length t))
some_go [] = inl refl
some_go (c ∷ t) = inr (omega arith)

pub host-Reads : Reads host 4 (λ w. w.left)
host-Reads = record {
  got = λ n w. min (min n 3) (length w.left);
  brings = λ n w. refl;
  moves = λ n w. refl;
  wanted = λ n w. omega arith;
  there = λ n w. omega arith;
  goes_on = λ n w. some_come n w.left;
}

fixed_read-Done_example :
    Done {os = host}
      (λ w. w.left)
      5
      []
      (record { left = codes "abcdefgh"; written = []; coming = [] })
      (fixed_read 4 5 (start (codes "abcdefgh") []))
fixed_read-Done_example = fixed_read-Done host-Reads 5 (start (codes "abcdefgh") [])

host-Writes : Writes host 4 (λ w. w.written)
host-Writes = record {
  put = λ t w. min 2 (length t);
  tells = λ t w. refl;
  adds = λ t w. refl;
  there = λ t w. omega arith;
  goes_on = λ t w. some_go t;
}

fixed_write-Stored_example :
    Stored {os = host}
      (λ w. w.written)
      (codes "abcde")
      0
      (start [] []).world
      (fixed_write 4 (codes "abcde") (start [] []))
fixed_write-Stored_example = fixed_write-Stored host-Writes (codes "abcde") (start [] [])

gen_path-gen_path_example :
    All IsName (tokens (gen_path (codes "ms0/../a/./b//c") true))
    × (length (tokens (gen_path (codes "ms0/../a/./b//c") true)) ≤ 255)
    × (gen_path (gen_path (codes "ms0/../a/./b//c") true) false
        ≡ gen_path (codes "ms0/../a/./b//c") false)
gen_path-gen_path_example = gen_path-gen_path (codes "ms0/../a/./b//c") true false

-- 32 bits, the lowest byte first
abbrev le32 : ℕ → Text
le32 n = n % 256 ∷ n / 256 % 256 ∷ n / 65536 % 256 ∷ n / 16777216 % 256 ∷ []

abbrev remove_request : Text
remove_request = le32 0x782F0812 ++ le32 (hostfs_cmd 7) ++ le32 19 ++ le32 0

abbrev escaping_name : Text
escaping_name = codes "..\\..\\saves/README" ++ 0 ∷ []

do_hostfs-Outcome_example :
    Outcome
      (is_complete
        (shape (command (command_of remove_request)))
        remove_request
        (start [] escaping_name))
      (answered_as (command (command_of remove_request)))
      (start [] escaping_name)
      (do_hostfs remove_request (start [] escaping_name)).1
do_hostfs-Outcome_example = do_hostfs-Outcome remove_request (start [] escaping_name)

-- The name climbs no further than the root, and the case of its parts is that of the directory.
removed :
    ((do_hostfs remove_request (start [] escaping_name)).1.calls
      ≡ on_path (codes "/srv/psp/Saves/readme")
        ∷ on_path (codes "/srv/psp/Saves/")
        ∷ on_path (codes "/srv/psp/")
        ∷ [])
    × ((do_hostfs remove_request (start [] escaping_name)).1.sent
        ≡ response (hostfs_cmd 7) 0 0 ∷ [])
unfolding do_hostfs command handle handle_remove with_data read_data on_name path_of call_on touch
    system answer send ◌>>=◌ pure case_option make_path drive_path host_path make_nocase nocase_loop
    find_nocase scan_entries calc_rating text_eq_nocase downcase gen_path render walk place tokens
    pieces text_eq cstr printed
removed = (refl, refl)

abbrev roots : List Text
roots = replicate 8 root

srv-IsName : IsName (codes "srv")
unfolding text_eq
srv-IsName = record { piece = (refl, (refl, (refl, (refl, tt)))); not_dot = refl; not_dots = refl }

psp-IsName : IsName (codes "psp")
unfolding text_eq
psp-IsName = record { piece = (refl, (refl, (refl, (refl, tt)))); not_dot = refl; not_dots = refl }

root-IsRoot : IsRoot root
unfolding tokens pieces
root-IsRoot = record { plain = (srv-IsName, (psp-IsName, tt)); few = omega arith }

roots-AreRoots : AreRoots roots
roots-AreRoots = record {
  eight = refl;
  each = (
    root-IsRoot,
    (
      root-IsRoot,
      (root-IsRoot, (root-IsRoot, (root-IsRoot, (root-IsRoot, (root-IsRoot, (root-IsRoot, tt)))))),
    ),
  );
}

abbrev inputs : List Input
inputs = timed_out ∷ packet remove_request ∷ packet (le32 0x782F0813) ∷ disconnected ∷ []

start-IsConfined : IsConfined {os = host} roots (start [] escaping_name)
start-IsConfined = record { rooted = refl; allowed = tt }

connection-IsConfined_example :
    IsConfined {os = host} roots (connection inputs (start [] escaping_name)).1
connection-IsConfined_example =
    connection-IsConfined inputs (start [] escaping_name) roots-AreRoots start-IsConfined

start-IsRooted : IsRooted {os = host} (start [] [])
start-IsRooted = record { roots = roots-AreRoots }

add_drive-IsRooted_example :
    IsRooted {os = host} (add_drive (codes "/home") 3 (codes "../x/../psp") (start [] [])).1
add_drive-IsRooted_example =
    add_drive-IsRooted (codes "/home") 3 (codes "../x/../psp") (start [] []) start-IsRooted

closed-All : (n : ℕ) → All IsListing (replicate n closed_dir)
closed-All zero = tt
closed-All (suc n) = (record { inside = omega arith; counted = refl }, closed-All n)

start-IsTables : IsTables {os = host} (start [] escaping_name)
start-IsTables = record { files = refl; dirs = refl; listings = closed-All 256; bulk = tt }

serve-IsTables_example : IsTables {os = host} (serve inputs (start [] escaping_name)).1
serve-IsTables_example = serve-IsTables inputs (start [] escaping_name) start-IsTables

abbrev readme : SceIoDirent
readme = record no_entry { name = codes "readme" }

-- A directory is open with one entry.
abbrev listed_start : Server host
listed_start = record (start [] []) {
  open_dirs =
      record { opened = true; count = 1; pos = 0; p_dir = readme ∷ [] } ∷ replicate 255 closed_dir;
}

listed-IsTables : IsTables {os = host} listed_start
listed-IsTables = record {
  files = refl;
  dirs = refl;
  listings = (record { inside = omega arith; counted = refl }, closed-All 255);
  bulk = tt;
}

next_entry-Taken_example : Taken {os = host} 0 (readme ∷ []) (next_entry 0 listed_start)
next_entry-Taken_example = next_entry-Taken 0 listed_start (omega arith) listed-IsTables

abbrev case_kept : Setup
case_kept = record { drives = drives; nocase = false; msslash = false }
