-- ===== src/Device/Commands.antt =====
-- usbhostfs/host_driver.c and usbhostfs/usbhostfs.h: the structures of the commands, as the bytes that
-- the device sends. `HOSTFS_MAGIC` and the command's number stand before each of them.
use psplink.Base.{ℕ, ◌/◌, ◌%◌, ◌^◌, List, [], ◌∷◌, ◌++◌, Text}
use psplink.HostFs.Host.{DateTime}
use psplink.HostFs.Wire.{hostfs_cmd}
use psplink.HostFs.Session.{hostfs_magic}

abbrev pub u16_bytes : ℕ → Text
u16_bytes n = n % 256 ∷ (n / 256) % 256 ∷ []

abbrev pub u32_bytes : ℕ → Text
u32_bytes n = n % 256 ∷ (n / 256) % 256 ∷ (n / 65536) % 256 ∷ (n / 16777216) % 256 ∷ []

abbrev pub u64_bytes : ℕ → Text
u64_bytes n = u32_bytes n ++ u32_bytes (n / 2 ^ 32)

-- `struct HostFsCmd`
abbrev pub header : ℕ → ℕ → Text
header n extralen = u32_bytes hostfs_magic ++ (u32_bytes (hostfs_cmd n) ++ u32_bytes extralen)

-- A structure of words.
abbrev pub words : List ℕ → Text
words [] = []
words (n ∷ ns) = u32_bytes n ++ words ns

abbrev pub time_bytes : DateTime → Text
time_bytes t =
    u16_bytes t.year
    ++ (u16_bytes t.month
        ++ (u16_bytes t.day ++ (u16_bytes t.hour ++ (u16_bytes t.minute ++ u16_bytes t.second))))

abbrev pub open_cmd : ℕ → ℕ → ℕ → ℕ → Text
open_cmd extralen mode mask fsnum = header 2 extralen ++ words (mode ∷ mask ∷ fsnum ∷ [])

abbrev pub close_cmd : ℕ → Text
close_cmd fid = header 3 0 ++ words (fid ∷ [])

abbrev pub read_cmd : ℕ → ℕ → Text
read_cmd fid len = header 4 0 ++ words (fid ∷ len ∷ [])

abbrev pub write_cmd : ℕ → ℕ → Text
write_cmd extralen fid = header 5 extralen ++ words (fid ∷ [])

abbrev pub lseek_cmd : ℕ → ℕ → ℕ → Text
lseek_cmd fid ofs whence =
    header 6 0 ++ (words (fid ∷ []) ++ (u64_bytes ofs ++ words (whence ∷ [])))

-- REMOVE, RMDIR, DOPEN, GETSTAT, RENAME and CHDIR: a name on a drive.
abbrev pub name_cmd : ℕ → ℕ → ℕ → Text
name_cmd n extralen fsnum = header n extralen ++ words (fsnum ∷ [])

abbrev pub mkdir_cmd : ℕ → ℕ → ℕ → Text
mkdir_cmd extralen mode fsnum = header 8 extralen ++ words (mode ∷ fsnum ∷ [])

-- DREAD and DCLOSE
abbrev pub did_cmd : ℕ → ℕ → Text
did_cmd n did = header n 0 ++ words (did ∷ [])

abbrev pub chstat_cmd : ℕ → ℕ → ℕ → ℕ → DateTime → DateTime → ℕ → Text
chstat_cmd extralen bits mode size atime mtime fsnum =
    header 14 extralen
    ++ (words (bits ∷ mode ∷ [])
        ++ (u64_bytes size ++ (time_bytes atime ++ (time_bytes mtime ++ words (fsnum ∷ [])))))

-- IOCTL and DEVCTL
abbrev pub ctl_cmd : ℕ → ℕ → ℕ → ℕ → ℕ → Text
ctl_cmd n extralen a b outlen = header n extralen ++ words (a ∷ b ∷ outlen ∷ [])
