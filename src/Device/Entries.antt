-- ===== src/Device/Entries.antt =====
-- usbhostfs/host_driver.c: the driver's functions on names, directories and control codes.
use psplink.Base.{
  ℕ, ◌+◌, Bool, true, false, [], ◌++◌, Option, none, some, ltb, ◌==◌, if◌then◌else◌, Text, length,
}
use psplink.HostFs.Server.{SceIoStat, minus_one}
use psplink.HostFs.Dispatch.{devctl_get_info}
use psplink.Device.Commands.{name_cmd, mkdir_cmd, did_cmd, chstat_cmd, ctl_cmd}
use psplink.Device.Usb.{Usb, Device, command_xchg}
use psplink.Device.Driver.{named, res_of, rename_bufsize, opened, sent_atime, ask_host, request}

-- The bytes behind a pointer, and none behind NULL.
abbrev pub bytes_of : Option Text → Text
bytes_of none = []
bytes_of (some block) = block

abbrev pub length_of : Option ℕ → ℕ
length_of none = 0
length_of (some outlen) = outlen

-- The result of a request with the data behind its response.
abbrev pub with_extra : Text × Text → ℕ × Text
with_extra (resp, extra) = (res_of resp, extra)

module _ {usb : Usb} where
  -- A request on one name of a drive: REMOVE, RMDIR and CHDIR.
  unfoldable pub on_name : ℕ → ℕ → Option Text → Device usb → ℕ × Device usb
  unfolding request
  on_name n fs_num none d = (minus_one, d)
  on_name n fs_num (some name) d = request (name_cmd n (length name + 1) fs_num) 16 (named name) d

  unfoldable pub io_remove : ℕ → Option Text → Device usb → ℕ × Device usb
  unfolding on_name
  io_remove = on_name 7

  unfoldable pub io_rmdir : ℕ → Option Text → Device usb → ℕ × Device usb
  unfolding on_name
  io_rmdir = on_name 9

  unfoldable pub io_chdir : ℕ → Option Text → Device usb → ℕ × Device usb
  unfolding on_name
  io_chdir = on_name 16

  unfoldable pub io_mkdir : ℕ → Option Text → ℕ → Device usb → ℕ × Device usb
  unfolding request
  io_mkdir fs_num none mode d = (minus_one, d)
  io_mkdir fs_num (some name) mode d =
      request (mkdir_cmd (length name + 1) mode fs_num) 16 (named name) d

  unfoldable pub io_dopen : ℕ → Option Text → Device usb → (ℕ × Option ℕ) × Device usb
  unfolding ask_host
  io_dopen fs_num none d = ((minus_one, none), d)
  io_dopen fs_num (some dir) d =
      ask_host (minus_one, none) (λ x. opened x.0)
        (command_xchg (name_cmd 10 (length dir + 1) fs_num) 16 (named dir) 0) d

  unfoldable pub io_dclose : ℕ → Device usb → ℕ × Device usb
  unfolding request
  io_dclose did = request (did_cmd 12 did) 16 []

  -- The result, and the bytes of the entry; `dir` is whether there is room for one.
  unfoldable pub io_dread : ℕ → Bool → Device usb → (ℕ × Text) × Device usb
  unfolding ask_host
  io_dread did false d = ((minus_one, []), d)
  io_dread did true d =
      ask_host (minus_one, []) with_extra (command_xchg (did_cmd 11 did) 16 [] 352) d

  unfoldable pub io_getstat : ℕ → Option Text → Bool → Device usb → (ℕ × Text) × Device usb
  unfolding ask_host
  io_getstat fs_num none stat d = ((minus_one, []), d)
  io_getstat fs_num (some file) false d = ((minus_one, []), d)
  io_getstat fs_num (some file) true d =
      ask_host (minus_one, []) with_extra
        (command_xchg (name_cmd 13 (length file + 1) fs_num) 16 (named file) 88) d

  unfoldable pub io_chstat : ℕ → Option Text → Option SceIoStat → ℕ → Device usb → ℕ × Device usb
  unfolding request
  io_chstat fs_num none st bits d = (minus_one, d)
  io_chstat fs_num (some file) none bits d = (minus_one, d)
  io_chstat fs_num (some file) (some st) bits d =
      request (chstat_cmd (length file + 1) bits st.mode st.size (sent_atime st) st.mtime fs_num) 16
        (named file) d

  unfoldable pub io_rename : ℕ → Option Text → Option Text → Device usb → ℕ × Device usb
  unfolding request
  io_rename fs_num none newname d = (minus_one, d)
  io_rename fs_num (some oldname) none d = (minus_one, d)
  io_rename fs_num (some oldname) (some newname) d =
      if ltb rename_bufsize (length oldname + length newname + 2)
      then (minus_one, d)
      else request (name_cmd 15 (length oldname + length newname + 2) fs_num) 16
          (named oldname ++ named newname) d

  -- The start of a control code's request, with the data that go in and the room for what comes out.
  unfoldable pub control : ℕ → ℕ → ℕ → Option Text → Option ℕ → Device usb → (ℕ × Text) × Device usb
  unfolding ask_host
  control n a b indata outlen =
      ask_host (minus_one, []) with_extra
        (command_xchg (ctl_cmd n (length (bytes_of indata)) a b (length_of outlen)) 16
          (bytes_of indata) (length_of outlen))

  unfoldable pub io_ioctl : ℕ → ℕ → Option Text → Option ℕ → Device usb → (ℕ × Text) × Device usb
  unfolding control
  io_ioctl fid cmdno indata outlen = control 17 fid cmdno indata outlen

  -- DEVCTL_GET_INFO takes a pointer to the room for its answer: `target` is whether it is there.
  unfoldable pub io_devctl :
      ℕ → Option Text → ℕ → Bool → Option Text → Option ℕ → Device usb → (ℕ × Text) × Device usb
  unfolding control
  io_devctl fs_num none cmdno target indata outlen d = ((minus_one, []), d)
  io_devctl fs_num (some name) cmdno target indata outlen d =
      if cmdno == devctl_get_info
      then (if target then control 18 cmdno fs_num none (some 20) d else ((minus_one, []), d))
      else control 18 cmdno fs_num indata outlen d
