-- ===== src/Device/Driver.antt =====
-- usbhostfs/host_driver.c: the functions of the driver `host`. A pointer that may be NULL is an
-- option, and a signed result its pattern of 32 bits. What a transfer that failed leaves in the
-- caller's buffer is not modelled.
use psplink.Base.{
  ℕ, zero, suc, ◌+◌, ◌-◌, ◌/◌, ◌%◌, ◌^◌, Bool, true, false, [], ◌∷◌, ◌++◌, Option, none, some, ltb,
  ◌==◌, ◌&&◌, not, if◌then◌else◌, Text, length, take, drop, add32,
}
use psplink.HostFs.Host.{DateTime}
use psplink.HostFs.Server.{SceIoStat, minus_one}
use psplink.HostFs.Wire.{u32_at, u64_at}
use psplink.HostFs.Dispatch.{hostfs_max_block}
use psplink.Device.Commands.{open_cmd, close_cmd, read_cmd, write_cmd, lseek_cmd}
use psplink.Device.Usb.{Usb, Device, Act, command_xchg}

-- A name behind its command, with its NUL.
abbrev pub named : Text → Text
named file = file ++ 0 ∷ []

abbrev pub res_of : Text → ℕ
res_of resp = u32_at resp 12

-- `HOSTFS_RENAME_BUFSIZE`
abbrev pub rename_bufsize : ℕ
rename_bufsize = 1024

-- The result of an open, and the number of the file or directory where there is one.
abbrev pub opened : Text → ℕ × Option ℕ
opened resp = if ltb (res_of resp) (2 ^ 31) then (0, some (res_of resp)) else (res_of resp, none)

-- `memcpy` into a buffer, from an offset on.
abbrev pub overlay : ℕ → Text → Text → Text
overlay offset block buf = take offset buf ++ (block ++ drop (offset + length block) buf)

-- The time stamps of `io_chstat`: that of the last access has the minute and the second of the last
-- modification.
abbrev pub sent_atime : SceIoStat → DateTime
sent_atime st = record st.atime { minute = st.mtime.minute; second = st.mtime.second }

-- How far a transfer is: what it will return, and the buffer.
pub record Progress : Type 0 where
  pub ret : ℕ
  pub buf : Text

-- What a block that moved nothing returns: an error that came straight away, or what was moved.
abbrev pub stopped : ℕ → Progress → Progress
stopped res p = record p { ret = if not (ltb res (2 ^ 31)) && p.ret == 0 then res else p.ret }

abbrev pub broken : Progress → Progress
broken p = record p { ret = minus_one }

abbrev pub moves : ℕ → Bool
moves res = ltb 0 res && ltb res (2 ^ 31)

module _ {usb : Usb} where
  -- What a request gives: `bad` without a connection or where the exchange fails.
  unfoldable pub ask_host :
      {A : Type 0} → A → (Text × Text → A) → Act usb (Text × Text) → Device usb → A × Device usb
  ask_host bad f m d =
      if d.connected
      then (let (r, d') = m d in (elim r [ none ↦ bad | some x ↦ f x ], d'))
      else (bad, d)

  -- A request that returns `resp.res`.
  unfoldable pub request : Text → ℕ → Text → Device usb → ℕ × Device usb
  unfolding ask_host
  request cmd incmdlen block =
      ask_host minus_one (λ x. res_of x.0) (command_xchg cmd incmdlen block 0)

  unfoldable pub io_open : ℕ → Option Text → ℕ → ℕ → Device usb → (ℕ × Option ℕ) × Device usb
  unfolding ask_host
  io_open fs_num none mode mask d = ((minus_one, none), d)
  io_open fs_num (some file) mode mask d =
      ask_host (minus_one, none) (λ x. opened x.0)
        (command_xchg (open_cmd (length file + 1) mode mask fs_num) 16 (named file) 0) d

  unfoldable pub io_close : ℕ → Device usb → ℕ × Device usb
  unfolding request
  io_close fid = request (close_cmd fid) 16 []

  -- One block of `usb_read_data`; whether the next one is asked for.
  unfoldable pub read_block : ℕ → ℕ → Progress → Device usb → (Bool × Progress) × Device usb
  unfolding ask_host
  read_block fd size p =
      ask_host (false, broken p)
        (λ x.
          let q : Progress = record p { buf = overlay p.ret x.1 p.buf } in
          if moves (res_of x.0)
          then (true, record q { ret = add32 p.ret (res_of x.0) })
          else (false, stopped (res_of x.0) q))
        (command_xchg (read_cmd fd size) 16 [] size)

  unfoldable pub write_block : ℕ → ℕ → Progress → Device usb → (Bool × Progress) × Device usb
  unfolding ask_host
  write_block fd size p =
      ask_host (false, broken p)
        (λ x.
          if moves (res_of x.0)
          then (true, record p { ret = add32 p.ret (res_of x.0) })
          else (false, stopped (res_of x.0) p))
        (command_xchg (write_cmd size fd) 16 (take size (drop p.ret p.buf)) 0)

  -- The loop over the full blocks.
  unfoldable pub blocks_loop :
      (Progress → Device usb → (Bool × Progress) × Device usb)
      → ℕ
      → Progress
      → Device usb
      → (Bool × Progress) × Device usb
  blocks_loop block zero p d = ((true, p), d)
  blocks_loop block (suc blocks) p d =
      let ((goes_on, p'), d') = block p d in
      elim goes_on [ true ↦ blocks_loop block blocks p' d' | false ↦ ((false, p'), d') ]

  -- The blocks of a transfer and the rest of it.
  unfoldable pub blockwise :
      (ℕ → Progress → Device usb → (Bool × Progress) × Device usb)
      → ℕ
      → Text
      → Device usb
      → Progress × Device usb
  unfolding blocks_loop
  blockwise block len buf d =
      let ((goes_on, p), d') =
        blocks_loop (block hostfs_max_block) (len / hostfs_max_block)
          (record { ret = 0; buf = buf }) d in
      if goes_on && ltb 0 (len % hostfs_max_block)
      then (let ((_, q), d'') = block (len % hostfs_max_block) p d' in (q, d''))
      else (p, d')

  -- The tests that `usb_read_data` and `usb_write_data` begin with.
  unfoldable pub bounded :
      (ℕ → Progress → Device usb → (Bool × Progress) × Device usb)
      → ℕ
      → Option Text
      → Device usb
      → (ℕ × Option Text) × Device usb
  unfolding blockwise
  bounded block len none d =
      ((if not (ltb len (2 ^ 31)) then minus_one else if len == 0 then 0 else minus_one, none), d)
  bounded block len (some buf) d =
      if not (ltb len (2 ^ 31))
      then ((minus_one, some buf), d)
      else if len == 0
      then ((0, some buf), d)
      else (let (p, d') = blockwise block len buf d in ((p.ret, some p.buf), d'))

  unfoldable pub usb_read_data : ℕ → ℕ → Option Text → Device usb → (ℕ × Option Text) × Device usb
  unfolding bounded read_block
  usb_read_data fd len buf = bounded (read_block fd) len buf

  unfoldable pub usb_write_data : ℕ → ℕ → Option Text → Device usb → (ℕ × Option Text) × Device usb
  unfolding bounded write_block
  usb_write_data fd len buf = bounded (write_block fd) len buf

  -- The offset as 64 bits.
  unfoldable pub io_lseek : ℕ → ℕ → ℕ → Device usb → ℕ × Device usb
  unfolding ask_host
  io_lseek fid ofs whence =
      ask_host (2 ^ 64 - 1) (λ x. if ltb (res_of x.0) (2 ^ 31) then u64_at x.0 16 else 2 ^ 64 - 1)
        (command_xchg (lseek_cmd fid ofs whence) 24 [] 0)
