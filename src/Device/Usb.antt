-- ===== src/Device/Usb.antt =====
-- usbhostfs/main.c: the transfers over the cable, `command_xchg` and what is sent besides. The USB
-- bus and the kernel's semaphore are parameters.
use psplink.Base.{
  ℕ, zero, suc, ◌+◌, ◌-◌, ◌^◌, Bool, true, false, [], ◌++◌, Option, none, some, ltb, ◌==◌, ◌&&◌,
  ◌||◌, if◌then◌else◌, Text, length, take, drop, min,
}
use psplink.HostFs.Wire.{u32_at, command_of, extralen_of}
use psplink.HostFs.Session.{hostfs_magic}
use psplink.HostFs.Dispatch.{as_size}
use psplink.Device.Commands.{header}

-- The calls of the kernel and of the USB bus, over a state of the world of which nothing is known.
pub record Usb : Type 1 where
  pub World : Type 0
  -- `sceKernelWaitSema` on `g_mainsema`, and whether it does not fail
  pub wait_sema : World → Bool × World
  pub signal_sema : World → World
  -- `sceUsbbdReqRecv` for so many bytes and the wait for its end: what came, or nothing where the
  -- request, the wait or the transfer fails
  pub receive : ℕ → World → Option Text × World
  -- `sceUsbbdReqSend` and the wait: how many of the bytes were taken
  pub transmit : Text → World → Option ℕ × World

-- `sizeof(tx_buf)`
abbrev pub tx_size : ℕ
tx_size = 65536

-- `HOSTFS_BULK_MAXWRITE`
abbrev pub bulk_maxwrite : ℕ
bulk_maxwrite = 2 ^ 20

-- `g_connected`, with the world of the calls.
pub record Device (usb : Usb) : Type 0 where
  pub world : usb.World
  pub connected : Bool

-- A response is refused only if neither its magic nor its command fits.
abbrev pub is_expected : Text → Text → Bool
is_expected cmd resp = u32_at resp 0 == hostfs_magic || command_of resp == command_of cmd

abbrev pub Act : Usb → Type 0 → Type 0
Act usb A = Device usb → Option A × Device usb

module _ {usb : Usb} where
  unfoldable pub done : {A : Type 0} → A → Act usb A
  done a d = (some a, d)

  unfoldable pub fails : {A : Type 0} → Act usb A
  fails d = (none, d)

  abbrev pub after :
      {A B : Type 0} → Option A × Device usb → (A → Act usb B) → Option B × Device usb
  after (none, d) f = (none, d)
  after (some a, d) f = f a d

  infixl 10 ◌>>=◌ ◌>>◌
  unfoldable pub ◌>>=◌ : {A B : Type 0} → Act usb A → (A → Act usb B) → Act usb B
  ◌>>=◌ m f d = after (m d) f

  abbrev pub ◌>>◌ : {A B : Type 0} → Act usb A → Act usb B → Act usb B
  m >> n = m >>= λ _. n

  -- A call that can fail.
  unfoldable pub call : {A : Type 0} → (usb.World → Option A × usb.World) → Act usb A
  call f d = let (r, w) = f d.world in (r, record d { world = w })

  -- A check that breaks out of the exchange.
  unfoldable pub check : Bool → Act usb (Unit {0})
  check true = done tt
  check false = fails

  -- The loop of `read_data`, with the bytes still wanted and those that came.
  unfoldable pub read_loop : ℕ → ℕ → Text → Act usb Text
  read_loop zero left got = done got
  read_loop (suc fuel) left got = if left == 0 then done got else do
    part ← call (usb.receive (min left tx_size))
    check (ltb 0 (length part))
    read_loop fuel (left - length part) (got ++ part)

  unfoldable pub read_data : ℕ → Act usb Text
  read_data size = read_loop size size []

  -- The loops of `write_data`, with the bytes still to be sent and the number of those sent.
  unfoldable pub write_loop : ℕ → Text → ℕ → Act usb ℕ
  write_loop zero left written = done written
  write_loop (suc fuel) left written = if length left == 0 then done written else do
    count ← call (usb.transmit (take tx_size left))
    check (ltb 0 count)
    write_loop fuel (drop count left) (written + count)

  unfoldable pub write_data : Text → Act usb ℕ
  write_data block = write_loop (length block) block 0

  -- `err = write_data(data, len); if(err != len)`, where there is something to write.
  unfoldable pub write_all : Text → Act usb (Unit {0})
  write_all block =
      if length block == 0
      then done tt
      else do written ← write_data block; check (written == length block)

  unfoldable pub read_all : ℕ → ℕ → Act usb Text
  read_all size expected = do got ← read_data size; check (length got == expected); done got

  -- The data behind a response, where there are some and the caller takes some.
  unfoldable pub read_extra : Text → ℕ → Act usb Text
  read_extra resp inlen =
      if ltb 0 (extralen_of resp) && ltb 0 inlen
      then read_all (as_size (extralen_of resp)) (extralen_of resp)
      else done []

  -- The body of `command_xchg`, for a command that has a response: the response and the data behind it.
  unfoldable pub exchange : Text → ℕ → Text → ℕ → Act usb (Text × Text)
  exchange cmd incmdlen block inlen = do
    write_all cmd
    write_all block
    resp ← read_all incmdlen incmdlen
    check (is_expected cmd resp)
    extra ← read_extra resp inlen
    done (resp, extra)

  -- What is done between the wait for `g_mainsema` and its signal.
  unfoldable pub exclusively : {A : Type 0} → Act usb A → Act usb A
  exclusively m d =
      let (free, w) = usb.wait_sema d.world in
      let (r, d') = m (record d { world = w }) in
      if free
      then (r, record d' { world = usb.signal_sema d'.world })
      else (none, record d { world = w })

  -- `command_xchg`: nothing where it returns 0.
  unfoldable pub command_xchg : Text → ℕ → Text → ℕ → Act usb (Text × Text)
  command_xchg cmd incmdlen block inlen = exclusively (exchange cmd incmdlen block inlen)

  unfoldable pub send_async : Text → Act usb (Unit {0})
  send_async packet = exclusively (write_all packet)

  unfoldable pub send_hello_cmd : Act usb (Text × Text)
  send_hello_cmd = command_xchg (header 0 0) 12 [] 0
