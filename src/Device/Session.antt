-- ===== src/Device/Session.antt =====
-- usbhostfs/main.c: `usbAsyncWrite`, `usbWriteBulkData` and the rounds of `usb_thread`.
use psplink.Base.{
  ℕ, zero, suc, ◌+◌, Bool, true, false, [], ◌∷◌, ◌++◌, Option, none, some, ltb, ◌==◌, ◌||◌,
  if◌then◌else◌, Text, length, take, drop,
}
use psplink.HostFs.Server.{minus_one}
use psplink.HostFs.Wire.{u32_at}
use psplink.HostFs.Session.{hostfs_magic, async_magic, bulk_magic}
use psplink.Device.Async.{Channels, fill_async}
use psplink.Device.Commands.{words}
use psplink.Device.Usb.{
  Usb, Device, Act, ◌>>=◌, ◌>>◌, check, read_data, write_all, exclusively, bulk_maxwrite,
  send_async, send_hello_cmd,
}

-- The data that fit behind a header into the buffer of 512 bytes.
abbrev pub async_room : ℕ
async_room = 504

-- What `usb_thread` finds when it wakes up: the bits of `g_mainevent`, and what the asynchronous
-- request brought, nothing where it failed or was empty.
pub record Events : Type 0 where
  pub async : Bool
  pub detach : Bool
  pub attach : Bool
  pub async_req : Option Text

-- The variables of the thread. `listening` is whether a request for asynchronous data is out, and
-- `connect` the bit USB_EVENT_CONNECT.
pub record Thread (usb : Usb) : Type 0 where
  pub device : Device usb
  pub channels : Channels
  pub listening : Bool
  pub connect : Bool

module _ {usb : Usb} where
  -- The loop of `usbAsyncWrite`: how much was written, of the data that are left.
  unfoldable pub async_loop : ℕ → ℕ → Text → ℕ → Device usb → ℕ × Device usb
  unfolding send_async
  async_loop zero chan left written d = (written, d)
  async_loop (suc fuel) chan left written d =
      if length left == 0
      then (written, d)
      else (let (r, d') = send_async (words (async_magic ∷ chan ∷ []) ++ take async_room left) d in
          elim r [
            | none ↦ (written, d')
            | some _ ↦
                async_loop fuel chan (drop async_room left)
                  (written + length (take async_room left)) d'
          ])

  unfoldable pub usb_async_write : ℕ → Text → Device usb → ℕ × Device usb
  unfolding async_loop
  usb_async_write chan block d =
      if d.connected then async_loop (length block) chan block 0 d else (minus_one, d)

  unfoldable pub usb_write_bulk_data : Text → Device usb → ℕ × Device usb
  unfolding exclusively write_all ◌>>=◌
  usb_write_bulk_data block d =
      if d.connected
      then (if length block == 0 || ltb bulk_maxwrite (length block)
          then (minus_one, d)
          else (let (r, d') =
                exclusively (do write_all (words (bulk_magic ∷ length block ∷ [])); write_all block)
                  d in
              (elim r [ none ↦ minus_one | some _ ↦ length block ], d')))
      else (minus_one, d)

  -- What an attach waits for: the magic of the host, and its answer to HELLO.
  unfoldable pub greet : Act usb (Text × Text)
  unfolding ◌>>=◌ read_data check send_hello_cmd
  greet = do
    magic ← read_data 4
    check (length magic == 4)
    check (u32_at magic 0 == hostfs_magic)
    send_hello_cmd

  unfoldable pub on_async : Events → Thread usb → Thread usb
  unfolding fill_async
  on_async e t =
      if e.async
      then elim e.async_req [
        | none ↦ record t { listening = false }
        | some p ↦ record t { channels = fill_async p t.channels; listening = true }
      ]
      else t

  abbrev pub unconnected : Thread usb → Thread usb
  unconnected t = record t { device = record t.device { connected = false }; connect = false }

  unfoldable pub on_detach : Events → Thread usb → Thread usb
  on_detach e t = if e.detach then unconnected t else t

  unfoldable pub on_attach : Events → Thread usb → Thread usb
  unfolding greet
  on_attach e t =
      if e.attach
      then (let (r, d) = greet (record t.device { connected = false }) in
          elim r [
            | none ↦ record t { device = d; connect = false }
            | some _ ↦ record t {
              device = record d { connected = true };
              listening = true;
              connect = true;
            }
          ])
      else t

  -- One round of the loop.
  unfoldable pub usb_thread : Events → Thread usb → Thread usb
  unfolding on_async on_detach on_attach
  usb_thread e t = on_attach e (on_detach e (on_async e t))
