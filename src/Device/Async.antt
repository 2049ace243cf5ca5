-- ===== src/Device/Async.antt =====
-- usbhostfs/main.c: the asynchronous channels. A provider's buffer is known by its address, so that a
-- channel names a buffer and does not hold it. Each section with interrupts disabled is one step, and
-- the wait for the event flag is one too.
pub mod Queue
pub mod Sound
pub mod Providers
pub mod Wakeups
pub mod Fifo
use psplink.Base.{
  ℕ, zero, suc, ◌+◌, ◌-◌, ◌*◌, ◌%◌, ◌^◌, Bool, true, false, List, [], ◌∷◌, Option, none, some, ltb,
  ◌==◌, ◌&&◌, if◌then◌else◌, Text, length, get_or, set, take, drop, min,
}
use psplink.HostFs.Wire.{u32_at}
use psplink.HostFs.Session.{async_magic}

abbrev pub max_async_buffer : ℕ
max_async_buffer = 4096

abbrev pub max_async_channels : ℕ
max_async_channels = 8

-- The first channel that is not reserved.
abbrev pub async_user : ℕ
async_user = 4

-- `(unsigned int) (-1)`
abbrev pub async_alloc_chan : ℕ
async_alloc_chan = 2 ^ 32 - 1

pub record AsyncEndpoint : Type 0 where
  pub buffer : Text
  pub read_pos : ℕ
  pub write_pos : ℕ
  pub size : ℕ

-- `g_async_chan`, the buffers by their addresses, and the bits of `g_asyncevent`.
pub record Channels : Type 0 where
  pub async_chan : List (Option ℕ)
  pub endpoints : ℕ → AsyncEndpoint
  pub asyncevent : List Bool

abbrev pub update {ℓ} : {A : Type ℓ} → (ℕ → A) → ℕ → A → ℕ → A
update f p a q = if p == q then a else f q

-- The endpoint of a channel, if it has one: the guards of the operations.
abbrev pub endpoint_of : ℕ → Channels → Option ℕ
endpoint_of chan s = get_or s.async_chan chan none

-- The loop of `fill_async`, over the bytes that fit.
unfoldable pub fill_loop : Text → AsyncEndpoint → AsyncEndpoint
fill_loop [] e = e
fill_loop (c ∷ chars) e = fill_loop chars (record e {
  buffer = set e.buffer e.write_pos c;
  write_pos = (e.write_pos + 1) % max_async_buffer;
  size = e.size + 1;
})

unfoldable pub fill_endpoint : Text → AsyncEndpoint → AsyncEndpoint
unfolding fill_loop
fill_endpoint chars e = fill_loop (take (max_async_buffer - e.size) chars) e

unfoldable pub fill_channel : ℕ → Text → Option ℕ → Channels → Channels
unfolding fill_endpoint
fill_channel chan chars none s = s
fill_channel chan chars (some p) s = record s {
  endpoints = update s.endpoints p (fill_endpoint chars (s.endpoints p));
  asyncevent = set s.asyncevent chan true;
}

-- `fill_async`, for the packet that came: no longer than a header it is dropped, and so it is with
-- the wrong magic or for a channel that has no endpoint.
unfoldable pub fill_async : Text → Channels → Channels
unfolding fill_channel
fill_async p s =
    if ltb 8 (length p)
    then (if u32_at p 0 == async_magic && ltb (u32_at p 4) max_async_channels
        then fill_channel (u32_at p 4) (drop 8 p) (endpoint_of (u32_at p 4) s) s
        else s)
    else s

abbrev pub flushed : AsyncEndpoint → AsyncEndpoint
flushed e = record e { size = 0; read_pos = 0; write_pos = 0 }

unfoldable pub flush_channel : ℕ → Option ℕ → Channels → Channels
flush_channel chan none s = s
flush_channel chan (some p) s = record s {
  endpoints = update s.endpoints p (flushed (s.endpoints p));
  asyncevent = set s.asyncevent chan false;
}

unfoldable pub usb_async_flush : ℕ → Channels → Channels
unfolding flush_channel
usb_async_flush chan s =
    if ltb chan max_async_channels then flush_channel chan (endpoint_of chan s) s else s

abbrev pub behind : ℕ → Option ℕ → Option ℕ
behind n none = none
behind n (some i) = some (n + i)

-- The number of the first free place of a list.
abbrev pub first_free : List (Option ℕ) → Option ℕ
first_free [] = none
first_free (none ∷ chans) = some 0
first_free (some p ∷ chans) = behind 1 (first_free chans)

-- The place that `usbAsyncRegister` chooses.
unfoldable pub chosen : ℕ → List (Option ℕ) → Option ℕ
chosen chan chans =
    if chan == async_alloc_chan
    then behind async_user (first_free (drop async_user chans))
    else if ltb chan max_async_channels
    then elim (get_or chans chan none) [ none ↦ some chan | some p ↦ none ]
    else none

unfoldable pub enter : ℕ → Option ℕ → Channels → Channels
unfolding usb_async_flush
enter p none s = s
enter p (some chan) s =
    usb_async_flush chan (record s { async_chan = set s.async_chan chan (some p) })

-- `usbAsyncRegister`: the channel, or nothing where it returns -1. `none` is the null pointer.
unfoldable pub usb_async_register : ℕ → Option ℕ → Channels → Option ℕ × Channels
unfolding chosen enter
usb_async_register chan none s = (none, s)
usb_async_register chan (some p) s =
    (chosen chan s.async_chan, enter p (chosen chan s.async_chan) s)

-- `usbAsyncUnregister`, and whether it returns 0.
unfoldable pub usb_async_unregister : ℕ → Channels → Bool × Channels
usb_async_unregister chan s =
    if ltb chan max_async_channels
    then elim (endpoint_of chan s) [
      | none ↦ (false, s)
      | some p ↦ (true, record s { async_chan = set s.async_chan chan none })
    ]
    else (false, s)

-- What `usbAsyncRead` does up to its wait: it returns -1, waits, or has taken the bit of the flag.
pub data Wait : Type 0 where
  refused : Wait
  waiting : Wait
  woken : Channels → Wait

unfoldable pub wait_async : ℕ → Channels → Wait
wait_async chan s =
    if ltb chan max_async_channels
    then elim (endpoint_of chan s) [
      | none ↦ refused
      | some p ↦
          if get_or s.asyncevent chan false
          then woken (record s { asyncevent = set s.asyncevent chan false })
          else waiting
    ]
    else refused

unfoldable pub take_loop : ℕ → AsyncEndpoint → Text × AsyncEndpoint
take_loop zero e = ([], e)
take_loop (suc n) e =
    let c = get_or e.buffer e.read_pos 0 in
    let (chars, e') =
      take_loop n
        (record e { read_pos = (e.read_pos + 1) % max_async_buffer; size = e.size - 1 }) in
    (c ∷ chars, e')

-- The rest of `usbAsyncRead`, behind the wait: nothing for the null pointer that it then reads
-- through where the channel was given up meanwhile.
unfoldable pub take_async : ℕ → ℕ → Channels → Option (Text × Channels)
unfolding take_loop
take_async chan len s = elim (endpoint_of chan s) [
  | none ↦ none
  | some p ↦
      let (chars, e) = take_loop (min len (s.endpoints p).size) (s.endpoints p) in
      some (
        chars,
        record s {
          endpoints = update s.endpoints p e;
          asyncevent = if e.size == 0 then s.asyncevent else set s.asyncevent chan true;
        },
      )
]
