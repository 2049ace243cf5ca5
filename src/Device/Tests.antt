-- ===== src/Device/Tests.antt =====
-- Runs of the device, alone and with a server at the far end, and the theorems at them.
use psplink.Base.{
  ℕ, zero, suc, ◌-◌, ◌^◌, ◌≡◌, ◌≢◌, refl, true, false, List, [], ◌∷◌, ◌++◌, Option, none, some,
  Text, codes, get_or, min, length, replicate, take, drop, set, arith,
}
use psplink.HostFs.Server.{Server}
use psplink.HostFs.Files.{open_file}
use psplink.HostFs.Tests.{host, start, host-Reads}
use psplink.HostFs.Wire.{hostfs_cmd}
use psplink.HostFs.Session.{async_magic, hostfs_magic}
use psplink.Device.Async.{
  AsyncEndpoint, Channels, max_async_buffer, endpoint_of, fill_async, take_async,
  usb_async_register, wait_async,
}
use psplink.Device.Async.Sound.{Session, IsSound}
use psplink.Device.Async.Queue.{held, IsRing}
use psplink.Device.Async.Fifo.{fill_async-held}
use psplink.Device.Async.Wakeups.{Reach, here, next, fills, registers, GoesOn, Reach-GoesOn}
use psplink.Device.Commands.{words}
use psplink.Device.Usb.{Usb}
use psplink.Device.Session.{Events, Thread, usb_thread}
use psplink.Device.Steady.{InStep, Follows, usb_thread-InStep}
use psplink.Device.Link.{wired}
use psplink.Device.Served.{link}
use psplink.Device.Requests.{given, having_sent, io_open-served}
use psplink.Device.Driver.{opened, io_open, usb_read_data}
use psplink.Device.Spread.{spread}
use psplink.Device.Whole.{usb_read_data-Read}

abbrev empty_endpoint : AsyncEndpoint
empty_endpoint = record { buffer = replicate 4096 0; read_pos = 0; write_pos = 0; size = 0 }

abbrev no_channels : Channels
no_channels = record {
  async_chan = replicate 8 none;
  endpoints = λ p. empty_endpoint;
  asyncevent = replicate 8 false;
}

abbrev begun : Session
begun = record { channels = no_channels; awake = λ c. 0 }

empty_endpoint-IsRing : IsRing empty_endpoint
empty_endpoint-IsRing = record {
  room = refl;
  size = omega arith;
  reading = omega arith;
  writing = refl;
}

get_or-replicate {ℓ} : {A : Type ℓ} (n i : ℕ) (a : A) → get_or (replicate n a) i a ≡ a
get_or-replicate zero i a = refl
get_or-replicate (suc n) zero a = refl
get_or-replicate (suc n) (suc i) a = get_or-replicate n i a

nowhere : (c p : ℕ) → endpoint_of c no_channels ≢ some p
nowhere c p e = cc (get_or-replicate {A = Option ℕ} 8 c none)

begun-IsSound : IsSound begun
begun-IsSound = record {
  rings = λ p. empty_endpoint-IsRing;
  places = refl;
  flags = refl;
  apart = λ c c' p r r'. absurd (nowhere c p r);
  announced = λ c p r. absurd (nowhere c p r);
}

abbrev packet : Text
packet = words (async_magic ∷ 2 ∷ []) ++ codes "hello"

-- An endpoint on channel 2, and a packet for it.
abbrev registered : Session
registered = record begun { channels = (usb_async_register 2 (some 7) no_channels).1 }

abbrev busy : Session
busy = record registered { channels = fill_async packet registered.channels }

busy-Reach : Reach begun busy
busy-Reach = next (next here (registers begun 2 7 (λ c. nowhere c 7))) (fills registered packet)

Reach-GoesOn_example : GoesOn (wait_async 2 busy.channels)
unfolding usb_async_register fill_async
Reach-GoesOn_example =
    Reach-GoesOn 2 7 begun-IsSound busy-Reach refl (omega arith) (omega arith) refl

allocated : (usb_async_register (2 ^ 32 - 1) (some 7) no_channels).0 ≡ some 4
unfolding usb_async_register
allocated = refl

abbrev one_channel : Channels
one_channel = record no_channels { async_chan = set no_channels.async_chan 2 (some 7) }

fill_async-held_example :
    let s' = fill_async packet one_channel in
    let waits = held (s'.endpoints 7) in
    let n = min 3 (s'.endpoints 7).size in
    (waits ≡ held empty_endpoint ++ take (max_async_buffer - 0) (codes "hello"))
    × ((s'' : Channels) × (take_async 2 3 s' ≡ some (take n waits, s''))
        × (held (s''.endpoints 7) ≡ drop n waits))
fill_async-held_example =
    fill_async-held 2 7 3 one_channel (codes "hello") refl (omega arith) empty_endpoint-IsRing
      (omega arith)

-- The server of the tests at the far end, with one file open.
abbrev far : Text → Server (wired host)
far left = record {
  world = ((start left []).world, []);
  open_files = set (start left []).open_files 4 (record { opened = true; mode = 1; name = none });
  open_dirs = (start left []).open_dirs;
  bulkfd = none;
  setup = (start left []).setup;
  clientsocks = [];
  calls = [];
  sent = [];
}

usb_read_data-Read_example :
    let got = take 5 (codes "abcdefgh") in
    (s' : Server (wired host)) × (usb_read_data 4 5
        (some (codes "........"))
        (link {os = host} true (far (codes "abcdefgh")))
      ≡ ((length got, some (spread got (codes "........"))), link true s'))
    × (s'.world.0.left ≡ drop 5 (codes "abcdefgh"))
usb_read_data-Read_example =
    usb_read_data-Read host 4 (omega arith) host-Reads (codes "........") 5 (far (codes "abcdefgh"))
      (omega arith) refl

io_open-served_example :
    let (res, s') = open_file 0 (codes "readme") 1 0 (given host (far []) []) in
    io_open 0 (some (codes "readme")) 1 0 (link {os = host} true (far [])) ≡ (
      opened (words (hostfs_magic ∷ hostfs_cmd 2 ∷ 0 ∷ res ∷ [])),
      link true (having_sent host s' (hostfs_cmd 2) res),
    )
io_open-served_example =
    io_open-served host b'r' (codes "eadme") 1 0 0 (far [])
      (refl, (refl, (refl, (refl, (refl, (refl, tt)))))) (omega arith) (omega arith) (omega arith)
      (omega arith)

-- The host sends its magic and then answers HELLO.
abbrev greeting : Usb
greeting = record {
  World = List Text;
  wait_sema = λ w. (true, w);
  signal_sema = λ w. w;
  receive = λ n w. elim w [ [] ↦ (none, []) | t ∷ ts ↦ (some t, ts) ];
  transmit = λ t w. (some (length t), w);
}

abbrev waiting_thread : Thread greeting
waiting_thread = record {
  device = record {
    world = words (hostfs_magic ∷ []) ∷ words (hostfs_magic ∷ hostfs_cmd 0 ∷ 0 ∷ []) ∷ [];
    connected = false;
  };
  channels = no_channels;
  listening = false;
  connect = false;
}

abbrev attached : Events
attached = record { async = false; detach = false; attach = true; async_req = none }

usb_thread-InStep_example :
    InStep (usb_thread attached waiting_thread)
    × Follows true false waiting_thread.device (usb_thread attached waiting_thread).device.connected
usb_thread-InStep_example = usb_thread-InStep attached waiting_thread refl
