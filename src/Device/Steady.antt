-- ===== src/Device/Steady.antt =====
-- The thread of the USB connection: the connection and the event that tells of it.
use psplink.Base.{
  arith, ◌↔◌, subst, length, ◌==◌, ℕ, zero, suc, ◌≡◌, refl, ◌∙◌, sym, ap, Bool-cases, Option-cases,
  inl, inr, not, ◌&&◌, Bool, true, false, Text, Option, none, some, if◌then◌else◌,
}
use psplink.HostFs.Wire.{u32_at}
use psplink.HostFs.Session.{hostfs_magic}
use psplink.Device.Usb.{
  Usb, Device, Act, done, fails, after, call, ◌>>=◌, ◌>>◌, check, read_loop, read_data, write_loop,
  write_data, write_all, read_all, read_extra, exchange, exclusively, command_xchg, send_hello_cmd,
}
use psplink.Device.Session.{Events, Thread, greet, on_async, on_detach, on_attach, usb_thread}

and_false : (b : Bool) → (b && false) ≡ false
and_false true = refl
and_false false = refl

differ : true ≡ false → ⊥
differ e = cc

and_true : (b : Bool) → (b && true) ≡ b
and_true true = refl
and_true false = refl

abbrev pub is_some {ℓ} : {A : Type ℓ} → Option A → Bool
is_some none = false
is_some (some a) = true

-- The action does not connect or disconnect.
pub record Steady {usb : Usb} {A : Type 0} (m : Act usb A) : Type 0 where
  pub at : (d : Device usb) → (m d).1.connected ≡ d.connected

module _ {usb : Usb} {A : Type 0} where
  Steady-done : (a : A) → Steady {usb = usb} (done a)
  unfolding done
  Steady-done a = record { at = λ d. refl }

  Steady-fails : Steady {usb = usb} {A = A} fails
  unfolding fails
  Steady-fails = record { at = λ d. refl }

  Steady-call : (f : usb.World → Option A × usb.World) → Steady (call {usb = usb} f)
  unfolding call
  Steady-call f = record { at = λ d. refl }

  Steady-if : (b : Bool) (m n : Act usb A) → Steady m → Steady n → Steady (if b then m else n)
  Steady-if true m n km kn = km
  Steady-if false m n km kn = kn

  Steady-exclusively : (m : Act usb A) → Steady m → Steady (exclusively m)
  unfolding exclusively
  Steady-exclusively m km = record {
    at = λ d. elim (Bool-cases (usb.wait_sema d.world).0) [
      | inl free ↦ rw free (km.at (record d { world = (usb.wait_sema d.world).1 }))
      | inr taken ↦ rw taken refl
    ];
  }

module _ {usb : Usb} where
  Steady-check : (b : Bool) → Steady {usb = usb} (check b)
  unfolding check done fails
  Steady-check true = record { at = λ d. refl }
  Steady-check false = record { at = λ d. refl }

module _ {usb : Usb} {A B : Type 0} where
  Steady-bind :
      (m : Act usb A) (f : A → Act usb B) → Steady m → ((a : A) → Steady (f a)) → Steady (m >>= f)
  unfolding ◌>>=◌
  Steady-bind m f km kf = record { at = λ d. go (m d) d (km.at d) }
    where
      go :
          (r : Option A × Device usb) (d : Device usb)
          → r.1.connected ≡ d.connected
          → (after r f).1.connected ≡ d.connected
      go (none, d') d e = e
      go (some a, d') d e = (kf a).at d' ∙ e

ruleset steady_rules = (
  Steady-done, Steady-fails, Steady-call, Steady-if, Steady-check, Steady-bind, Steady-exclusively,
)

module _ {usb : Usb} where
  read_loop-Steady : (fuel left : ℕ) (got : Text) → Steady {usb = usb} (read_loop fuel left got)
  unfolding read_loop
  read_loop-Steady zero left got = search steady_rules
  read_loop-Steady (suc fuel) left got = search (steady_rules, read_loop-Steady fuel) depth 12

  write_loop-Steady :
      (fuel : ℕ) (left : Text) (written : ℕ) → Steady {usb = usb} (write_loop fuel left written)
  unfolding write_loop
  write_loop-Steady zero left written = search steady_rules
  write_loop-Steady (suc fuel) left written = search (steady_rules, write_loop-Steady fuel) depth 12

  greet-Steady : Steady {usb = usb} greet
  unfolding greet send_hello_cmd command_xchg exchange read_extra read_all write_all read_data
      write_data
  greet-Steady = search (steady_rules, read_loop-Steady, write_loop-Steady) depth 20

  -- The event is set exactly while there is a connection.
  abbrev pub InStep : Thread usb → Type 0
  InStep t = t.connect ≡ t.device.connected

  on_async-InStep : (e : Events) (t : Thread usb) → InStep t → InStep (on_async e t)
  unfolding on_async
  on_async-InStep e t h = elim (Bool-cases e.async) [
    | inr quiet ↦ rw (on_async, quiet) h
    | inl came ↦ elim (Option-cases e.async_req) [
      | inl nothing_came ↦ rw (on_async, came, nothing_came) h
      | inr (p, some_came) ↦ rw (on_async, came, some_came) h
    ]
  ]

  on_detach-InStep : (e : Events) (t : Thread usb) → InStep t → InStep (on_detach e t)
  unfolding on_detach
  on_detach-InStep e t h = elim (Bool-cases e.detach) [
    | inl gone ↦ rw gone refl
    | inr there ↦ rw there h
  ]

  on_attach-InStep : (e : Events) (t : Thread usb) → InStep t → InStep (on_attach e t)
  unfolding on_attach
  on_attach-InStep e t h = elim (Bool-cases e.attach) [
    | inr quiet ↦ rw (on_attach, quiet) h
    | inl came ↦
        let d : Device usb = record t.device { connected = false } in
        elim (Option-cases (greet d).0) [
          | inl refused ↦ rw (on_attach, came, refused) (sym (greet-Steady.at d))
          | inr (x, greeted) ↦ rw (on_attach, came, greeted) refl
        ]
  ]

  on_async-device : (e : Events) (t : Thread usb) → (on_async e t).device ≡ t.device
  unfolding on_async
  on_async-device e t = elim (Bool-cases e.async) [
    | inr quiet ↦ rw (on_async, quiet) refl
    | inl came ↦ elim (Option-cases e.async_req) [
      | inl nothing_came ↦ rw (on_async, came, nothing_came) refl
      | inr (p, some_came) ↦ rw (on_async, came, some_came) refl
    ]
  ]

  on_detach-device :
      (e : Events) (t : Thread usb)
      → (on_detach e t).device
        ≡ (if e.detach then record t.device { connected = false } else t.device)
  unfolding on_detach
  on_detach-device e t = elim (Bool-cases e.detach) [
    | inl gone ↦ rw (on_detach, gone) refl
    | inr there ↦ rw (on_detach, there) refl
  ]

  -- What came in is the four bytes of the magic of the host, and then HELLO is exchanged.
  abbrev pub SentMagic : Option Text × Device usb → Type 0
  SentMagic (none, d) = ⊥
  SentMagic (some bytes, d) =
      (length bytes ≡ 4) × (u32_at bytes 0 ≡ 0x782F0812) × (is_some (send_hello_cmd d).0 ≡ true)

  greet-SentMagic : (d : Device usb) → (is_some (greet d).0 ≡ true) ↔ SentMagic (read_data 4 d)
  unfolding greet ◌>>=◌ check done fails
  greet-SentMagic d = go (read_data 4 d)
    where
      go :
          (r : Option Text × Device usb)
          → (is_some
                (after r (λ magic. do
                  check (length magic == 4)
                  check (u32_at magic 0 == hostfs_magic)
                  send_hello_cmd)).0
              ≡ true)
            ↔ SentMagic r
      go (none, d') = (λ e. cc, λ b. absurd b)
      go (some bytes, d') = elim (Bool-cases (length bytes == 4)) [
        | inr n ↦ rw n (λ e. absurd (cc), λ g. absurd (ground arith))
        | inl y ↦ rw y (elim (Bool-cases (u32_at bytes 0 == hostfs_magic)) [
          | inr n ↦ rw n (λ e. absurd (cc), λ g. absurd (ground arith))
          | inl z ↦ rw z (λ e. (ground arith, ground arith, e), λ g. g.2)
        ])
      ]

  -- The connection after a round: behind an attach it is there exactly if the host sent its magic
  -- and HELLO was exchanged, on a device that counts as not connected; without one exactly if it
  -- was there before, and no detach came.
  abbrev pub Follows : Bool → Bool → Device usb → Bool → Type 0
  Follows true detach d connected =
      (connected ≡ true) ↔ SentMagic (read_data 4 (record d { connected = false }))
  Follows false detach d connected = connected ≡ (d.connected && not detach)

  on_attach-Follows :
      (e : Events) (t : Thread usb)
      → Follows e.attach false t.device (on_attach e t).device.connected
  unfolding on_attach
  on_attach-Follows e t = elim (Bool-cases e.attach) [
    | inr quiet ↦ rw (on_attach, quiet) (sym (and_true t.device.connected))
    | inl came ↦
        let d : Device usb = record t.device { connected = false } in
        let said = greet-SentMagic d in
        elim (Option-cases (greet d).0) [
          | inl refused ↦
              rw (on_attach, came, refused)
                (
                  λ h. absurd (differ (sym h ∙ greet-Steady.at d)),
                  λ g. absurd (differ (sym (said.1 g) ∙ ap is_some refused)),
                )
          | inr (x, met) ↦ rw (on_attach, came, met) (λ h. said.0 (ap is_some met), λ g. refl)
        ]
  ]

  Follows-detach :
      (attach detach : Bool) (d : Device usb) (connected : Bool)
      → Follows attach false (if detach then record d { connected = false } else d) connected
      → Follows attach detach d connected
  Follows-detach true true d c h = h
  Follows-detach true false d c h = h
  Follows-detach false true d c h = h ∙ sym (and_false d.connected)
  Follows-detach false false d c h = h

  -- Each round of `usb_thread` keeps the event USB_EVENT_CONNECT set exactly while `g_connected` is,
  -- whatever the bus and the host do. After an attach there is a connection exactly if the first
  -- bytes that the host sent are the four of its magic, 0x782F0812, and HELLO was then exchanged;
  -- without an attach exactly if there was one and no detach.
  pub usb_thread-InStep :
      (e : Events) (t : Thread usb)
      → InStep t
      → InStep (usb_thread e t)
        × Follows e.attach e.detach t.device (usb_thread e t).device.connected
  unfolding usb_thread
  usb_thread-InStep e t h = (
    on_attach-InStep e (on_detach e (on_async e t))
        (on_detach-InStep e (on_async e t) (on_async-InStep e t h)),
    Follows-detach e.attach e.detach t.device _ (
        subst (λ d. Follows e.attach false d (usb_thread e t).device.connected)
          (on_detach-device e (on_async e t)
            ∙ ap (λ (d : Device usb). if e.detach then record d { connected = false } else d)
                (on_async-device e t))
          (on_attach-Follows e (on_detach e (on_async e t)))),
  )
