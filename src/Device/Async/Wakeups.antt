-- ===== src/Device/Async/Wakeups.antt =====
-- Readers, providers and packets in any order: no reader sleeps while bytes wait for it.
use psplink.Base.{
  ℕ, ◌+◌, ◌-◌, ◌≡◌, ◌≢◌, ◌<◌, inl, inr, refl, subst, ◌∙◌, true, false, Option, none, some, ltb,
  lt→ltb, ◌==◌, ==_iff, if◌then◌else◌, Text, get_or, set, min, arith, Bool-cases, Option-cases,
  length-set,
}
use psplink.Device.Async.{
  max_async_channels, AsyncEndpoint, Channels, update, endpoint_of, fill_async, usb_async_flush,
  usb_async_register, usb_async_unregister, Wait, refused, waiting, woken, wait_async, take_loop,
  take_async,
}
use psplink.Device.Async.Queue.{IsRing, take_loop-held}
use psplink.Device.Async.Sound.{
  Session, IsSound, change_IsSound, set-elsewhere, set_flag-true, fill_async-IsSound,
  usb_async_flush-IsSound,
}
use psplink.Device.Async.Providers.{usb_async_unregister-IsSound, usb_async_register-IsSound}

-- The steps of all threads. An endpoint is registered on one channel at a time.
pub data Step : Session → Session → Type 0 where
  fills : (t : Session) (p : Text) → Step t (record t { channels = fill_async p t.channels })
  flushes :
      (t : Session) (chan : ℕ) → Step t (record t { channels = usb_async_flush chan t.channels })
  registers :
      (t : Session) (chan p : ℕ)
      → ((c : ℕ) → endpoint_of c t.channels ≢ some p)
      → Step t (record t { channels = (usb_async_register chan (some p) t.channels).1 })
  unregisters :
      (t : Session) (chan : ℕ)
      → Step t (record t { channels = (usb_async_unregister chan t.channels).1 })
  wakes :
      (t : Session) (chan : ℕ) {s : Channels}
      → wait_async chan t.channels ≡ woken s
      → Step t (record { channels = s; awake = update t.awake chan (t.awake chan + 1) })
  takes :
      (t : Session) (chan len : ℕ) {chars : Text} {s : Channels}
      → chan < max_async_channels
      → 0 < t.awake chan
      → take_async chan len t.channels ≡ some (chars, s)
      → Step t (record { channels = s; awake = update t.awake chan (t.awake chan - 1) })

pub data Reach (t : Session) : Session → Type 0 where
  here : Reach t t
  next : {u v : Session} → Reach t u → Step u v → Reach t v

-- Every state that a wait or a read leads to.
abbrev AfterWait : (Channels → Type 0) → Wait → Type 0
AfterWait P refused = Unit
AfterWait P waiting = Unit
AfterWait P (woken s) = P s

abbrev AfterTake : (Channels → Type 0) → Option (Text × Channels) → Type 0
AfterTake P none = Unit
AfterTake P (some (chars, s)) = P s

module _ {t : Session} (sound : IsSound t) where
  -- A reader takes the bit, and is on its way to the bytes.
  on_the_way :
      (chan : ℕ)
      → IsSound (record {
        channels = record t.channels { asyncevent = set t.channels.asyncevent chan false };
        awake = update t.awake chan (t.awake chan + 1);
      })
  on_the_way chan = record {
    rings = sound.rings;
    places = sound.places;
    flags = length-set t.channels.asyncevent chan false ∙ sound.flags;
    apart = sound.apart;
    announced = λ c p r. elim (Bool-cases (chan == c)) [
      | inl same ↦ inr (inr (ground arith))
      | inr other ↦
          let ne : chan ≢ c = ground arith in
          ground (
            arith,
            sound.announced c p r,
            set-elsewhere t.channels.asyncevent chan false false c ne,
          )
    ];
  }

  wait_async-IsSound :
      (chan : ℕ)
      → AfterWait
          (λ s. IsSound (record { channels = s; awake = update t.awake chan (t.awake chan + 1) }))
          (wait_async chan t.channels)
  unfolding wait_async
  wait_async-IsSound chan = elim (Bool-cases (ltb chan max_async_channels)) [
    | inr wrong ↦ rw (wait_async, wrong) tt
    | inl right ↦ elim (Option-cases (endpoint_of chan t.channels)) [
      | inl e ↦ rw (wait_async, right, e) tt
      | inr (p, e) ↦ elim (Bool-cases (get_or t.channels.asyncevent chan false)) [
        | inr clear ↦ rw (wait_async, right, e, clear) tt
        | inl bit ↦ rw (wait_async, right, e, bit) (on_the_way chan)
      ]
    ]
  ]

  -- What is left is announced again.
  taken_IsSound :
      (chan len p : ℕ)
      → chan < max_async_channels
      → endpoint_of chan t.channels ≡ some p
      → let e = (take_loop (min len (t.channels.endpoints p).size) (t.channels.endpoints p)).1 in
        let bits =
          if e.size == 0 then t.channels.asyncevent else set t.channels.asyncevent chan true in
        IsSound (record {
          channels = record t.channels {
            endpoints = update t.channels.endpoints p e;
            asyncevent = bits;
          };
          awake = update t.awake chan (t.awake chan - 1);
        })
  taken_IsSound chan len p h mine =
      let e : AsyncEndpoint =
        (take_loop (min len (t.channels.endpoints p).size) (t.channels.endpoints p)).1 in
      let ring : IsRing e =
        (take_loop-held (min len (t.channels.endpoints p).size) (sound.rings p) (omega arith)).2 in
      elim (Bool-cases (e.size == 0)) [
        | inl empty ↦ rw empty (
            change_IsSound sound chan p mine e t.channels.asyncevent
              (update t.awake chan (t.awake chan - 1)) ring sound.flags (λ c ne. refl)
              (λ c ne. ground arith) (inl ((==_iff e.size 0).0 empty)))
        | inr more ↦ rw more (
            change_IsSound sound chan p mine e (set t.channels.asyncevent chan true)
              (update t.awake chan (t.awake chan - 1)) ring
              (length-set t.channels.asyncevent chan true ∙ sound.flags)
              (set-elsewhere t.channels.asyncevent chan true false) (λ c ne. ground arith)
              (inr (inl (set_flag-true t.channels.asyncevent chan sound.flags h))))
      ]

  take_async-IsSound :
      (chan len : ℕ)
      → chan < max_async_channels
      → AfterTake
          (λ s. IsSound (record { channels = s; awake = update t.awake chan (t.awake chan - 1) }))
          (take_async chan len t.channels)
  unfolding take_async
  take_async-IsSound chan len h = elim (Option-cases (endpoint_of chan t.channels)) [
    | inl e ↦ rw (take_async, e) tt
    | inr (p, e) ↦ rw (take_async, e) (taken_IsSound chan len p h e)
  ]

Step-IsSound : {t u : Session} → Step t u → IsSound t → IsSound u
Step-IsSound (fills t p) sound = fill_async-IsSound sound p
Step-IsSound (flushes t chan) sound = usb_async_flush-IsSound sound chan
Step-IsSound (registers t chan p fresh) sound = usb_async_register-IsSound sound chan p fresh
Step-IsSound (unregisters t chan) sound = usb_async_unregister-IsSound sound chan
Step-IsSound (wakes t chan e) sound =
    subst
      (AfterWait
        (λ s. IsSound (record { channels = s; awake = update t.awake chan (t.awake chan + 1) })))
      e (wait_async-IsSound sound chan)
Step-IsSound (takes t chan len small ready e) sound =
    subst
      (AfterTake
        (λ s. IsSound (record { channels = s; awake = update t.awake chan (t.awake chan - 1) })))
      e (take_async-IsSound sound chan len small)

pub Reach-IsSound : {t u : Session} → IsSound t → Reach t u → IsSound u
Reach-IsSound sound here = sound
Reach-IsSound sound (next r st) = Step-IsSound st (Reach-IsSound sound r)

-- What a reader that comes to a channel with bytes finds: it does not sleep.
abbrev pub GoesOn : Wait → Type 0
GoesOn refused = ⊥
GoesOn waiting = ⊥
GoesOn (woken s) = Unit

-- From sound channels on, in every order of packets, flushes, readers and providers: where bytes wait in the endpoint of a
-- channel and no reader is behind its wait, the next reader is not kept waiting.
pub Reach-GoesOn :
    {t u : Session} (chan p : ℕ)
    → IsSound t
    → Reach t u
    → endpoint_of chan u.channels ≡ some p
    → chan < max_async_channels
    → 0 < (u.channels.endpoints p).size
    → u.awake chan ≡ 0
    → GoesOn (wait_async chan u.channels)
unfolding wait_async
Reach-GoesOn {u} chan p sound r e small some_bytes none_awake =
    let a = (Reach-IsSound sound r).announced chan p e in
    let bit : get_or u.channels.asyncevent chan false ≡ true = ground (arith, a) in
    rw (wait_async, lt→ltb chan max_async_channels small, e, bit) tt
