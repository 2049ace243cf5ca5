-- ===== src/Device/Async/Sound.antt =====
-- What holds of the channels: rings in order, no endpoint on two channels, and every byte announced.
use psplink.Base.{
  ℕ, ◌≡◌, ◌≢◌, ◌<◌, ◌⊎◌, inl, inr, refl, subst, ◌∙◌, Bool, true, false, List, Option, none, some,
  ltb, ◌==◌, ==_iff, ◌&&◌, Text, length, get_or, set, drop, arith, Bool-cases, get_or-set_here,
  get_or-set_elsewhere, length-set,
}
use psplink.HostFs.Wire.{u32_at}
use psplink.HostFs.Session.{async_magic}
use psplink.Device.Async.{
  max_async_channels, AsyncEndpoint, Channels, update, endpoint_of, fill_endpoint, fill_channel,
  fill_async, flushed, flush_channel, usb_async_flush,
}
use psplink.Device.Async.Queue.{IsRing, fill_endpoint-held, flushed-IsRing}

-- The channels, and how many readers of each one are behind their wait.
pub record Session : Type 0 where
  pub channels : Channels
  pub awake : ℕ → ℕ

-- The bytes of an endpoint are announced: its flag is set, or a reader is on its way to them.
abbrev pub Announced : Session → ℕ → ℕ → Type 0
Announced t c p =
    ((t.channels.endpoints p).size ≡ 0)
    ⊎ (get_or t.channels.asyncevent c false ≡ true)
    ⊎ (0 < t.awake c)

pub record IsSound (t : Session) : Type 0 where
  pub rings : (p : ℕ) → IsRing (t.channels.endpoints p)
  pub places : length t.channels.async_chan ≡ max_async_channels
  pub flags : length t.channels.asyncevent ≡ max_async_channels
  pub apart :
      (c c' p : ℕ) → endpoint_of c t.channels ≡ some p → endpoint_of c' t.channels ≡ some p → c ≡ c'
  pub announced : (c p : ℕ) → endpoint_of c t.channels ≡ some p → Announced t c p

update-other : {A : Type 0} (f : ℕ → A) (p q : ℕ) (a : A) → p ≢ q → update f p a q ≡ f q
update-other f p q a h = ground arith

pub update-same : {A : Type 0} (f : ℕ → A) (p : ℕ) (a : A) → update f p a p ≡ a
update-same f p a = ground arith

pub update-rings :
    (f : ℕ → AsyncEndpoint) (p : ℕ) (e : AsyncEndpoint)
    → ((q : ℕ) → IsRing (f q))
    → IsRing e
    → (q : ℕ) → IsRing (update f p e q)
update-rings f p e h k q = elim (Bool-cases (p == q)) [
  | inl same ↦ rw same k
  | inr other ↦ rw other (h q)
]

-- A change of one endpoint and the flag of its channel, where the channel's bytes are announced
-- afterwards.
module _ {t : Session} (sound : IsSound t) (chan p : ℕ)
    (mine : endpoint_of chan t.channels ≡ some p) where
  pub change_IsSound :
      (e : AsyncEndpoint) (bits : List Bool) (awake : ℕ → ℕ)
      → IsRing e
      → length bits ≡ max_async_channels
      → ((c : ℕ) → chan ≢ c → get_or bits c false ≡ get_or t.channels.asyncevent c false)
      → ((c : ℕ) → chan ≢ c → awake c ≡ t.awake c)
      → (e.size ≡ 0) ⊎ (get_or bits chan false ≡ true) ⊎ (0 < awake chan)
      → IsSound (record {
        channels = record t.channels {
          endpoints = update t.channels.endpoints p e;
          asyncevent = bits;
        };
        awake = awake;
      })
  change_IsSound e bits awake ring len others readers now = record {
    rings = update-rings t.channels.endpoints p e sound.rings ring;
    places = sound.places;
    flags = len;
    apart = sound.apart;
    announced = λ c q r. elim (Bool-cases (chan == c)) [
      | inl same ↦ here c q ((==_iff chan c).0 same) r
      | inr other ↦ let ne : chan ≢ c = ground arith in elsewhere c q ne r (sound.announced c q r)
    ];
  }
    where
      here :
          (c q : ℕ)
          → chan ≡ c
          → endpoint_of c t.channels ≡ some q
          → ((update t.channels.endpoints p e q).size ≡ 0)
            ⊎ (get_or bits c false ≡ true)
            ⊎ (0 < awake c)
      here c q same r =
          let one : p ≡ q = cc in
          subst
            (λ k.
              ((update t.channels.endpoints p e q).size ≡ 0)
              ⊎ (get_or bits k false ≡ true)
              ⊎ (0 < awake k))
            same (ground (arith, now))

      elsewhere :
          (c q : ℕ)
          → chan ≢ c
          → endpoint_of c t.channels ≡ some q
          → Announced t c q
          → ((update t.channels.endpoints p e q).size ≡ 0)
            ⊎ (get_or bits c false ≡ true)
            ⊎ (0 < awake c)
      elsewhere c q ne r a = ground (arith, a, others c ne, readers c ne, sound.apart chan c p mine)

pub set-elsewhere :
    {A : Type 0} (xs : List A) (chan : ℕ) (v d : A) (c : ℕ)
    → chan ≢ c
    → get_or (set xs chan v) c d ≡ get_or xs c d
set-elsewhere xs chan v d c ne = get_or-set_elsewhere xs chan c v d ne

pub set_flag-true :
    (bits : List Bool) (chan : ℕ)
    → length bits ≡ max_async_channels
    → chan < max_async_channels
    → get_or (set bits chan true) chan false ≡ true
set_flag-true bits chan len h = get_or-set_here bits chan true false (omega arith)

module _ {t : Session} (sound : IsSound t) where
  fill_channel-IsSound :
      (chan : ℕ) (chars : Text) (o : Option ℕ)
      → endpoint_of chan t.channels ≡ o
      → chan < max_async_channels
      → IsSound (record t { channels = fill_channel chan chars o t.channels })
  unfolding fill_channel
  fill_channel-IsSound chan chars none e h = sound
  fill_channel-IsSound chan chars (some p) e h =
      change_IsSound sound chan p e (fill_endpoint chars (t.channels.endpoints p))
        (set t.channels.asyncevent chan true) t.awake (fill_endpoint-held chars (sound.rings p)).1
        (length-set t.channels.asyncevent chan true ∙ sound.flags)
        (set-elsewhere t.channels.asyncevent chan true false) (λ c ne. refl)
        (inr (inl (set_flag-true t.channels.asyncevent chan sound.flags h)))

  pub fill_async-IsSound : (p : Text) → IsSound (record t { channels = fill_async p t.channels })
  unfolding fill_async
  fill_async-IsSound p = elim (Bool-cases (ltb 8 (length p))) [
    | inr short ↦ rw short sound
    | inl long ↦
        elim (Bool-cases (u32_at p 0 == async_magic && ltb (u32_at p 4) max_async_channels)) [
          | inr wrong ↦ rw (long, wrong) sound
          | inl right ↦
              rw (long, right)
                (fill_channel-IsSound (u32_at p 4) (drop 8 p) (endpoint_of (u32_at p 4) t.channels)
                  refl (ground arith))
        ]
  ]

  flush_channel-IsSound :
      (chan : ℕ) (o : Option ℕ)
      → endpoint_of chan t.channels ≡ o
      → IsSound (record t { channels = flush_channel chan o t.channels })
  unfolding flush_channel
  flush_channel-IsSound chan none e = sound
  flush_channel-IsSound chan (some p) e =
      change_IsSound sound chan p e (flushed (t.channels.endpoints p))
        (set t.channels.asyncevent chan false) t.awake (flushed-IsRing (sound.rings p))
        (length-set t.channels.asyncevent chan false ∙ sound.flags)
        (set-elsewhere t.channels.asyncevent chan false false) (λ c ne. refl) (inl refl)

  pub usb_async_flush-IsSound :
      (chan : ℕ) → IsSound (record t { channels = usb_async_flush chan t.channels })
  unfolding usb_async_flush
  usb_async_flush-IsSound chan = elim (Bool-cases (ltb chan max_async_channels)) [
    | inr wrong ↦ rw wrong sound
    | inl right ↦ rw right (flush_channel-IsSound chan (endpoint_of chan t.channels) refl)
  ]
