-- ===== src/Device/Async/Providers.antt =====
-- Channels taken and given up: the providers come and go.
use psplink.Base.{
  ℕ, zero, suc, ◌+◌, ◌≡◌, ◌≢◌, ◌<◌, ◌⊎◌, inl, inr, refl, sym, ap, ◌∙◌, false, List, [], ◌∷◌, Option,
  none, some, ltb, ltb→lt, lt→ltb, ◌==◌, ==_iff, length, get_or, set, drop, arith, Bool-cases,
  Option-cases, get_or-set_default, get_or-set_here, get_or-set_elsewhere, length-set,
}
use psplink.Device.Async.{
  max_async_channels, Channels, update, endpoint_of, flushed, flush_channel, usb_async_flush,
  chosen, first_free, behind, async_user, async_alloc_chan, enter, usb_async_register,
  usb_async_unregister,
}
use psplink.Device.Async.Queue.{flushed-IsRing}
use psplink.Device.Async.Sound.{
  Session, Announced, IsSound, update-same, update-rings, set-elsewhere,
}

-- A free place of the table, if any.
abbrev pub Free : List (Option ℕ) → Option ℕ → Type 0
Free chans none = Unit
Free chans (some c) = (c < length chans) × (get_or chans c none ≡ none)

behind-Free :
    (o p : Option ℕ) (chans : List (Option ℕ)) → Free chans p → Free (o ∷ chans) (behind 1 p)
behind-Free o none chans h = tt
behind-Free o (some c) chans (h, e) =
    let one : 1 + c ≡ suc c = omega arith in rw one (omega (arith, h), e)

first_free-Free : (chans : List (Option ℕ)) → Free chans (first_free chans)
first_free-Free [] = tt
first_free-Free (none ∷ chans) = (omega arith, refl)
first_free-Free (some p ∷ chans) =
    behind-Free (some p) (first_free chans) chans (first_free-Free chans)

drop-Free :
    (n : ℕ) (chans : List (Option ℕ)) (o : Option ℕ)
    → Free (drop n chans) o
    → Free chans (behind n o)
drop-Free n chans none h = tt
drop-Free zero chans (some c) h = let none_more : 0 + c ≡ c = omega arith in rw none_more h
drop-Free (suc n) [] (some c) (h, e) = absurd (omega arith)
drop-Free (suc n) (o ∷ chans) (some c) h =
    let more : suc n + c ≡ suc (n + c) = omega arith in
    let (k, e) = drop-Free n chans (some c) h in rw more (omega (arith, k), e)

chosen-Free :
    (chan : ℕ) (chans : List (Option ℕ))
    → length chans ≡ max_async_channels
    → Free chans (chosen chan chans)
unfolding chosen
chosen-Free chan chans len = elim (Bool-cases (chan == async_alloc_chan)) [
  | inl any ↦
      rw (chosen, any)
        (drop-Free async_user chans (first_free (drop async_user chans))
          (first_free-Free (drop async_user chans)))
  | inr one ↦ elim (Bool-cases (ltb chan max_async_channels)) [
    | inr wrong ↦ rw (chosen, one, wrong) tt
    | inl right ↦ elim (Option-cases (get_or chans chan none)) [
      | inl e ↦ rw (chosen, one, right, e) (omega (arith, ltb→lt chan max_async_channels right), e)
      | inr (p, e) ↦ rw (chosen, one, right, e) tt
    ]
  ]
]

module _ {t : Session} (sound : IsSound t) where
  pub usb_async_unregister-IsSound :
      (chan : ℕ) → IsSound (record t { channels = (usb_async_unregister chan t.channels).1 })
  unfolding usb_async_unregister
  usb_async_unregister-IsSound chan = elim (Bool-cases (ltb chan max_async_channels)) [
    | inr wrong ↦ rw (usb_async_unregister, wrong) sound
    | inl right ↦ elim (Option-cases (endpoint_of chan t.channels)) [
      | inl e ↦ rw (usb_async_unregister, right, e) sound
      | inr (p, e) ↦ rw (usb_async_unregister, right, e) without
    ]
  ]
    where
      kept :
          (c q : ℕ)
          → get_or (set t.channels.async_chan chan none) c none ≡ some q
          → endpoint_of c t.channels ≡ some q
      kept c q r = elim (Bool-cases (chan == c)) [
        | inl same ↦
            let e : chan ≡ c = (==_iff chan c).0 same in
            cc (get_or-set_default t.channels.async_chan chan none)
        | inr other ↦
            sym (get_or-set_elsewhere t.channels.async_chan chan c none none (ground arith)) ∙ r
      ]

      without : IsSound (record t {
        channels = record t.channels { async_chan = set t.channels.async_chan chan none };
      })
      without = record {
        rings = sound.rings;
        places = length-set t.channels.async_chan chan none ∙ sound.places;
        flags = sound.flags;
        apart = λ c c' q r r'. sound.apart c c' q (kept c q r) (kept c' q r');
        announced = λ c q r. sound.announced c q (kept c q r);
      }

  module _ (chan p : ℕ) (h : chan < max_async_channels)
      (fresh : (c : ℕ) → endpoint_of c t.channels ≢ some p) where
    entered : Channels
    entered = record t.channels {
      async_chan = set t.channels.async_chan chan (some p);
      endpoints = update t.channels.endpoints p (flushed (t.channels.endpoints p));
      asyncevent = set t.channels.asyncevent chan false;
    }

    entered_at : get_or (set t.channels.async_chan chan (some p)) chan none ≡ some p
    entered_at =
        get_or-set_here t.channels.async_chan chan (some p) none (omega (arith, sound.places))

    entered-cases :
        (c q : ℕ)
        → get_or (set t.channels.async_chan chan (some p)) c none ≡ some q
        → ((chan ≡ c) × (p ≡ q)) ⊎ ((chan ≢ c) × (p ≢ q) × (endpoint_of c t.channels ≡ some q))
    entered-cases c q r = elim (Bool-cases (chan == c)) [
      | inl same ↦ let e : chan ≡ c = (==_iff chan c).0 same in inl (e, cc (entered_at))
      | inr other ↦
          let ne : chan ≢ c = ground arith in
          let old : endpoint_of c t.channels ≡ some q =
            sym (get_or-set_elsewhere t.channels.async_chan chan c (some p) none ne) ∙ r in
          inr (ne, λ (e : p ≡ q). fresh c (cc), old)
    ]

    entered-apart :
        (c c' q : ℕ)
        → ((chan ≡ c) × (p ≡ q)) ⊎ ((chan ≢ c) × (p ≢ q) × (endpoint_of c t.channels ≡ some q))
        → ((chan ≡ c') × (p ≡ q)) ⊎ ((chan ≢ c') × (p ≢ q) × (endpoint_of c' t.channels ≡ some q))
        → c ≡ c'
    entered-apart c c' q (inl (e, f)) (inl (e', f')) = sym e ∙ e'
    entered-apart c c' q (inl (e, f)) (inr (ne, nf, old)) = absurd (nf f)
    entered-apart c c' q (inr (ne, nf, old)) (inl (e, f)) = absurd (nf f)
    entered-apart c c' q (inr (ne, nf, old)) (inr (ne', nf', old')) = sound.apart c c' q old old'

    entered-Announced :
        (c q : ℕ)
        → ((chan ≡ c) × (p ≡ q)) ⊎ ((chan ≢ c) × (p ≢ q) × (endpoint_of c t.channels ≡ some q))
        → Announced (record t { channels = entered }) c q
    unfolding entered
    entered-Announced c q (inl (e, f)) = inl (
        rw (← f) (
          ap (λ e. e.size) (update-same t.channels.endpoints p (flushed (t.channels.endpoints p)))))
    entered-Announced c q (inr (ne, nf, old)) =
        let a = sound.announced c q old in
        ground (arith, a, set-elsewhere t.channels.asyncevent chan false false c ne)

    entered-IsSound : IsSound (record t { channels = entered })
    unfolding entered
    entered-IsSound = record {
      rings =
          update-rings t.channels.endpoints p (flushed (t.channels.endpoints p)) sound.rings
            (flushed-IsRing (sound.rings p));
      places = length-set t.channels.async_chan chan (some p) ∙ sound.places;
      flags = length-set t.channels.asyncevent chan false ∙ sound.flags;
      apart = λ c c' q r r'. entered-apart c c' q (entered-cases c q r) (entered-cases c' q r');
      announced = λ c q r. entered-Announced c q (entered-cases c q r);
    }

  enter-IsSound :
      (p : ℕ) (o : Option ℕ)
      → Free t.channels.async_chan o
      → ((c : ℕ) → endpoint_of c t.channels ≢ some p)
      → IsSound (record t { channels = enter p o t.channels })
  unfolding enter usb_async_flush flush_channel entered
  enter-IsSound p none h fresh = sound
  enter-IsSound p (some chan) h fresh =
      let small : chan < max_async_channels = omega (arith, h.0, sound.places) in
      rw (enter, lt→ltb chan max_async_channels small, entered_at chan p small fresh)
        (entered-IsSound chan p small fresh)

  -- For an endpoint that has no channel.
  pub usb_async_register-IsSound :
      (chan p : ℕ)
      → ((c : ℕ) → endpoint_of c t.channels ≢ some p)
      → IsSound (record t { channels = (usb_async_register chan (some p) t.channels).1 })
  unfolding usb_async_register
  usb_async_register-IsSound chan p fresh =
      enter-IsSound p (chosen chan t.channels.async_chan)
        (chosen-Free chan t.channels.async_chan sound.places) fresh
