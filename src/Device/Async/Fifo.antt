-- ===== src/Device/Async/Fifo.antt =====
-- Packets and readers of one channel.
use psplink.Base.{
  ℕ, ◌-◌, ◌≡◌, ◌<◌, refl, sym, ap, subst, set, ◌∙◌, true, [], ◌∷◌, ◌++◌, some, ltb, lt→ltb, ◌==◌,
  if◌then◌else◌, Text, length, take, drop, min, arith,
}
use psplink.HostFs.Wire.{u32_at}
use psplink.HostFs.Session.{async_magic}
use psplink.Device.Commands.{words}
use psplink.Device.Async.{
  AsyncEndpoint, Channels, max_async_buffer, max_async_channels, update, endpoint_of, fill_endpoint,
  fill_channel, fill_async, take_loop, take_async,
}
use psplink.Device.Async.Queue.{held, IsRing, fill_endpoint-held, take_loop-held}

update-here : {A : Type 0} (f : ℕ → A) (p : ℕ) (a : A) → update f p a p ≡ a
update-here f p a = ground arith

module _ (chan p : ℕ) (s : Channels) (mine : endpoint_of chan s ≡ some p)
    (small : chan < max_async_channels) where
  fill_async_lem :
      (chars : Text)
      → 0 < length chars
      → fill_async (words (async_magic ∷ chan ∷ []) ++ chars) s ≡ fill_channel chan chars (some p) s
  unfolding fill_async
  fill_async_lem chars some_chars =
      rw
        (
          fill_async,
          lt→ltb 8 (length (words (async_magic ∷ chan ∷ []) ++ chars)) (omega (arith, some_chars)),
        )
        (ap (λ c. if ltb c max_async_channels then fill_channel c chars (endpoint_of c s) s else s)
            channel
          ∙ rw (lt→ltb chan max_async_channels small, mine) refl)
    where
      channel : u32_at (words (async_magic ∷ chan ∷ []) ++ chars) 4 ≡ chan
      channel = omega (arith, small)

  take_async-held :
      (len : ℕ)
      → IsRing (s.endpoints p)
      → let n = min len (s.endpoints p).size in
        (s' : Channels) × (take_async chan len s ≡ some (take n (held (s.endpoints p)), s'))
        × (held (s'.endpoints p) ≡ drop n (held (s.endpoints p)))
  unfolding take_async
  take_async-held len ring =
      let (taken, rest, _) = take_loop-held (min len (s.endpoints p).size) ring (omega arith) in
      let e : AsyncEndpoint = (take_loop (min len (s.endpoints p).size) (s.endpoints p)).1 in
      (
        record s {
          endpoints = update s.endpoints p e;
          asyncevent = if e.size == 0 then s.asyncevent else set s.asyncevent chan true;
        },
        rw (take_async, mine)
            (ap
              (λ t. some (
                t,
                record s {
                  endpoints = update s.endpoints p e;
                  asyncevent = if e.size == 0 then s.asyncevent else set s.asyncevent chan true;
                },
              ))
              taken),
        ap held (update-here s.endpoints p e) ∙ rest,
      )

-- A packet for a channel with an endpoint joins what waits there, as far as it fits. A reader that
-- comes behind it gets the first of it all in order, as much as it wants or there is, and the rest
-- waits on.
pub fill_async-held :
    (chan p len : ℕ) (s : Channels) (chars : Text)
    → endpoint_of chan s ≡ some p
    → chan < max_async_channels
    → IsRing (s.endpoints p)
    → 0 < length chars
    → let s' = fill_async (words (async_magic ∷ chan ∷ []) ++ chars) s in
      let waits = held (s'.endpoints p) in
      let n = min len (s'.endpoints p).size in
      (waits ≡ held (s.endpoints p) ++ take (max_async_buffer - (s.endpoints p).size) chars)
      × ((s'' : Channels) × (take_async chan len s' ≡ some (take n waits, s''))
          × (held (s''.endpoints p) ≡ drop n waits))
unfolding fill_channel
fill_async-held chan p len s chars mine small ring some_chars =
    let (joined, ring') = fill_endpoint-held chars ring in
    let e : AsyncEndpoint = fill_endpoint chars (s.endpoints p) in
    let same : (fill_async (words (async_magic ∷ chan ∷ []) ++ chars) s).endpoints p ≡ e =
      ap (λ (u : Channels). u.endpoints p) (fill_async_lem chan p s mine small chars some_chars)
      ∙ update-here s.endpoints p e in
    let still : endpoint_of chan (fill_async (words (async_magic ∷ chan ∷ []) ++ chars) s)
        ≡ some p =
      ap (endpoint_of chan) (fill_async_lem chan p s mine small chars some_chars) ∙ mine in
    (
      ap held same ∙ joined,
      take_async-held chan p (fill_async (words (async_magic ∷ chan ∷ []) ++ chars) s) still small
          len (subst IsRing (sym same) ring'),
    )
