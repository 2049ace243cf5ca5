-- ===== src/Device/Exchange.antt =====
-- An exchange with the server: what it answers comes to the device byte for byte.
use psplink.Base.{
  ℕ, zero, suc, ◌+◌, ◌-◌, ◌≡◌, ◌≤◌, ◌<◌, refl, ap, ap₂, ◌∙◌, false, [], ◌∷◌, ◌++◌, append-nil,
  append_assoc, some, ◌==◌, ==_iff, Text, length, take, drop, min, arith, lt→ltb,
}
use psplink.Base.Slices.{
  take-all, drop-length, take-append_le, drop-append_le, length-drop, length-take_le,
  take-drop_append,
}
use psplink.Device.Usb.{
  Usb, Device, done, ◌>>=◌, check, call, read_loop, write_loop, write_data, write_all, tx_size,
}
use psplink.Device.Link.{Far, served, deliver, receive_from, far_receive, far_transmit}
use psplink.HostFs.Host.{Os}

pub not_zero : (n : ℕ) → 0 < n → (n == 0) ≡ false
not_zero n h = ground arith

module _ {usb : Usb} where
  read_loop-suc :
      (fuel left : ℕ) (got part : Text) (d : Device usb) (w : usb.World)
      → 0 < left
      → usb.receive (min left tx_size) d.world ≡ (some part, w)
      → 0 < length part
      → read_loop (suc fuel) left got d
        ≡ read_loop fuel (left - length part) (got ++ part) (record d { world = w })
  unfolding read_loop call ◌>>=◌ check done
  read_loop-suc fuel left got part d w some_left e some_there =
      rw (read_loop, not_zero left some_left, e, lt→ltb 0 (length part) some_there) refl

  write_loop-suc :
      (fuel : ℕ) (left : Text) (written count : ℕ) (d : Device usb) (w : usb.World)
      → 0 < length left
      → usb.transmit (take tx_size left) d.world ≡ (some count, w)
      → 0 < count
      → write_loop (suc fuel) left written d
        ≡ write_loop fuel (drop count left) (written + count) (record d { world = w })
  unfolding write_loop call ◌>>=◌ check done
  write_loop-suc fuel left written count d w some_left e some_there =
      rw (write_loop, not_zero (length left) some_left, e, lt→ltb 0 count some_there) refl

  write_loop-nil :
      (fuel written : ℕ) (d : Device usb) → write_loop fuel [] written d ≡ (some written, d)
  unfolding write_loop done
  write_loop-nil zero written d = refl
  write_loop-nil (suc fuel) written d = refl

module _ {os : Os} where
  -- The device with this at the far end.
  abbrev pub at : Device (served os) → Far os → Device (served os)
  at d h = record d { world = h }

  far_receive-incoming :
      (n : ℕ) (h : Far os) (c : ℕ) (chars : Text)
      → h.incoming ≡ c ∷ chars
      → far_receive n h ≡ (some (take n (c ∷ chars)), record h { incoming = drop n (c ∷ chars) })
  unfolding far_receive receive_from deliver
  far_receive-incoming n h c chars e = ap (receive_from n h) e

  write_loop-sent :
      (block : Text) (d : Device (served os))
      → 0 < length block
      → length block ≤ tx_size
      → write_loop (length block) block 0 d
        ≡ (some (length block), at d (record d.world { pending = d.world.pending ++ block ∷ [] }))
  unfolding far_transmit done write_loop
  write_loop-sent [] d some_there fits = absurd (omega arith)
  write_loop-sent (c ∷ block) d some_there fits =
      write_loop-suc (length block) (c ∷ block) 0 (length (c ∷ block)) d
        (record d.world { pending = d.world.pending ++ (c ∷ block) ∷ [] }) some_there
        (ap (λ t. far_transmit t d.world) (take-all tx_size (c ∷ block) fits)) some_there
      ∙ finished
    where
      none_more : 0 + length (c ∷ block) ≡ length (c ∷ block)
      none_more = omega arith

      finished :
          write_loop
            (length block)
            (drop (length block) block)
            (0 + length (c ∷ block))
            (at d (record d.world { pending = d.world.pending ++ (c ∷ block) ∷ [] }))
          ≡ (
            some (length (c ∷ block)),
            at d (record d.world { pending = d.world.pending ++ (c ∷ block) ∷ [] }),
          )
      finished =
          rw (drop-length block) rw none_more (write_loop-nil (length block) (length (c ∷ block)) _)

  -- One transfer brings a whole block to the far end.
  pub write_all-sent :
      (block : Text) (d : Device (served os))
      → 0 < length block
      → length block ≤ tx_size
      → write_all block d
        ≡ (some tt, at d (record d.world { pending = d.world.pending ++ block ∷ [] }))
  unfolding write_all write_data ◌>>=◌ check done
  write_all-sent block d some_there fits =
      rw
        (
          write_all,
          not_zero (length block) some_there,
          write_loop-sent block d some_there fits,
          (==_iff (length block) (length block)).1 refl,
        )
        refl

  -- What has come is read, in as many transfers as it takes.
  pub read_loop-incoming :
      (fuel : ℕ) (want rest got : Text) (d : Device (served os))
      → d.world.incoming ≡ want ++ rest
      → length want ≤ fuel
      → read_loop fuel (length want) got d
        ≡ (some (got ++ want), at d (record d.world { incoming = rest }))
  unfolding read_loop done
  read_loop-incoming zero [] rest got d e h = rw append-nil rw (← e) refl
  read_loop-incoming zero (c ∷ want) rest got d e h = absurd (omega arith)
  read_loop-incoming (suc fuel) [] rest got d e h = rw append-nil rw (← e) refl
  read_loop-incoming (suc fuel) (c ∷ want) rest got d e h =
      let all : Text = c ∷ want in
      let n : ℕ = min (length all) tx_size in
      let part_len : length (take n all) ≡ n = length-take_le n all (omega arith) in
      let left_len : length (drop n all) ≡ length all - n = length-drop n all in
      let d' : Device (served os) = at d (record d.world { incoming = drop n all ++ rest }) in
      let got_it : far_receive n d.world ≡ (some (take n all), d'.world) =
        far_receive-incoming n d.world c (want ++ rest) e
        ∙ ap₂ (λ t t'. (some t, record d.world { incoming = t' }))
            (take-append_le n all rest (omega arith)) (drop-append_le n all rest (omega arith)) in
      read_loop-suc fuel (length all) got (take n all) d d'.world (omega arith) got_it
        (omega (arith, part_len))
      ∙ ap (λ k. read_loop fuel k (got ++ take n all) d') (omega (arith, part_len, left_len))
      ∙ read_loop-incoming fuel (drop n all) rest (got ++ take n all) d' refl
          (omega (arith, left_len))
      ∙ ap (λ t. (some t, at d (record d.world { incoming = rest })))
          (append_assoc got (take n all) (drop n all) ∙ ap (λ t. got ++ t) (take-drop_append n all))
