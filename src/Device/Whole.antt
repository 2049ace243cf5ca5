-- ===== src/Device/Whole.antt =====
-- `usb_read_data` over all its blocks: the next bytes of a file of the host, on the device.
use psplink.Base.{
  ℕ, zero, suc, ◌+◌, ◌*◌, ◌/◌, ◌%◌, ◌≡◌, ◌<◌, ◌^◌, refl, sym, ap, subst, ◌∙◌, Bool, true, false, [],
  some, ltb, ◌&&◌, if◌then◌else◌, Text, length, take, drop, ◌⊎◌, arith, lt→ltb, ltb→lt, inl, inr,
}
use psplink.HostFs.Host.{Os}
use psplink.HostFs.Server.{Server, max_files}
use psplink.HostFs.Files.{is_open}
use psplink.HostFs.Dispatch.{hostfs_max_block}
use psplink.HostFs.Safety.Contents.{Reads}
use psplink.Base.Slices.{length-take_bound}
use psplink.Device.Usb.{Device}
use psplink.Device.Exchange.{not_zero}
use psplink.Device.Link.{wired, served}
use psplink.Device.Served.{link}
use psplink.Device.Driver.{Progress, read_block, blocks_loop, blockwise, bounded, usb_read_data}
use psplink.Device.Spread.{spread, so_far}
use psplink.Device.Blocks.{Led, one_block, Led-over, Led-trans, blocks_loop-Led}

module _ (os : Os) (fd : ℕ) (in_range : fd < max_files) {left : os.World → Text}
    (file : Reads os fd left) (buf : Text) where
  -- The last block, which is not a full one.
  abbrev last_block : ℕ → Bool → Progress → Device (served os) → Progress × Device (served os)
  last_block residual goes_on p d =
      if goes_on && ltb 0 residual
      then (let ((_, q), d') = read_block fd residual p d in (q, d'))
      else (p, d)

  -- All the blocks of a read of this length.
  abbrev Read : ℕ → Server (wired os) → Progress × Device (served os) → Type 0
  Read len s r =
      (s' : Server (wired os)) × (r
        ≡ (so_far (take len (left s.world.0)) buf, link {os = os} true s'))
      × (left s'.world.0 ≡ drop len (left s.world.0))

  Led-Read :
      (size len : ℕ) (s : Server (wired os)) (r : (Bool × Progress) × Device (served os))
      → size ≡ len
      → Led os fd in_range file buf size [] s r
      → Read len s (r.0.1, r.1)
  Led-Read size len s r e led =
      subst (λ k. Read k s (r.0.1, r.1)) e
        (
          led.server,
          ap (λ (q : (Bool × Progress) × Device (served os)). (q.0.1, q.1)) led.result,
          led.moved,
        )

  last_block-Read :
      (size residual len : ℕ) (s : Server (wired os)) (r : (Bool × Progress) × Device (served os))
      → size + residual ≡ len
      → len < 2 ^ 31
      → is_open fd s.open_files ≡ true
      → (led : Led os fd in_range file buf size [] s r) → (b : Bool) → led.goes_on ≡ b
      → (more : Bool) → ltb 0 residual ≡ more
      → Read len s (last_block residual b r.0.1 r.1)
  last_block-Read size residual len s r e small open_there led true g true more = rw more (
      let here =
        led.result
        ∙ ap (λ b. ((b, so_far (take size (left s.world.0)) buf), link {os = os} true led.server))
            g in
      subst
        (λ (q : (Bool × Progress) × Device (served os)).
          Read len s ((read_block fd residual q.0.1 q.1).0.1, (read_block fd residual q.0.1 q.1).1))
        (sym here)
        (Led-Read (size + residual) len s _ e (
          Led-trans os fd in_range file buf size residual [] s r _ led (
            one_block os fd in_range file buf residual (take size (left s.world.0)) led.server
              (ltb→lt 0 residual more) (omega (arith, e, small))
              (ap (is_open fd) led.files ∙ open_there)
              (omega (arith, e, small, length-take_bound size (left s.world.0)))))))
  last_block-Read size residual len s r e small open_there led true g false more =
      rw more (Led-Read size len s r (ground (arith, e, more)) led)
  last_block-Read size residual len s r e small open_there led false g more x =
      Led-Read (size + residual) len s ((false, r.0.1), r.1) e
        (Led-over os fd in_range file buf size residual [] s r led (at_end led.over))
    where
      at_end : (led.goes_on ≡ true) ⊎ (left led.server.world.0 ≡ []) → left led.server.world.0 ≡ []
      at_end (inl goes) = absurd (cc)
      at_end (inr empty) = empty

  blockwise-Read :
      (len : ℕ) (s : Server (wired os))
      → len < 2 ^ 31
      → is_open fd s.open_files ≡ true
      → Read len s (blockwise (read_block fd) len buf (link {os = os} true s))
  unfolding blockwise
  blockwise-Read len s small open_there =
      let blocks : ℕ = len / hostfs_max_block in
      let led =
        blocks_loop-Led os fd in_range file buf blocks [] s open_there (omega (arith, small)) in
      last_block-Read (blocks * hostfs_max_block) (len % hostfs_max_block) len s
        (blocks_loop (read_block fd hostfs_max_block) blocks (so_far [] buf)
          (link {os = os} true s))
        (omega arith) small open_there led
        (blocks_loop (read_block fd hostfs_max_block) blocks (so_far [] buf)
          (link {os = os} true s)).0.0
        (sym (ap (λ q. q.0.0) led.result)) (ltb 0 (len % hostfs_max_block)) refl

  -- A read on the device of a file that is open on the host returns the number of the next bytes of
  -- the file, as many as are wanted or all that are left, puts them at the start of the buffer, and
  -- leaves the file behind them: across all the blocks of the transfer and whatever the single reads
  -- of the host bring. The device is connected, with the server at the other end of the cable, the length
  -- is below 2^31, and the reads of the file bring some of its next bytes each.
  pub usb_read_data-Read :
      (len : ℕ) (s : Server (wired os))
      → len < 2 ^ 31
      → is_open fd s.open_files ≡ true
      → let got = take len (left s.world.0) in
        (s' : Server (wired os)) × (usb_read_data fd len (some buf) (link {os = os} true s)
          ≡ ((length got, some (spread got buf)), link true s'))
        × (left s'.world.0 ≡ drop len (left s.world.0))
  unfolding usb_read_data bounded
  usb_read_data-Read zero s small open_there = (s, refl, refl)
  usb_read_data-Read (suc n) s small open_there =
      let (s', e, rest) = blockwise-Read (suc n) s small open_there in
      (
        s',
        rw (lt→ltb (suc n) (2 ^ 31) small, not_zero (suc n) (omega arith))
            (ap (λ (q : Progress × Device (served os)). ((q.0.ret, some q.0.buf), q.1)) e),
        rest,
      )
