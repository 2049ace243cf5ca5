-- ===== src/Device/Async/Queue.antt =====
-- An endpoint is the ring of psplink/tty.c under other names, and so a queue.
use psplink.Base.{
  ℕ, zero, suc, ◌-◌, ◌≤◌, ◌≡◌, refl, sym, ap, subst, [], ◌∷◌, ◌++◌, none, arith, Text, take, drop,
  get_or,
}
use psplink.Tty.{Tty, write_loop, read_loop}
use psplink.Tty.Queue.{queue, IsValid, write_loop-queue, read_loop-queue, length-take}
use psplink.Device.Async.{
  AsyncEndpoint, max_async_buffer, fill_loop, fill_endpoint, take_loop, flushed,
}

abbrev pub as_tty : AsyncEndpoint → Tty
as_tty e = record {
  stdinbuf = e.buffer;
  stdinreadpos = e.read_pos;
  stdinwritepos = e.write_pos;
  stdinsize = e.size;
  stdinwaitth = none;
}

-- What waits in an endpoint.
abbrev pub held : AsyncEndpoint → Text
held e = queue (as_tty e)

abbrev pub IsRing : AsyncEndpoint → Type 0
IsRing e = IsValid (as_tty e)

fill_loop-tty :
    (chars : Text) (e : AsyncEndpoint) → as_tty (fill_loop chars e) ≡ write_loop chars (as_tty e)
unfolding fill_loop write_loop
fill_loop-tty [] e = refl
fill_loop-tty (c ∷ chars) e = fill_loop-tty chars _

-- The bytes join the queue as far as they fit.
pub fill_endpoint-held :
    (chars : Text) {e : AsyncEndpoint}
    → IsRing e
    → (held (fill_endpoint chars e) ≡ held e ++ take (max_async_buffer - e.size) chars)
      × IsRing (fill_endpoint chars e)
unfolding fill_endpoint
fill_endpoint-held chars {e} v =
    let fitting : Text = take (max_async_buffer - e.size) chars in
    subst (λ t. (queue t ≡ held e ++ fitting) × IsValid t) (sym (fill_loop-tty fitting e))
      (write_loop-queue fitting v
        (omega (arith, length-take (max_async_buffer - e.size) chars, v.size)))

abbrev tty_read : Text × AsyncEndpoint → Text × Tty
tty_read (chars, e) = (chars, as_tty e)

take_loop-tty : (n : ℕ) (e : AsyncEndpoint) → tty_read (take_loop n e) ≡ read_loop n (as_tty e)
unfolding take_loop read_loop
take_loop-tty zero e = refl
take_loop-tty (suc n) e = ap (λ p. (get_or e.buffer e.read_pos 0 ∷ p.0, p.1)) (take_loop-tty n _)

pub take_loop-held :
    (n : ℕ) {e : AsyncEndpoint}
    → IsRing e
    → n ≤ e.size
    → let (chars, e') = take_loop n e in
      (chars ≡ take n (held e)) × (held e' ≡ drop n (held e)) × IsRing e'
take_loop-held n {e} v h =
    subst (λ p. (p.0 ≡ take n (held e)) × (queue p.1 ≡ drop n (held e)) × IsValid p.1)
      (sym (take_loop-tty n e)) (read_loop-queue n v h)

-- An empty endpoint of the right length is in order, wherever its positions were.
pub flushed-IsRing : {e : AsyncEndpoint} → IsRing e → IsRing (flushed e)
flushed-IsRing v = record {
  room = v.room;
  size = omega arith;
  reading = omega arith;
  writing = refl;
}
