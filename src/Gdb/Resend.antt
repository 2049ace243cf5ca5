-- ===== src/Gdb/Resend.antt =====
-- Damaged, overlong and repeated packets.
use psplink.Base.Texts.{cstr}
use psplink.Base.{
  ℕ, zero, suc, ◌+◌, ◌%◌, ◌<◌, ◌≡◌, ◌≢◌, refl, ap, ◌∙◌, true, false, List, [], ◌∷◌, ◌++◌,
  append_assoc, append-nil, some, arith, ◌==◌, Text, length, All,
}
use psplink.Gdb.Hex.{byte_of_digits}
use psplink.Gdb.Packet.{
  max_buf, checksum, frame, putpacket_loop, putpacket, find_start, at_limit, read_body, over,
  accepted, retry, get_round, Got, with_replies, getpacket,
}
use psplink.Gdb.Framing.{
  byte-digits, checksum-lt, Without, cstr-over, IsBody, IsPlain, get_round-body, get_round-good,
  frame_shape, loop-accepted, loop-retry, getpacket-accepted,
}

get_round-bad :
    (p : Text) (a b : ℕ) (rest buffer : Text)
    → IsBody p
    → byte_of_digits (a % 128) (b % 128) ≢ checksum 0 p
    → get_round buffer (b'$' ∷ (p ++ (b'#' ∷ a ∷ b ∷ rest)))
      ≡ retry (over (p ++ (0 ∷ [])) buffer) (b'-' ∷ []) rest
get_round-bad p a b rest buffer h ne = get_round-body [] p a b rest buffer tt h ∙ rw differ
  where
    differ : (checksum 0 p == byte_of_digits (a % 128) (b % 128)) ≡ false
    differ = ground arith

-- A frame whose two digits do not give its checksum is answered with `-` and dropped: `getpacket`
-- goes on to the next frame, and returns that one. Both bodies have no `#` and no terminator and
-- fit in the buffer, and the second one does not read as one with a sequence number.
pub getpacket_resent :
    (p q rest buffer : Text) (a b : ℕ)
    → IsBody p
    → IsBody q
    → byte_of_digits (a % 128) (b % 128) ≢ checksum 0 p
    → IsPlain q (over (p ++ (0 ∷ [])) buffer)
    → (g : Got) × (getpacket buffer (b'$' ∷ (p ++ (b'#' ∷ a ∷ b ∷ (frame q ++ rest)))) ≡ some g)
      × (g.returned ≡ true)
      × (cstr g.buffer ≡ q)
      × (g.replies ≡ b'-' ∷ b'+' ∷ [])
      × (g.left ≡ rest)
unfolding getpacket
getpacket_resent p q rest buffer a b hp hq ne plain = (
  record {
    returned = true;
    buffer = over (q ++ (0 ∷ [])) (over (p ++ (0 ∷ [])) buffer);
    replies = b'-' ∷ b'+' ∷ [];
    left = rest;
  },
  loop-retry (suc (length (p ++ (b'#' ∷ a ∷ b ∷ (frame q ++ rest))))) buffer
        (b'$' ∷ (p ++ (b'#' ∷ a ∷ b ∷ (frame q ++ rest)))) _ _ (frame q ++ rest)
        (get_round-bad p a b (frame q ++ rest) buffer hp ne)
      ∙ ap (with_replies (b'-' ∷ [])) (
          loop-accepted (length (p ++ (b'#' ∷ a ∷ b ∷ (frame q ++ rest))))
            (over (p ++ (0 ∷ [])) buffer) (frame q ++ rest) _ _ rest
            (rw (frame_shape [] q rest) (
              get_round-good [] q _ _ rest (over (p ++ (0 ∷ [])) buffer) tt hq plain
                (byte-digits (checksum 0 q) (checksum-lt 0 q (omega arith)))))),
  refl,
  cstr-over q (over (p ++ (0 ∷ [])) buffer) hq.no_nul,
  refl,
  refl,
)

read_body-full :
    (p rest : Text) (room sum : ℕ)
    → Without b'#' p
    → length p ≡ room
    → read_body room sum (p ++ rest)
      ≡ record { stop = at_limit; content = p; sum = checksum sum p; left = rest }
unfolding read_body checksum
read_body-full [] rest zero sum w h = refl
read_body-full [] rest (suc room) sum w h = absurd (omega arith)
read_body-full (c ∷ p) rest zero sum w h = absurd (omega arith)
read_body-full (c ∷ p) rest (suc room) sum (f, w) h =
    rw (f, read_body-full p rest room ((sum + c) % 256) w (omega arith))

get_round-full :
    (p rest buffer : Text)
    → Without b'#' p
    → length p ≡ max_buf
    → checksum 0 p ≡ 255
    → get_round buffer (b'$' ∷ (p ++ rest)) ≡ accepted (over p buffer) [] rest
unfolding get_round find_start
get_round-full p rest buffer w l c = rw (read_body-full p rest max_buf 0 w l) (rw c refl)

-- A text of 2048 bytes with no `#` whose sum is 255 is returned as a packet, whatever follows it:
-- it is not acknowledged, no checksum is read, and the buffer has no terminator.
pub getpacket_overlong :
    (p rest buffer : Text)
    → Without b'#' p
    → length p ≡ max_buf
    → checksum 0 p ≡ 255
    → getpacket buffer (b'$' ∷ (p ++ rest))
      ≡ some (record { returned = true; buffer = over p buffer; replies = []; left = rest })
getpacket_overlong p rest buffer w l c =
    getpacket-accepted buffer (b'$' ∷ (p ++ rest)) _ _ rest (get_round-full p rest buffer w l c)

-- `n` copies of a text.
abbrev pub copies : ℕ → Text → Text
copies zero t = []
copies (suc n) t = t ++ copies n t

abbrev pub last_write : List Text → Text
last_write [] = []
last_write (w ∷ []) = w
last_write (w ∷ v ∷ ws) = last_write (v ∷ ws)

-- No byte of the input is taken for `+`.
abbrev pub AllRefused : Text → Type 0
AllRefused naks = All (λ c. (c % 128 == b'+') ≡ false) naks

last_write-cons : (w : Text) (ws : List Text) → 0 < length ws → last_write (w ∷ ws) ≡ last_write ws
last_write-cons w [] h = absurd (omega arith)
last_write-cons w (v ∷ ws) h = refl

putpacket_loop_refused :
    (p naks buffer rest : Text)
    → AllRefused naks
    → let s = putpacket_loop p buffer (naks ++ (b'+' ∷ rest)) in
      (s.acknowledged ≡ true)
      × (s.left ≡ rest)
      × (length s.writes ≡ suc (length naks))
      × (last_write s.writes ≡ buffer ++ copies (suc (length naks)) (frame p))
unfolding putpacket_loop
putpacket_loop_refused p [] buffer rest h = (refl, refl, refl, rw append-nil)
putpacket_loop_refused p (c ∷ naks) buffer rest (f, h) =
    let (acked, left, count, last) = putpacket_loop_refused p naks (buffer ++ frame p) rest h in
    rw f (
      acked,
      left,
      ap suc count,
      last_write-cons (buffer ++ frame p)
            (putpacket_loop p (buffer ++ frame p) (naks ++ (b'+' ∷ rest))).writes (omega arith)
          ∙ last
          ∙ append_assoc buffer (frame p) _,
    )

-- After refusals by the other side and one `+`, `putpacket` has succeeded and leaves the rest of
-- the input; but each repetition was sent behind all the earlier ones, so that the last write
-- holds one copy of the frame more than there were refusals.
pub putpacket_refused :
    (p naks rest : Text)
    → AllRefused naks
    → let s = putpacket p (naks ++ (b'+' ∷ rest)) in
      (s.acknowledged ≡ true)
      × (s.left ≡ rest)
      × (length s.writes ≡ suc (length naks))
      × (last_write s.writes ≡ copies (suc (length naks)) (frame p))
unfolding putpacket
putpacket_refused p naks rest h = putpacket_loop_refused p naks [] rest h
