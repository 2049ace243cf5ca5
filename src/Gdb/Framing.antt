-- ===== src/Gdb/Framing.antt =====
-- The framing: what `putpacket` sends is what `getpacket` reads.
use psplink.Base.Texts.{cstr}
use psplink.Base.{
  ℕ, zero, suc, ◌+◌, ◌/◌, ◌%◌, ◌<◌, ◌≡◌, refl, ◌∙◌, true, false, [], ◌∷◌, ◌++◌, append_assoc, some,
  arith, ◌==◌, ==_iff, Text, get_or, length, All, agree, agree_lem,
}
use psplink.Gdb.Hex.{hexchar, hex, byte_of_digits}
use psplink.Gdb.Packet.{
  max_buf, checksum, frame, find_start, at_hash, read_body, over, accept, accepted, retry, judge,
  get_round, Got, with_replies, getpacket_loop, getpacket,
}

-- A byte printed as two digits, which are then read as characters of 7 bits.
abbrev reread : ℕ → ℕ
reread c = byte_of_digits (hexchar (c / 16 % 16) % 128) (hexchar (c % 16) % 128)

reread-agrees : agree reread (λ c. c) 256 ≡ true
unfolding agree hex
reread-agrees = refl

pub byte-digits :
    (c : ℕ) → c < 256 → byte_of_digits (hexchar (c / 16 % 16) % 128) (hexchar (c % 16) % 128) ≡ c
byte-digits c h = agree_lem reread (λ c. c) 256 c h reread-agrees

pub checksum-lt : (sum : ℕ) (p : Text) → sum < 256 → checksum sum p < 256
unfolding checksum
checksum-lt sum [] h = h
checksum-lt sum (c ∷ p) h = checksum-lt ((sum + c) % 256) p (omega arith)

-- No byte of the text is `b`.
abbrev pub Without : ℕ → Text → Type 0
Without b p = All (λ c. (c == b) ≡ false) p

pub read_body-hash :
    (p rest : Text) (room sum : ℕ)
    → Without b'#' p
    → length p < room
    → read_body room sum (p ++ (b'#' ∷ rest))
      ≡ record { stop = at_hash; content = p; sum = checksum sum p; left = rest }
unfolding read_body checksum
read_body-hash p rest zero sum w h = absurd (omega arith)
read_body-hash [] rest (suc room) sum w h = refl
read_body-hash (c ∷ p) rest (suc room) sum (f, w) h =
    rw (f, read_body-hash p rest room ((sum + c) % 256) w (omega arith))

cstr-terminated : (q tail : Text) → Without 0 q → cstr (q ++ (0 ∷ tail)) ≡ q
unfolding cstr
cstr-terminated [] tail w = refl
cstr-terminated (c ∷ q) tail (f, w) = rw (f, cstr-terminated q tail w)

pub cstr-over : (p buffer : Text) → Without 0 p → cstr (over (p ++ (0 ∷ [])) buffer) ≡ p
cstr-over p buffer w = rw append_assoc (cstr-terminated p _ w)

pub find_start-noise :
    (noise input : Text)
    → All (λ c. (c % 128 == b'$') ≡ false) noise
    → find_start (noise ++ (b'$' ∷ input)) ≡ some input
unfolding find_start
find_start-noise [] input w = refl
find_start-noise (c ∷ noise) input (f, w) = rw f (find_start-noise noise input w)

-- A body that `getpacket` takes whole: no `#` in it, no terminator, and room for it in the buffer.
pub record IsBody (p : Text) : Type 0 where
  pub no_hash : Without b'#' p
  pub no_nul : Without 0 p
  pub fits : length p < max_buf

-- The round on a body and two digits behind any noise.
pub get_round-body :
    (noise p : Text) (a b : ℕ) (rest buffer : Text)
    → All (λ c. (c % 128 == b'$') ≡ false) noise
    → IsBody p
    → get_round buffer (noise ++ (b'$' ∷ (p ++ (b'#' ∷ a ∷ b ∷ rest))))
      ≡ judge (checksum 0 p) (byte_of_digits (a % 128) (b % 128)) (over (p ++ (0 ∷ [])) buffer) rest
unfolding get_round
get_round-body noise p a b rest buffer n h =
    rw (find_start-noise noise (p ++ (b'#' ∷ a ∷ b ∷ rest)) n, get_round)
      (rw (read_body-hash p (a ∷ b ∷ rest) max_buf 0 h.no_hash h.fits) refl)

-- The buffer once the body and its terminator stand in it, where that reads as no sequence number.
abbrev pub IsPlain : Text → Text → Type 0
IsPlain p buffer = (get_or (over (p ++ (0 ∷ [])) buffer) 2 0 == b':') ≡ false

accept-plain : (b : Text) → (get_or b 2 0 == b':') ≡ false → accept b ≡ (b'+' ∷ [], b)
unfolding accept
accept-plain b h = rw h

pub get_round-good :
    (noise p : Text) (a b : ℕ) (rest buffer : Text)
    → All (λ c. (c % 128 == b'$') ≡ false) noise
    → IsBody p
    → IsPlain p buffer
    → byte_of_digits (a % 128) (b % 128) ≡ checksum 0 p
    → get_round buffer (noise ++ (b'$' ∷ (p ++ (b'#' ∷ a ∷ b ∷ rest))))
      ≡ accepted (over (p ++ (0 ∷ [])) buffer) (b'+' ∷ []) rest
get_round-good noise p a b rest buffer n h q e =
    get_round-body noise p a b rest buffer n h
    ∙ rw (e, accept-plain (over (p ++ (0 ∷ [])) buffer) q, (==_iff (checksum 0 p) _).1 refl)

pub frame_shape :
    (noise p rest : Text)
    → noise ++ (frame p ++ rest)
      ≡ noise
        ++ (b'$'
            ∷ (p ++ (b'#' ∷ hexchar (checksum 0 p / 16 % 16) ∷ hexchar (checksum 0 p % 16) ∷ rest)))
unfolding frame
frame_shape noise p rest = rw append_assoc

pub loop-accepted :
    (fuel : ℕ) (buffer input b r rest : Text)
    → get_round buffer input ≡ accepted b r rest
    → getpacket_loop (suc fuel) buffer input
      ≡ some (record { returned = true; buffer = b; replies = r; left = rest })
unfolding getpacket_loop
loop-accepted fuel buffer input b r rest e = rw (e, getpacket_loop)

pub loop-retry :
    (fuel : ℕ) (buffer input b r rest : Text)
    → get_round buffer input ≡ retry b r rest
    → getpacket_loop (suc fuel) buffer input ≡ with_replies r (getpacket_loop fuel b rest)
unfolding getpacket_loop
loop-retry fuel buffer input b r rest e = rw (e, getpacket_loop)

pub getpacket-accepted :
    (buffer input b r rest : Text)
    → get_round buffer input ≡ accepted b r rest
    → getpacket buffer input
      ≡ some (record { returned = true; buffer = b; replies = r; left = rest })
unfolding getpacket
getpacket-accepted buffer input b r rest e = loop-accepted (length input) buffer input b r rest e

-- What `getpacket` returns for a frame.
abbrev pub got : Text → Text → Text → Got
got p rest buffer = record {
  returned = true;
  buffer = over (p ++ (0 ∷ [])) buffer;
  replies = b'+' ∷ [];
  left = rest;
}

pub getpacket-got :
    (noise p rest buffer : Text)
    → All (λ c. (c % 128 == b'$') ≡ false) noise
    → IsBody p
    → IsPlain p buffer
    → getpacket buffer (noise ++ (frame p ++ rest)) ≡ some (got p rest buffer)
getpacket-got noise p rest buffer n h q = rw (frame_shape noise p rest) (
    getpacket-accepted buffer _ _ _ rest (
      get_round-good noise p _ _ rest buffer n h q
        (byte-digits (checksum 0 p) (checksum-lt 0 p (omega arith)))))

-- Whatever `putpacket` sends as a frame, `getpacket` reads back: behind any noise without a start
-- character it returns 1 with the body as the text of its buffer, sends one `+`, and leaves the
-- input that follows. The body has no `#` and no terminator, fits in the buffer, and does not read
-- as one with a sequence number.
pub getpacket-frame :
    (noise p rest buffer : Text)
    → All (λ c. (c % 128 == b'$') ≡ false) noise
    → IsBody p
    → IsPlain p buffer
    → (g : Got) × (getpacket buffer (noise ++ (frame p ++ rest)) ≡ some g)
      × (g.returned ≡ true)
      × (cstr g.buffer ≡ p)
      × (g.replies ≡ b'+' ∷ [])
      × (g.left ≡ rest)
getpacket-frame noise p rest buffer n h q = (
  got p rest buffer,
  getpacket-got noise p rest buffer n h q,
  refl,
  cstr-over p buffer h.no_nul,
  refl,
  refl,
)
