-- ===== src/Gdb/Requests.antt =====
-- The packets of a write and a read of memory: they pass the link, and their numbers are read back.
use psplink.Base.{
  ℕ, ◌/◌, ◌%◌, ◌^◌, ◌≤◌, ◌<◌, ◌≡◌, refl, false, [], ◌∷◌, ◌++◌, none, some, ◌==◌, Text, length,
  length-append, All-append, arith,
}
use psplink.Gdb.Hex.{hex}
use psplink.Gdb.Framing.{Without, IsBody, IsPlain}
use psplink.Gdb.Transfer.{hexed, length-hexed}
use psplink.Gdb.Queries.{digits, lower_hex}
use psplink.Gdb.Ranges.{range_of}
use psplink.Gdb.Numbers.{
  hex_to_int-lower_hex, IsNoDigit, hash-IsNoDigit, nul-IsNoDigit, colon-IsNoDigit, hexchar-other,
  digits-Without, hexed-Without, length-digits,
}

-- `Maddress,length:digits` and `maddress,length`
abbrev pub write_packet : ℕ → Text → Text
write_packet a bs = b'M' ∷ (lower_hex a ++ (b',' ∷ (lower_hex (length bs) ++ (b':' ∷ hexed bs))))

abbrev pub read_packet : ℕ → ℕ → Text
read_packet a n = b'm' ∷ (lower_hex a ++ (b',' ∷ lower_hex n))

pub range_of-printed :
    (a n c : ℕ) (tail : Text)
    → a < 2 ^ 32
    → n < 2 ^ 32
    → hex c ≡ none
    → range_of (lower_hex a ++ (b',' ∷ (lower_hex n ++ (c ∷ tail)))) ≡ some (a, n, c ∷ tail)
unfolding range_of hex
range_of-printed a n c tail h k e =
    rw (hex_to_int-lower_hex a b',' (lower_hex n ++ (c ∷ tail)) h refl, range_of)
      (rw (hex_to_int-lower_hex n c tail k e, range_of) refl)

pub write_packet-Without :
    (b a : ℕ) (bs : Text)
    → IsNoDigit b
    → Without b (b',' ∷ b':' ∷ b'M' ∷ [])
    → Without b (write_packet a bs)
write_packet-Without b a bs h (comma, (colon, (letter, _))) = (
  letter,
  All-append (λ c. (c == b) ≡ false) (lower_hex a) _ (digits-Without b 8 a h)
      (
        comma,
        All-append (λ c. (c == b) ≡ false) (lower_hex (length bs)) _
            (digits-Without b 8 (length bs) h) (colon, hexed-Without b bs h),
      ),
)

pub read_packet-Without :
    (b a n : ℕ) → IsNoDigit b → Without b (b',' ∷ b'm' ∷ []) → Without b (read_packet a n)
read_packet-Without b a n h (comma, (letter, _)) = (
  letter,
  All-append (λ c. (c == b) ≡ false) (lower_hex a) _ (digits-Without b 8 a h)
      (comma, digits-Without b 8 n h),
)

pub write_packet-IsBody : (a : ℕ) (bs : Text) → length bs ≤ 1000 → IsBody (write_packet a bs)
write_packet-IsBody a bs h = record {
  no_hash = write_packet-Without b'#' a bs hash-IsNoDigit (refl, (refl, (refl, tt)));
  no_nul = write_packet-Without 0 a bs nul-IsNoDigit (refl, (refl, (refl, tt)));
  fits = omega (
    arith,
    h,
    length-append (lower_hex a) (b',' ∷ (lower_hex (length bs) ++ (b':' ∷ hexed bs))),
    length-append (lower_hex (length bs)) (b':' ∷ hexed bs),
    length-digits 8 a,
    length-digits 8 (length bs),
    length-hexed bs,
  );
}

pub read_packet-IsBody : (a n : ℕ) → IsBody (read_packet a n)
read_packet-IsBody a n = record {
  no_hash = read_packet-Without b'#' a n hash-IsNoDigit (refl, (refl, tt));
  no_nul = read_packet-Without 0 a n nul-IsNoDigit (refl, (refl, tt));
  fits = omega (
    arith,
    length-append (lower_hex a) (b',' ∷ lower_hex n),
    length-digits 8 a,
    length-digits 8 n,
  );
}

pub write_packet-IsPlain : (a : ℕ) (bs buffer : Text) → IsPlain (write_packet a bs) buffer
unfolding digits
write_packet-IsPlain a bs buffer =
    hexchar-other b':' (a / 16 ^ 6 % 16) colon-IsNoDigit (omega arith)

pub read_packet-IsPlain : (a n : ℕ) (buffer : Text) → IsPlain (read_packet a n) buffer
unfolding digits
read_packet-IsPlain a n buffer = hexchar-other b':' (a / 16 ^ 6 % 16) colon-IsNoDigit (omega arith)
