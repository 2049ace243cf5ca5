-- ===== src/Util/Chars.antt =====
-- psplink/util.c: the character classes. A `char` is its byte; one of 128 or more is negative in
-- the source, and is in no class there as here.
use psplink.Base.{ℕ, ◌+◌, ◌-◌, Bool, ◌||◌, ◌==◌, if◌then◌else◌, within}

-- `ch ^= (1 << 5)` clears that bit, which every lower-case letter has.
unfoldable pub upcase : ℕ → ℕ
upcase ch = if within b'a' b'z' ch then ch - 32 else ch

unfoldable pub is_alnum : ℕ → Bool
unfolding upcase
is_alnum ch = within b'A' b'Z' (upcase ch) || within b'0' b'9' (upcase ch)

unfoldable pub is_oct : ℕ → Bool
is_oct ch = within b'0' b'7' ch

unfoldable pub oct_to_int : ℕ → ℕ
oct_to_int ch = if within b'0' b'7' ch then ch - b'0' else 0

unfoldable pub is_hex : ℕ → Bool
unfolding upcase
is_hex ch = within b'0' b'9' (upcase ch) || within b'A' b'F' (upcase ch)

unfoldable pub hex_to_int : ℕ → ℕ
unfolding upcase
hex_to_int ch =
    if within b'0' b'9' ch
    then ch - b'0'
    else if within b'A' b'F' (upcase ch)
    then upcase ch - b'A' + 10
    else 0

unfoldable pub is_aspace : ℕ → Bool
is_aspace ch = ch == b' ' || ch == b'\t' || ch == b'\n' || ch == b'\r'
