-- ===== src/Gdb/Hex.antt =====
-- gdbcommon/gdb-stub.c: `hexchars`, `hex`, `mem2hex`, `hex2mem`, `hexToInt`, `strtohex`;
-- gdbcommon/gdb-common.c: `GdbReadByte`, `GdbWriteByte`.
use psplink.Base.{
  ℕ, zero, suc, ◌+◌, ◌-◌, ◌*◌, ◌/◌, ◌%◌, ◌^◌, Bool, [], ◌∷◌, ◌++◌, Option, none, some, ltb, leb,
  ◌==◌, ◌&&◌, if◌then◌else◌, within, bit_or, bit_xor, codes, Text, get_or,
}

-- The bytes of memory, by address.
abbrev pub Bytes : Type 0
Bytes = ℕ → ℕ

abbrev pub write_byte : ℕ → ℕ → Bytes → Bytes
write_byte v a m c = if a == c then v else m c

-- `hexchars[k]`
abbrev pub hexchar : ℕ → ℕ
hexchar k = get_or (codes "0123456789abcdef") k 0

-- `hex`; `none` stands for -1.
unfoldable pub hex : ℕ → Option ℕ
hex ch =
    if within b'a' b'f' ch
    then some (ch - b'a' + 10)
    else if within b'0' b'9' ch
    then some (ch - b'0')
    else if within b'A' b'F' ch
    then some (ch - b'A' + 10)
    else none

-- The result of `hex` as an `unsigned char`.
abbrev pub as_byte : Option ℕ → ℕ
as_byte none = 255
as_byte (some k) = k

-- ch = hex(a) << 4; ch |= hex(b)
abbrev pub byte_of_digits : ℕ → ℕ → ℕ
byte_of_digits a b = bit_or (as_byte (hex a) * 16 % 256) (as_byte (hex b))

-- hexchars[(ch >> 4) & 0xf], hexchars[ch & 0xf]
abbrev pub digits_of_byte : ℕ → Text
digits_of_byte ch = hexchar (ch / 16 % 16) ∷ hexchar (ch % 16) ∷ []

-- The addresses that the stub may touch.
abbrev pub allowed : ℕ → Bool
allowed a = leb 0x08800000 a && ltb a 0x0a000000

-- `GdbReadByte`
unfoldable pub gdb_read_byte : Bytes → ℕ → Option ℕ
gdb_read_byte m a = if allowed a then some (m a) else none

-- `GdbWriteByte`
unfoldable pub gdb_write_byte : ℕ → ℕ → Bytes → Option Bytes
gdb_write_byte v a m = if allowed a then some (write_byte v a m) else none

-- `mem2hex` over `count` bytes; `none` stands for NULL. The characters are those that it writes.
unfoldable pub mem2hex : Bytes → ℕ → ℕ → Option Text
mem2hex m a zero = some []
mem2hex m a (suc count) = elim (gdb_read_byte m a) [
  | none ↦ none
  | some ch ↦ elim (mem2hex m (a + 1) count) [
    | none ↦ none
    | some rest ↦ some (digits_of_byte ch ++ rest)
  ]
]

-- How `hex2mem` ends: with all bytes written, at an address that is not allowed, or behind the
-- end of the input buffer. The bytes written before are in memory in each case.
pub data Written : Type 0 where
  done : Bytes → Written
  refused : Bytes → Written
  overrun : Bytes → Written

-- One byte in the escaped binary form, with what follows it.
unfoldable pub unescape : Text → Option (ℕ × Text)
unescape [] = none
unescape (c ∷ []) = if c == 0x7d then none else some (c, [])
unescape (c ∷ d ∷ buf) = if c == 0x7d then some (bit_xor 0x20 d, buf) else some (c, d ∷ buf)

-- One byte as two hex digits, with what follows them.
unfoldable pub undigit : Text → Option (ℕ × Text)
undigit (a ∷ b ∷ buf) = some (byte_of_digits a b, buf)
undigit _ = none

-- `hex2mem`
unfoldable pub hex2mem : Text → Bytes → ℕ → ℕ → Bool → Written
hex2mem buf m a zero binary = done m
hex2mem buf m a (suc count) binary = elim (if binary then unescape buf else undigit buf) [
  | none ↦ overrun m
  | some (ch, buf') ↦ elim (gdb_write_byte ch a m) [
    | none ↦ refused m
    | some m' ↦ hex2mem buf' m' (a + 1) count binary
  ]
]

-- The loop of `hexToInt`: the value, the number of digits, and the text behind them. The digit
-- falls on the four bits that the shift has emptied.
unfoldable pub hex_to_int_loop : ℕ → ℕ → Text → ℕ × ℕ × Text
hex_to_int_loop v n [] = (v, n, [])
hex_to_int_loop v n (c ∷ s) = elim (hex c) [
  | none ↦ (v, n, c ∷ s)
  | some h ↦ hex_to_int_loop (v * 16 % 2 ^ 32 + h) (n + 1) s
]

-- `hexToInt`; `none` where it returns 0.
unfoldable pub hex_to_int : Text → Option (ℕ × Text)
unfolding hex_to_int_loop
hex_to_int s = let (v, n, rest) = hex_to_int_loop 0 0 s in if n == 0 then none else some (v, rest)

-- `strtohex`, for the characters of a name (below 128).
unfoldable pub strtohex : Text → Text
strtohex [] = []
strtohex (c ∷ s) = hexchar (c / 16) ∷ hexchar (c % 16) ∷ strtohex s
