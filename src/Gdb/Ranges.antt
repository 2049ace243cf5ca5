-- ===== src/Gdb/Ranges.antt =====
-- gdbcommon/gdb-stub.c: the table of signals, and ranges of memory in packets.
use psplink.Base.{
  not, ◌&&◌, ℕ, ◌+◌, ◌*◌, ◌/◌, ◌%◌, ◌^◌, Bool, true, false, List, [], ◌∷◌, ◌++◌, Option, none, some,
  ltb, ◌==◌, if◌then◌else◌, Text, codes, drop,
}
use psplink.Gdb.Hex.{
  Bytes, allowed, digits_of_byte, mem2hex, Written, done, refused, overrun, hex2mem, hex_to_int,
}
use psplink.Gdb.Hardware.{Hardware}
use psplink.Gdb.Context.{
  r_at, status_at, fpr_at, fsr_at, frame_ptr_at, index_at, Signal, sighup, sigill, sigtrap, sigfpe,
  sigbus, sigsegv,
}

-- `computeSignal`, with the table that it searches.
unfoldable pub compute_signal : ℕ → Signal
compute_signal tt =
    if tt == 6
    then sigbus
    else if tt == 7
    then sigbus
    else if tt == 9
    then sigtrap
    else if tt == 10
    then sigill
    else if tt == 12
    then sigfpe
    else if tt == 13
    then sigtrap
    else if tt == 14
    then sigsegv
    else if tt == 15
    then sigfpe
    else if tt == 23
    then sigsegv
    else if tt == 31
    then sigsegv
    else sighup

-- One text behind another, where both were printed.
abbrev pub beside : Option Text → Option Text → Option Text
beside none u = none
beside (some t) none = none
beside (some t) (some u) = some (t ++ u)

-- `mem2hex` writes nothing for any of the ranges: it is refused the first byte.
abbrev pub all_refused : List (ℕ × ℕ) → Bool
all_refused [] = true
all_refused ((a, count) ∷ ranges) = not (allowed a) && not (count == 0) && all_refused ranges

-- The ranges of memory that are printed one behind the other. Behind a range that is refused the
-- buffer is NULL: that does no harm only if the rest is refused at once too, and then the text is
-- the one before, with its terminator.
unfoldable pub mem2hex_all : Bytes → List (ℕ × ℕ) → Option Text
mem2hex_all m [] = some []
mem2hex_all m ((a, count) ∷ ranges) = elim (mem2hex m a count) [
  | some t ↦ beside (some t) (mem2hex_all m ranges)
  | none ↦ if all_refused ((a, count) ∷ ranges) then some [] else none
]

-- A word of `g_context` as it stands in memory.
abbrev pub word_digits : ℕ → Text
word_digits v =
    digits_of_byte (v % 256)
    ++ (digits_of_byte (v / 256 % 256)
        ++ (digits_of_byte (v / 65536 % 256) ++ digits_of_byte (v / 16777216 % 256)))

-- The kind of watch point that a data breakpoint is.
abbrev pub watch_type : ℕ → Option Text
watch_type datatype =
    if datatype == 1
    then some (codes "rwatch:")
    else if datatype == 2
    then some (codes "watch:")
    else if datatype == 3
    then some (codes "awatch:")
    else none

unfoldable pub watched : Bool → Hardware → Text
watched false h = []
watched true h = elim (watch_type h.datatype) [
  | none ↦ []
  | some t ↦ t ++ (word_digits h.daddr ++ codes ";")
]

-- The registers in the order of `g` and `G`: their places, and how many words there are.
abbrev pub register_ranges : ℕ → List (ℕ × ℕ)
register_ranges ctx =
    (ctx + r_at, 128)
    ∷ (ctx + status_at, 24)
    ∷ (ctx + fpr_at, 128)
    ∷ (ctx + fsr_at, 8)
    ∷ (ctx + frame_ptr_at, 8)
    ∷ (ctx + index_at, 64)
    ∷ []

-- `hex2mem` into one range behind the other, each from where the digits of the last one end. What it
-- returns is not looked at; nothing where it reads behind the buffer.
abbrev pub kept : Written → Option Bytes
kept (done m) = some m
kept (refused m) = some m
kept (overrun m) = none

unfoldable pub hex2mem_all : Text → List (ℕ × ℕ) → Bytes → Option Bytes
hex2mem_all buf [] m = some m
hex2mem_all buf ((a, count) ∷ ranges) m = elim (kept (hex2mem buf m a count false)) [
  | none ↦ none
  | some m' ↦ hex2mem_all (drop (2 * count) buf) ranges m'
]

-- hexToInt(&ptr, &addr) && *ptr++ == ',' && hexToInt(&ptr, &length), and the text behind them.
unfoldable pub range_of : Text → Option (ℕ × ℕ × Text)
range_of str = elim (hex_to_int str) [
  | none ↦ none
  | some (addr, []) ↦ none
  | some (addr, c ∷ rest) ↦
      if c == b','
      then elim (hex_to_int rest) [ none ↦ none | some (len, more) ↦ some (addr, len, more) ]
      else none
]

-- A length as an `int`: the loops on it do not start where it is negative.
abbrev pub as_count : ℕ → ℕ
as_count len = if ltb len (2 ^ 31) then len else 0
