-- ===== src/DecodeAddr/Line.antt =====
-- psplink/decodeaddr.c: `parse_line` and `memDecode`; psplink/exception.c: `exceptionGetReg`; and
-- `strtoul` of the C library with base 0, at a text that begins with a hex digit.
use psplink.Base.{
  ℕ, zero, suc, ◌+◌, ◌-◌, ◌*◌, ◌^◌, ◌&&◌, List, [], ◌∷◌, Option, none, some, ltb, ◌==◌,
  if◌then◌else◌, Text, codes, get_or, drop, min,
}
use psplink.Base.Memory.{Mem}
use psplink.Base.Texts.{text_eq}
use psplink.Util.Chars.{upcase, is_alnum, is_hex, hex_to_int}
use psplink.DecodeAddr.Memory.{Access}
use psplink.DecodeAddr.Operators.{
  Operator, plus, minus, and, or, xor, shl, shr, land, lor, neq, eq, lt, leq, gt, geq, mul, div,
}

-- `regName`
abbrev pub reg_names : List Text
reg_names =
    codes "zr"
    ∷ codes "at"
    ∷ codes "v0"
    ∷ codes "v1"
    ∷ codes "a0"
    ∷ codes "a1"
    ∷ codes "a2"
    ∷ codes "a3"
    ∷ codes "t0"
    ∷ codes "t1"
    ∷ codes "t2"
    ∷ codes "t3"
    ∷ codes "t4"
    ∷ codes "t5"
    ∷ codes "t6"
    ∷ codes "t7"
    ∷ codes "s0"
    ∷ codes "s1"
    ∷ codes "s2"
    ∷ codes "s3"
    ∷ codes "s4"
    ∷ codes "s5"
    ∷ codes "s6"
    ∷ codes "s7"
    ∷ codes "t8"
    ∷ codes "t9"
    ∷ codes "k0"
    ∷ codes "k1"
    ∷ codes "gp"
    ∷ codes "sp"
    ∷ codes "fp"
    ∷ codes "ra"
    ∷ []

-- The registers of the current exception that have names.
pub record Registers : Type 0 where
  pub r : List ℕ
  pub epc : ℕ
  pub fsr : ℕ

-- The loop of `exceptionGetReg` over the names and the registers.
unfoldable pub find_reg : Text → List Text → List ℕ → Option ℕ
unfolding text_eq
find_reg reg (n ∷ names) (v ∷ values) = if text_eq n reg then some v else find_reg reg names values
find_reg reg _ _ = none

unfoldable pub exception_get_reg : Registers → Text → Option ℕ
unfolding find_reg
exception_get_reg x reg =
    if text_eq reg (codes "epc")
    then some x.epc
    else if text_eq reg (codes "fsr")
    then some x.fsr
    else find_reg reg reg_names x.r

-- What an expression may ask for: memory and registers; and what the kernel says of modules and
-- threads by name, and the symbol tables of symbols (address and size).
pub record Env : Type 0 where
  pub access : Access
  pub mem : Mem
  pub registers : Registers
  pub module_addr : Text → Option ℕ
  pub thread_addr : Text → Option ℕ
  pub symbol : Text → Option (ℕ × ℕ)

-- The digits of a base: the value, held at the largest `unsigned int`, and what follows them.
unfoldable pub digits_loop : ℕ → ℕ → Text → ℕ × Text
unfolding is_hex hex_to_int
digits_loop base v [] = (v, [])
digits_loop base v (c ∷ s) =
    if is_hex c && ltb (hex_to_int c) base
    then digits_loop base (min (v * base + hex_to_int c) (2 ^ 32 - 1)) s
    else (v, c ∷ s)

-- `strtoul(s, &endp, 0)`
unfoldable pub strtoul : Text → ℕ × Text
unfolding digits_loop
strtoul s =
    if get_or s 0 0 == b'0' && upcase (get_or s 1 0) == b'X' && is_hex (get_or s 2 0)
    then digits_loop 16 0 (drop 2 s)
    else if get_or s 0 0 == b'0'
    then digits_loop 8 0 s
    else digits_loop 10 0 s

-- `while((pos < 15) && (is_alnum(*line)))`: the name, and what follows it.
unfoldable pub scan_name : ℕ → Text → Text × Text
unfolding is_alnum
scan_name zero s = ([], s)
scan_name (suc room) [] = ([], [])
scan_name (suc room) (c ∷ s) =
    let (name, rest) = scan_name room s in if is_alnum c then (c ∷ name, rest) else ([], c ∷ s)

-- `strchr`: the text before the first such character, and the text behind it.
unfoldable pub split_at : ℕ → Text → Option (Text × Text)
split_at q [] = none
split_at q (c ∷ s) =
    if c == q
    then some ([], s)
    else elim (split_at q s) [ none ↦ none | some (name, rest) ↦ some (c ∷ name, rest) ]

-- The scan for the bracket that closes `depth` open ones.
unfoldable pub scan_bracket : ℕ → Text → Option (Text × Text)
scan_bracket depth [] = none
scan_bracket depth (c ∷ s) =
    let depth' = if c == b'(' then depth + 1 else if c == b')' then depth - 1 else depth in
    if c == b')' && depth' == 0
    then some ([], s)
    else elim (scan_bracket depth' s) [ none ↦ none | some (inner, rest) ↦ some (c ∷ inner, rest) ]

-- The switch on the operator characters, with what follows the operator.
unfoldable pub operator_at : ℕ → Text → Option (Operator × Text)
operator_at c s =
    let next = get_or s 0 0 in
    if c == b'+'
    then some (plus, s)
    else if c == b'-'
    then some (minus, s)
    else if c == b'&'
    then (if next == b'&' then some (land, drop 1 s) else some (and, s))
    else if c == b'|'
    then (if next == b'|' then some (lor, drop 1 s) else some (or, s))
    else if c == b'^'
    then some (xor, s)
    else if c == b'='
    then (if next == b'=' then some (eq, drop 1 s) else none)
    else if c == b'!'
    then (if next == b'=' then some (neq, drop 1 s) else none)
    else if c == b'<'
    then (if next == b'<'
        then some (shl, drop 1 s)
        else if next == b'='
        then some (leq, drop 1 s)
        else some (lt, s))
    else if c == b'>'
    then (if next == b'>'
        then some (shr, drop 1 s)
        else if next == b'='
        then some (geq, drop 1 s)
        else some (gt, s))
    else if c == b'*'
    then some (mul, s)
    else if c == b'/'
    then some (div, s)
    else none
