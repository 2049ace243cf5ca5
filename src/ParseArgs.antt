-- ===== src/ParseArgs.antt =====
-- psplink/parse_args.c: the shell's command line, split into arguments. A string is the list of its
-- characters up to the terminator, and an argument is the offset of its first character in the
-- output buffer. The messages that are printed are not modelled.
pub mod Round
pub mod Bounds
pub mod Plain
mod Tests
use psplink.Base.{
  ℕ, zero, suc, ◌+◌, ◌*◌, ◌%◌, Bool, true, false, not, ◌&&◌, ◌||◌, List, [], ◌∷◌, ◌++◌, Option,
  none, some, ltb, ◌==◌, if◌then◌else◌, Text, length, get_or,
}
use psplink.Util.Chars.{is_oct, oct_to_int, is_hex, hex_to_int, is_aspace}

-- The loop of `decode_hex`, on an `unsigned char`: the digit falls on bits that the shift cleared.
unfoldable pub hex_run : ℕ → ℕ → Text → ℕ × Text
hex_run zero ch str = (ch, str)
hex_run (suc n) ch [] = (ch, [])
hex_run (suc n) ch (c ∷ str) =
    if is_hex c then hex_run n (ch * 16 % 256 + hex_to_int c) str else (ch, c ∷ str)

-- `decode_hex`, at most two digits; `none` where it returns 0, which it does for a character 0,
-- and so for no digit.
unfoldable pub decode_hex : Text → Option (ℕ × Text)
unfolding hex_run
decode_hex str = let (ch, rest) = hex_run 2 0 str in if ch == 0 then none else some (ch, rest)

unfoldable pub oct_run : ℕ → ℕ → Text → ℕ × Text
oct_run zero ch str = (ch, str)
oct_run (suc n) ch [] = (ch, [])
oct_run (suc n) ch (c ∷ str) =
    if is_oct c then oct_run n (ch * 8 % 256 + oct_to_int c) str else (ch, c ∷ str)

-- `decode_oct`, at most four digits.
unfoldable pub decode_oct : Text → Option (ℕ × Text)
unfolding oct_run
decode_oct str = let (ch, rest) = oct_run 4 0 str in if ch == 0 then none else some (ch, rest)

-- The variables of the loop: what is left of `in`, what stands before `out`, the arguments from the
-- last one down to `argv[0]`, and the open quote (0 for none).
pub record State : Type 0 where
  pub input : Text
  pub out : Text
  pub argv : List ℕ
  pub in_quote : ℕ

-- *out++ = c
abbrev pub put : ℕ → Text → State → State
put c input s = record s { input = input; out = s.out ++ c ∷ [] }

-- The switch behind a backslash; `none` where the function returns 0.
unfoldable pub escape : Text → State → Option State
escape [] s = some (record s { input = [] })
escape (c ∷ input) s =
    if c == b'n'
    then some (put 10 input s)
    else if c == b'r'
    then some (put 13 input s)
    else if c == b'0'
    then elim (decode_oct input) [ none ↦ none | some (ch, rest) ↦ some (put ch rest s) ]
    else if c == b'x'
    then elim (decode_hex input) [ none ↦ none | some (ch, rest) ↦ some (put ch rest s) ]
    else some (put c input s)

unfoldable pub skip_spaces : Text → Text
skip_spaces [] = []
skip_spaces (c ∷ input) = if is_aspace c then skip_spaces input else c ∷ input

-- White space outside quotes ends an argument, and begins the next one unless the line ends.
unfoldable pub blank : Text → State → State
blank input s =
    let out = s.out ++ 0 ∷ [] in
    elim (skip_spaces input) [
      | [] ↦ record s { input = []; out = out }
      | c ∷ rest ↦ record s { input = c ∷ rest; out = out; argv = length out ∷ s.argv }
    ]

unfoldable pub quote : ℕ → Text → State → State
quote c input s =
    if not (s.in_quote == 0)
    then (if c == s.in_quote then record s { input = input; in_quote = 0 } else put c input s)
    else record s { input = input; in_quote = c }

-- One round of the main loop, at the first character and what follows it.
unfoldable pub dispatch : ℕ → Text → State → Option State
dispatch c input s =
    if c == b'\\'
    then escape input s
    else if is_aspace c && s.in_quote == 0
    then some (blank input s)
    else if c == b'"' || c == b'\''
    then some (quote c input s)
    else some (put c input s)

abbrev pub round : State → Option State
round s = elim s.input [ [] ↦ some s | c ∷ input ↦ dispatch c input s ]

-- What `parse_args` returns: 0, or 1 with the output buffer and the arguments in `argv`, last one
-- first. `stuck` is a loop without end.
pub data Args : Type 0 where
  rejected : Args
  parsed : Text → List ℕ → Args
  stuck : Args

abbrev pub is_empty : Text → Bool
is_empty [] = true
is_empty (c ∷ str) = false

-- (*in != 0) && (*argc < max_args)
abbrev pub goes_on : ℕ → State → Bool
goes_on max_args s = not (is_empty s.input) && ltb (length s.argv) max_args

-- A last argument that is empty is dropped.
abbrev pub drop_empty : Text → List ℕ → List ℕ
drop_empty out [] = []
drop_empty out (a ∷ argv) = if get_or out a 0 == 0 then argv else a ∷ argv

-- Behind the loop.
unfoldable pub finish : State → Args
finish s =
    if not (s.in_quote == 0)
    then rejected
    else let out = s.out ++ 0 ∷ [] in parsed out (drop_empty out s.argv)

unfoldable pub loop : ℕ → ℕ → State → Args
loop zero max_args s = if goes_on max_args s then stuck else finish s
loop (suc fuel) max_args s = elim (goes_on max_args s) [
  | false ↦ finish s
  | true ↦ elim (round s) [ none ↦ rejected | some s' ↦ loop fuel max_args s' ]
]

-- `parse_args`, for pointers that are not NULL, with one round for each character of the line.
unfoldable pub parse_args : Text → ℕ → Args
parse_args input max_args =
    let line = skip_spaces input in
    if max_args == 0
    then rejected
    else if is_empty line
    then parsed [] []
    else loop (length line) max_args
        (record { input = line; out = []; argv = 0 ∷ []; in_quote = 0 })
