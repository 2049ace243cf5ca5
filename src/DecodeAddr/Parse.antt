-- ===== src/DecodeAddr/Parse.antt =====
-- psplink/decodeaddr.c: the loop of `parse_line`, and `memDecode`.
use psplink.Base.{
  ℕ, zero, suc, ◌+◌, Bool, true, false, not, ◌&&◌, [], ◌∷◌, Option, none, some, ◌==◌, if◌then◌else◌,
  Text, take, drop, get_or,
}
use psplink.Util.Chars.{is_hex, is_aspace}
use psplink.DecodeAddr.Memory.{deref_addr, mem_validate}
use psplink.DecodeAddr.Operators.{Operator, start, absent, do_op}
use psplink.DecodeAddr.Line.{
  Env, exception_get_reg, strtoul, scan_name, split_at, scan_bracket, operator_at,
}

-- The local variables of `parse_line`.
pub record State : Type 0 where
  pub op : Operator
  pub deref : ℕ
  pub nots : ℕ
  pub val : ℕ

abbrev pub fresh : State
fresh = record { op = start; deref = 0; nots = 0; val = 0 }

abbrev pub is_absent : Operator → Bool
is_absent absent = true
is_absent _ = false

-- What one round of the loop finds: a character that only changes the state, an operand, an
-- expression in brackets, or an error.
pub data Token : Type 0 where
  skip : State → Text → Token
  operand : ℕ → Text → Token
  group : Text → Text → Token
  bad : Token

abbrev pub operand_of : Option ℕ → Text → Token
operand_of none s = bad
operand_of (some v) s = operand v s

-- A symbol at address 0 counts as not found.
abbrev pub symbol_value : Bool → Option (ℕ × ℕ) → Text → Token
symbol_value getsize none s = bad
symbol_value getsize (some (a, size)) s =
    if a == 0 then bad else operand (if getsize then size else a) s

-- A backquote in front of the name asks for the size.
abbrev pub symbol_of : Env → Text → Text → Token
symbol_of env name s =
    if get_or name 0 0 == b'`'
    then symbol_value true (env.symbol (drop 1 name)) s
    else symbol_value false (env.symbol name) s

-- A name up to its closing mark, and what it stands for.
abbrev pub quoted : Option (Text × Text) → (Text → Text → Token) → Token
quoted none f = bad
quoted (some (name, s)) f = f name s

-- `op = …; line++; continue`
abbrev pub operator_of : State → Option (Operator × Text) → Token
operator_of st none = bad
operator_of st (some (op, rest)) = skip (record st { op = op }) rest

-- The ladder of tests on the character `c` in front of `s`.
unfoldable pub token : Env → State → ℕ → Text → Token
token env st c s =
    if is_aspace c
    then skip st s
    else if c == b'*' && not (is_absent st.op)
    then skip (record st { deref = st.deref + 1 }) s
    else if c == b'~'
    then skip (record st { nots = st.nots + 1 }) s
    else if c == b'$'
    then (let (name, rest) = scan_name 15 s in
        operand_of (exception_get_reg env.registers name) rest)
    else if c == b'@'
    then quoted (split_at b'@' s) (λ name. operand_of (env.module_addr name))
    else if c == b'%'
    then quoted (split_at b'%' s) (λ name. operand_of (env.thread_addr name))
    else if c == b'?'
    then quoted (split_at b'?' s) (symbol_of env)
    else if c == b'('
    then quoted (scan_bracket 1 s) group
    else if is_hex c
    then (if is_absent st.op then bad else (let (v, rest) = strtoul (c ∷ s) in operand v rest))
    else if not (is_absent st.op)
    then bad
    else operator_of st (operator_at c s)

-- The part of the loop behind the ladder, with the operand in `temp`.
unfoldable pub operate : Env → State → ℕ → Option State
operate env st temp = elim (deref_addr env.access env.mem temp st.deref) [
  | none ↦ none
  | some v ↦ some (record { op = absent; deref = 0; nots = 0; val = do_op st.op st.nots st.val v })
]

-- How the evaluation ends; `exhausted` is the end of the fuel.
pub data Parsed : Type 0 where
  value : ℕ → Parsed
  failed exhausted : Parsed

-- The operand's part in a round, and the round itself; `go` is the loop that follows.
abbrev pub operand_round : Env → State → (State → Text → Parsed) → ℕ → Text → Parsed
operand_round env st go temp s = elim (operate env st temp) [ none ↦ failed | some st' ↦ go st' s ]

abbrev pub group_round : Env → State → (State → Text → Parsed) → Text → Parsed → Parsed
group_round env st go s failed = failed
group_round env st go s exhausted = exhausted
group_round env st go s (value temp) = operand_round env st go temp s

-- An expression in brackets is evaluated by the same loop from its first state.
abbrev pub round : Env → State → (State → Text → Parsed) → Token → Parsed
round env st go bad = failed
round env st go (skip st' s) = go st' s
round env st go (operand temp s) = operand_round env st go temp s
round env st go (group inner s) = group_round env st go s (go fresh inner)

-- The loop, on fuel.
unfoldable pub parse_loop : ℕ → Env → State → Text → Parsed
parse_loop zero env st line = exhausted
parse_loop (suc fuel) env st [] = value st.val
parse_loop (suc fuel) env st (c ∷ s) = round env st (parse_loop fuel env) (token env st c s)

-- `memDecode`: at most 1023 characters of the line are read, and 2048 rounds suffice for them.
unfoldable pub mem_decode : Env → Text → Parsed
unfolding parse_loop token operate is_hex is_aspace operator_at scan_name split_at scan_bracket
    strtoul exception_get_reg deref_addr mem_validate do_op
mem_decode env line = parse_loop 2048 env fresh (take 1023 line)
