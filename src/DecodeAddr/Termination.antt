-- ===== src/DecodeAddr/Termination.antt =====
-- `parse_line` comes to an end: every round takes a character, or an operand behind an operator.
use psplink.Base.{
  ℕ, zero, suc, ◌+◌, ◌*◌, ◌≤◌, ◌<◌, ◌≡◌, ◌≢◌, refl, inl, inr, Bool, true, false, not, ◌&&◌, [], ◌∷◌,
  Option, none, some, arith, ◌==◌, if◌then◌else◌, Option-cases, Text, length, take, drop, get_or,
}
use psplink.Util.Chars.{is_hex, is_aspace}
use psplink.DecodeAddr.Memory.{deref_addr}
use psplink.DecodeAddr.Operators.{Operator}
use psplink.DecodeAddr.Line.{
  Env, exception_get_reg, strtoul, scan_name, split_at, scan_bracket, operator_at,
}
use psplink.DecodeAddr.Parse.{
  State, fresh, is_absent, Token, skip, operand, group, bad, operand_of, symbol_value, symbol_of,
  operator_of, quoted, token, operate, operand_round, group_round, round, Parsed, value, failed,
  exhausted, parse_loop, mem_decode,
}
use psplink.DecodeAddr.Shorter.{
  strtoul-shorter, scan_name-shorter, split_at-shorter, scan_bracket-shorter, operator_at-shorter,
}

abbrev rank : State → ℕ
rank st = if is_absent st.op then 0 else 1

-- A token leaves less than `n` to do, counted by characters and operators.
abbrev Shrinks : Token → ℕ → Type 0
Shrinks bad n = Unit {0}
Shrinks (skip st s) n = 2 * length s + rank st < n
Shrinks (operand v s) n = 2 * length s < n
Shrinks (group inner s) n = (2 * length inner + 1 < n) × (2 * length s < n)

-- A quoted name, for whatever is made of it.
operand_of-Shrinks :
    (o : Option ℕ) (s : Text) (n : ℕ) → 2 * length s < n → Shrinks (operand_of o s) n
operand_of-Shrinks none s n h = tt
operand_of-Shrinks (some v) s n h = h

if-Shrinks :
    (b : Bool) (x y : Token) (n : ℕ)
    → (b ≡ true → Shrinks x n)
    → (b ≡ false → Shrinks y n)
    → Shrinks (if b then x else y) n
if-Shrinks true x y n h k = h refl
if-Shrinks false x y n h k = k refl

symbol_value-Shrinks :
    (g : Bool) (o : Option (ℕ × ℕ)) (s : Text) (n : ℕ)
    → 2 * length s < n
    → Shrinks (symbol_value g o s) n
symbol_value-Shrinks g none s n h = tt
symbol_value-Shrinks g (some (a, size)) s n h = if-Shrinks (a == 0) bad _ n (λ _. tt) (λ _. h)

symbol_of-Shrinks :
    (env : Env) (name s : Text) (n : ℕ) → 2 * length s < n → Shrinks (symbol_of env name s) n
symbol_of-Shrinks env name s n h =
    if-Shrinks (get_or name 0 0 == b'`') _ _ n
      (λ _. symbol_value-Shrinks true (env.symbol (drop 1 name)) s n h)
      (λ _. symbol_value-Shrinks false (env.symbol name) s n h)

rank-le : (st : State) → rank st ≤ 1
rank-le st = ground arith

operator_of-Shrinks :
    (st : State) (o : Option (Operator × Text)) (n : ℕ)
    → ((op : Operator) (r : Text) → o ≡ some (op, r) → 2 * length r + 1 < n)
    → Shrinks (operator_of st o) n
operator_of-Shrinks st none n h = tt
operator_of-Shrinks st (some (op, r)) n h =
    omega (arith, h op r refl, rank-le (record st { op = op }))

quoted-Shrinks :
    (o : Option (Text × Text)) (f : Text → Text → Token) (n : ℕ)
    → ((name s : Text) → o ≡ some (name, s) → Shrinks (f name s) n)
    → Shrinks (quoted o f) n
quoted-Shrinks none f n h = tt
quoted-Shrinks (some (name, s)) f n h = h name s refl

token-Shrinks :
    (env : Env) (st : State) (c : ℕ) (s : Text)
    → Shrinks (token env st c s) (2 * suc (length s) + rank st)
unfolding token
token-Shrinks env st c s =
    let n = 2 * suc (length s) + rank st in
    if-Shrinks (is_aspace c) _ _ n (λ _. omega arith)
      (λ _.
        if-Shrinks (c == b'*' && not (is_absent st.op)) _ _ n (λ _. omega arith)
          (λ _.
            if-Shrinks (c == b'~') _ _ n (λ _. omega arith)
              (λ _.
                if-Shrinks (c == b'$') _ _ n
                  (λ _.
                    operand_of-Shrinks (exception_get_reg env.registers (scan_name 15 s).0) _ n
                      (omega (arith, scan_name-shorter 15 s)))
                  (λ _.
                    if-Shrinks (c == b'@') _ _ n
                      (λ _.
                        name b'@' (λ x. operand_of (env.module_addr x))
                          (λ x r h. operand_of-Shrinks (env.module_addr x) r n h))
                      (λ _.
                        if-Shrinks (c == b'%') _ _ n
                          (λ _.
                            name b'%' (λ x. operand_of (env.thread_addr x))
                              (λ x r h. operand_of-Shrinks (env.thread_addr x) r n h))
                          (λ _.
                            if-Shrinks (c == b'?') _ _ n
                              (λ _.
                                name b'?' (symbol_of env) (λ x r h. symbol_of-Shrinks env x r n h))
                              (λ _.
                                if-Shrinks (c == b'(') _ _ n
                                  (λ _.
                                    quoted-Shrinks (scan_bracket 1 s) group n
                                      (λ x r e. brackets x r e))
                                  (λ _.
                                    if-Shrinks (is_hex c) _ _ n
                                      (λ _.
                                        if-Shrinks (is_absent st.op) _ _ n (λ _. tt)
                                          (λ f. number f))
                                      (λ _.
                                        if-Shrinks (not (is_absent st.op)) _ _ n (λ _. tt)
                                          (λ _. operator_of-Shrinks st (operator_at c s) n (λ o r e.
                                            omega (arith, operator_at-shorter c s e))))))))))))
  where
    name :
        (q : ℕ) (f : Text → Text → Token)
        → ((x r : Text)
            → 2 * length r < 2 * suc (length s) + rank st
            → Shrinks (f x r) (2 * suc (length s) + rank st))
        → Shrinks (quoted (split_at q s) f) (2 * suc (length s) + rank st)
    name q f h =
        quoted-Shrinks (split_at q s) f (2 * suc (length s) + rank st)
          (λ x r e. h x r (omega (arith, split_at-shorter q s e)))

    brackets :
        (x r : Text)
        → scan_bracket 1 s ≡ some (x, r)
        → Shrinks (group x r) (2 * suc (length s) + rank st)
    brackets x r e = let h = scan_bracket-shorter 1 s e in (omega arith, omega arith)

    number : is_absent st.op ≡ false → 2 * length (strtoul (c ∷ s)).1 < 2 * suc (length s) + rank st
    number f = rw f (omega (arith, strtoul-shorter (c ∷ s)))

operate-rank :
    (env : Env) (st : State) (temp : ℕ) {st' : State}
    → operate env st temp ≡ some st'
    → rank st' ≡ 0
unfolding operate
operate-rank env st temp e = elim (Option-cases (deref_addr env.access env.mem temp st.deref)) [
  | inl n ↦ absurd (ground arith)
  | inr (v, g) ↦ ground arith
]

-- No call of the loop on less than `n` runs out of fuel.
abbrev Suffices : (State → Text → Parsed) → ℕ → Type 0
Suffices go n = (st : State) (s : Text) → 2 * length s + rank st < n → go st s ≢ exhausted

operand_round-total :
    (env : Env) (st : State) (go : State → Text → Parsed) (n temp : ℕ) (s : Text)
    → Suffices go n
    → 2 * length s < n
    → operand_round env st go temp s ≢ exhausted
operand_round-total env st go n temp s f h = elim (Option-cases (operate env st temp)) [
  | inl e ↦ rw (e, operand_round) (λ x. cc)
  | inr (st', e) ↦ rw (e, operand_round) (f st' s (omega (arith, operate-rank env st temp e)))
]

round-total :
    (env : Env) (st : State) (go : State → Text → Parsed) (n : ℕ) (t : Token)
    → Suffices go n
    → Shrinks t n
    → round env st go t ≢ exhausted
round-total env st go n bad f h = λ e. cc
round-total env st go n (skip st' s) f h = f st' s h
round-total env st go n (operand temp s) f h = operand_round-total env st go n temp s f h
round-total env st go n (group inner s) f (h, k) = inside (go fresh inner) (f fresh inner h)
  where
    inside : (p : Parsed) → p ≢ exhausted → group_round env st go s p ≢ exhausted
    inside failed ne = λ e. cc
    inside exhausted ne = ne
    inside (value temp) ne = operand_round-total env st go n temp s f k

-- The fuel suffices if it is more than two rounds for each character and one for an operator.
parse_loop-total :
    (fuel : ℕ) (env : Env) (st : State) (line : Text)
    → 2 * length line + rank st < fuel
    → parse_loop fuel env st line ≢ exhausted
unfolding parse_loop
parse_loop-total zero env st line h = absurd (omega arith)
parse_loop-total (suc fuel) env st [] h = λ e. cc
parse_loop-total (suc fuel) env st (c ∷ s) h =
    round-total env st (parse_loop fuel env) (2 * suc (length s) + rank st) (token env st c s)
      (λ st' s' k. parse_loop-total fuel env st' s' (omega arith)) (token-Shrinks env st c s)

length-take : (n : ℕ) (s : Text) → length (take n s) ≤ n
length-take zero s = omega arith
length-take (suc n) [] = omega arith
length-take (suc n) (c ∷ s) = omega (arith, length-take n s)

-- `memDecode` comes to an end on every line, in every environment: it gives a value or an error.
pub mem_decode-total : (env : Env) (line : Text) → mem_decode env line ≢ exhausted
unfolding mem_decode
mem_decode-total env line =
    parse_loop-total 2048 env fresh (take 1023 line) (omega (arith, length-take 1023 line))
