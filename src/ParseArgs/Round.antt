-- ===== src/ParseArgs/Round.antt =====
-- What one round of the loop of `parse_args` does to the line, the output and the arguments.
use psplink.Base.{
  ℕ, zero, suc, ◌+◌, ◌*◌, ◌%◌, ◌≤◌, ◌<◌, ◌≡◌, refl, ap, ◌⊎◌, inl, inr, Bool, true, false, ◌&&◌,
  ◌||◌, [], ◌∷◌, ◌++◌, Option, none, some, ◌==◌, if◌then◌else◌, Text, length, arith, Bool-cases,
  length-append,
}
use psplink.Util.Chars.{oct_to_int, hex_to_int, is_aspace}
use psplink.ParseArgs.{
  State, put, hex_run, decode_hex, oct_run, decode_oct, escape, skip_spaces, blank, quote, dispatch,
  round, is_empty,
}

hex_run-length : (n ch : ℕ) (str : Text) → length ((hex_run n ch str).1) ≤ length str
unfolding hex_run
hex_run-length zero ch str = omega arith
hex_run-length (suc n) ch [] = omega arith
hex_run-length (suc n) ch (c ∷ str) =
    ground (arith, hex_run-length n (ch * 16 % 256 + hex_to_int c) str)

decode_hex-length :
    (str rest : Text) (ch : ℕ) → decode_hex str ≡ some (ch, rest) → length rest ≤ length str
unfolding decode_hex
decode_hex-length str rest ch h = ground (arith, hex_run-length 2 0 str)

oct_run-length : (n ch : ℕ) (str : Text) → length ((oct_run n ch str).1) ≤ length str
unfolding oct_run
oct_run-length zero ch str = omega arith
oct_run-length (suc n) ch [] = omega arith
oct_run-length (suc n) ch (c ∷ str) =
    ground (arith, oct_run-length n (ch * 8 % 256 + oct_to_int c) str)

decode_oct-length :
    (str rest : Text) (ch : ℕ) → decode_oct str ≡ some (ch, rest) → length rest ≤ length str
unfolding decode_oct
decode_oct-length str rest ch h = ground (arith, oct_run-length 4 0 str)

pub skip_spaces-length : (str : Text) → length (skip_spaces str) ≤ length str
unfolding skip_spaces
skip_spaces-length [] = omega arith
skip_spaces-length (c ∷ str) = ground (arith, skip_spaces-length str)

-- What one round does to the two texts and to the arguments.
pub record Next (s s' : State) : Type 0 where
  pub eats : length s'.input < length s.input
  pub room : length s'.out + length s'.input ≤ length s.out + length s.input
  pub grows : length s.out ≤ length s'.out
  pub args : (s'.argv ≡ s.argv) ⊎ (s'.argv ≡ length s'.out ∷ s.argv)

put-Next :
    (s : State) (c : ℕ) (input : Text) → length input < length s.input → Next s (put c input s)
put-Next s c input h =
    let e = length-append s.out (c ∷ []) in
    record { eats = h; room = omega (arith, e); grows = omega (arith, e); args = inl refl }

abbrev pub Steps : State → Option State → Type 0
Steps s none = Unit {0}
Steps s (some s') = Next s s'

pick :
    (s : State) (b : Bool) (x y : Option State)
    → Steps s x
    → Steps s y
    → Steps s (if b then x else y)
pick s true x y hx hy = hx
pick s false x y hx hy = hy

decoded-Steps :
    (s : State) (input : Text) (o : Option (ℕ × Text))
    → length input < length s.input
    → ((ch : ℕ) (rest : Text) → o ≡ some (ch, rest) → length rest ≤ length input)
    → Steps s (elim o [ none ↦ none | some (ch, rest) ↦ some (put ch rest s) ])
decoded-Steps s input none h d = tt
decoded-Steps s input (some (ch, rest)) h d = put-Next s ch rest (omega (arith, h, d ch rest refl))

escape-Steps : (input : Text) (s : State) → length input < length s.input → Steps s (escape input s)
unfolding escape
escape-Steps [] s h = record {
  eats = h;
  room = omega (arith, h);
  grows = omega arith;
  args = inl refl;
}
escape-Steps (c ∷ input) s h =
    let k : length input < length s.input = omega (arith, h) in
    pick s (c == b'n') _ _ (put-Next s 10 input k) (
      pick s (c == b'r') _ _ (put-Next s 13 input k) (
        pick s (c == b'0') _ _
          (decoded-Steps s input (decode_oct input) k (λ ch rest. decode_oct-length input rest ch))
          (pick s (c == b'x') _ _
            (decoded-Steps s input (decode_hex input) k
              (λ ch rest. decode_hex-length input rest ch))
            (put-Next s c input k))))

blank-Next : (input : Text) (s : State) → length input < length s.input → Next s (blank input s)
unfolding blank
blank-Next input s h = go (skip_spaces input) (skip_spaces-length input)
  where
    go :
        (rest : Text)
        → length rest ≤ length input
        → let out = s.out ++ 0 ∷ [] in
          Next s (elim rest [
            | [] ↦ record s { input = []; out = out }
            | c ∷ rest ↦ record s { input = c ∷ rest; out = out; argv = length out ∷ s.argv }
          ])
    go [] k = put-Next s 0 [] (omega arith)
    go (c ∷ rest) k =
        let e = length-append s.out (0 ∷ []) in
        record {
          eats = omega (arith, h, k);
          room = omega (arith, h, k, e);
          grows = omega (arith, e);
          args = inr refl;
        }

quote-Next :
    (c : ℕ) (input : Text) (s : State) → length input < length s.input → Next s (quote c input s)
unfolding quote
quote-Next c input s h = elim (Bool-cases (s.in_quote == 0)) [
  | inl t ↦ rw t silent
  | inr f ↦ elim (Bool-cases (c == s.in_quote)) [
    | inl t ↦ rw (f, t) silent
    | inr g ↦ rw (f, g) (put-Next s c input h)
  ]
]
  where
    silent : {q : ℕ} → Next s (record s { input = input; in_quote = q })
    silent = record { eats = h; room = omega (arith, h); grows = omega arith; args = inl refl }

dispatch-Steps :
    (c : ℕ) (input : Text) (s : State)
    → length input < length s.input
    → Steps s (dispatch c input s)
unfolding dispatch
dispatch-Steps c input s h = pick s (c == b'\\') _ _ (escape-Steps input s h) (
    pick s (is_aspace c && s.in_quote == 0) _ _ (blank-Next input s h)
      (pick s (c == b'"' || c == b'\'') _ _ (quote-Next c input s h) (put-Next s c input h)))

pub round-Steps : (s : State) → is_empty s.input ≡ false → Steps s (round s)
round-Steps s h = go s.input refl h
  where
    go :
        (i : Text)
        → s.input ≡ i
        → is_empty i ≡ false
        → Steps s (elim i [ [] ↦ some s | c ∷ input ↦ dispatch c input s ])
    go [] e h = absurd (ground arith)
    go (c ∷ input) e h = dispatch-Steps c input s (omega (arith, ap (λ (x : Text). length x) e))
