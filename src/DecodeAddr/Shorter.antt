-- ===== src/DecodeAddr/Shorter.antt =====
-- The scanners of `parse_line` leave no more of the line than they were given.
use psplink.Base.{
  ℕ, zero, suc, ◌+◌, ◌-◌, ◌*◌, ◌^◌, ◌≤◌, ◌<◌, ◌≡◌, inl, inr, ◌&&◌, [], ◌∷◌, some, arith, ◌==◌,
  if◌then◌else◌, Bool-cases, Option-cases, Text, length, drop, min,
}
use psplink.Util.Chars.{hex_to_int}
use psplink.DecodeAddr.Operators.{Operator}
use psplink.DecodeAddr.Line.{digits_loop, strtoul, scan_name, split_at, scan_bracket, operator_at}

pub length-drop : (n : ℕ) (s : Text) → length (drop n s) ≤ length s
length-drop zero s = omega arith
length-drop (suc n) [] = omega arith
length-drop (suc n) (c ∷ s) = omega (arith, length-drop n s)

digits_loop-shorter : (b v : ℕ) (s : Text) → length (digits_loop b v s).1 ≤ length s
unfolding digits_loop
digits_loop-shorter b v [] = omega arith
digits_loop-shorter b v (c ∷ s) =
    ground (arith, digits_loop-shorter b (min (v * b + hex_to_int c) (2 ^ 32 - 1)) s)

pub strtoul-shorter : (s : Text) → length (strtoul s).1 ≤ length s
unfolding strtoul
strtoul-shorter s = ground (
  arith,
  digits_loop-shorter 16 0 (drop 2 s),
  length-drop 2 s,
  digits_loop-shorter 8 0 s,
  digits_loop-shorter 10 0 s,
)

pub scan_name-shorter : (n : ℕ) (s : Text) → length (scan_name n s).1 ≤ length s
unfolding scan_name
scan_name-shorter zero s = omega arith
scan_name-shorter (suc n) [] = omega arith
scan_name-shorter (suc n) (c ∷ s) = ground (arith, scan_name-shorter n s)

pub split_at-shorter :
    (q : ℕ) (s : Text) {name rest : Text}
    → split_at q s ≡ some (name, rest)
    → length rest < length s
unfolding split_at
split_at-shorter q [] e = absurd (ground arith)
split_at-shorter q (c ∷ s) e = elim (Bool-cases (c == q)) [
  | inl t ↦ ground arith
  | inr f ↦ elim (Option-cases (split_at q s)) [
    | inl n ↦ absurd (ground arith)
    | inr (p, g) ↦ ground (arith, split_at-shorter q s g)
  ]
]

pub scan_bracket-shorter :
    (depth : ℕ) (s : Text) {inner rest : Text}
    → scan_bracket depth s ≡ some (inner, rest)
    → (length rest < length s) × (length inner < length s)
unfolding scan_bracket
scan_bracket-shorter depth [] e = absurd (ground arith)
scan_bracket-shorter depth (c ∷ s) e =
    let d = if c == b'(' then depth + 1 else if c == b')' then depth - 1 else depth in
    elim (Bool-cases (c == b')' && d == 0)) [
      | inl t ↦ ground arith
      | inr f ↦ elim (Option-cases (scan_bracket d s)) [
        | inl n ↦ absurd (ground arith)
        | inr (p, g) ↦ ground (arith, scan_bracket-shorter d s g)
      ]
    ]

pub operator_at-shorter :
    (c : ℕ) (s : Text) {op : Operator} {rest : Text}
    → operator_at c s ≡ some (op, rest)
    → length rest ≤ length s
unfolding operator_at
operator_at-shorter c s e = ground (arith, length-drop 1 s)
