-- ===== src/DecodeAddr/Operators.antt =====
-- psplink/decodeaddr.c: `enum Operator` and `do_op`.
use psplink.Base.{
  ℕ, zero, suc, ◌*◌, ◌/◌, ◌%◌, ◌^◌, Bool, not, ◌&&◌, ◌||◌, ltb, leb, ◌==◌, if◌then◌else◌, bit_and,
  bit_or, bit_xor, add32, sub32, mul32, not32,
}

-- `enum Operator`
pub data Operator : Type 0 where
  start absent plus minus and or xor shl shr land lor neq eq lt leq gt geq mul div : Operator

-- A comparison's or a logical operation's result as a number.
abbrev pub truth : Bool → ℕ
truth b = if b then 1 else 0

-- for(i = 0; i < not; i++) right = ~right
unfoldable pub complement : ℕ → ℕ → ℕ
complement zero right = right
complement (suc n) right = complement n (not32 right)

-- The switch of `do_op`. A shift by 32 or more is undefined in C; the processor takes the count's
-- low five bits.
unfoldable pub apply_op : Operator → ℕ → ℕ → ℕ
apply_op plus l r = add32 l r
apply_op minus l r = sub32 l r
apply_op and l r = bit_and l r
apply_op or l r = bit_or l r
apply_op xor l r = bit_xor l r
apply_op shl l r = l * 2 ^ (r % 32) % 2 ^ 32
apply_op shr l r = l / 2 ^ (r % 32)
apply_op land l r = truth (not (l == 0) && not (r == 0))
apply_op lor l r = truth (not (l == 0) || not (r == 0))
apply_op neq l r = truth (not (l == r))
apply_op eq l r = truth (l == r)
apply_op lt l r = truth (ltb l r)
apply_op gt l r = truth (ltb r l)
apply_op leq l r = truth (leb l r)
apply_op geq l r = truth (leb r l)
apply_op mul l r = mul32 l r
apply_op div l r = if not (r == 0) then l / r else 1
apply_op start l r = r
apply_op absent l r = r

unfoldable pub do_op : Operator → ℕ → ℕ → ℕ → ℕ
unfolding complement apply_op
do_op op n left right = apply_op op left (complement n right)
