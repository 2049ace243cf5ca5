-- ===== src/Base/Words.antt =====
-- 32-bit words as native numbers, with the wrap-around written out.
use Prim.Native.Nat.{ℕ, ◌+◌, ◌-◌, ◌*◌, ◌/◌, ◌%◌, ◌^◌}

abbrev pub u32_mod : ℕ
u32_mod = 2 ^ 32

-- `unsigned int` addition, subtraction, multiplication and complement
abbrev pub add32 : ℕ → ℕ → ℕ
add32 a b = (a + b) % u32_mod

abbrev pub sub32 : ℕ → ℕ → ℕ
sub32 a b = (a + u32_mod - b) % u32_mod

abbrev pub mul32 : ℕ → ℕ → ℕ
mul32 a b = a * b % u32_mod

abbrev pub not32 : ℕ → ℕ
not32 a = u32_mod - 1 - a % u32_mod

-- `(w >> k) & (2 ^ n - 1)`
abbrev pub bits : ℕ → ℕ → ℕ → ℕ
bits w k n = w / 2 ^ k % 2 ^ n
