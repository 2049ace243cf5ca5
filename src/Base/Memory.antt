-- ===== src/Base/Memory.antt =====
-- The memory that `_lw` and `_sw` reach, one word for each physical address. The top three bits of
-- an address choose a mirror (user, kernel, uncached) of the same word, as in the table of memory
-- areas of psplink/decodeaddr.c.
use Prim.Native.Nat.{ℕ, ◌%◌, ◌^◌}
use mathlib.Core.Path.{◌≡◌}
use mathlib.Core.Bool.{false}
use native.Mathlib.Omega.{arith}
use psplink.Base.Tests.{◌==◌, if◌then◌else◌}

abbrev pub Mem : Type 0
Mem = ℕ → ℕ

abbrev pub cell : ℕ → ℕ
cell a = a % 2 ^ 29

-- `_lw(a)`
abbrev pub lw : Mem → ℕ → ℕ
lw m a = m (cell a)

-- `_sw(v, a)`
abbrev pub sw : ℕ → ℕ → Mem → Mem
sw v a m c = if cell a == c then v else m c

pub lw-sw_eq : (m : Mem) (v a b : ℕ) → cell a ≡ cell b → lw (sw v a m) b ≡ v
lw-sw_eq m v a b h = ground arith

pub lw-sw_ne : (m : Mem) (v a b : ℕ) → (cell a == cell b) ≡ false → lw (sw v a m) b ≡ lw m b
lw-sw_ne m v a b h = ground arith
