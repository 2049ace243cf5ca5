-- ===== src/Base/Tables.antt =====
-- Functions compared on every byte, by evaluation.
use Prim.Native.Nat.{ℕ, zero, suc, ◌<◌}
use mathlib.Core.Path.{◌≡◌}
use mathlib.Core.Bool.{Bool, true, ◌&&◌}
use native.Mathlib.Omega.{arith}
use psplink.Base.Tests.{◌==◌}

-- Whether two functions agree at every number below the bound.
unfoldable pub agree : (f g : ℕ → ℕ) → ℕ → Bool
agree f g zero = true
agree f g (suc top) = agree f g top && f top == g top

pub agree_lem : (f g : ℕ → ℕ) (bound c : ℕ) → c < bound → agree f g bound ≡ true → f c ≡ g c
unfolding agree
agree_lem f g zero c below t = absurd (omega arith)
agree_lem f g (suc top) c below t = ground (arith, agree_lem f g top c)
