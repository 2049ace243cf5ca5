-- ===== src/Base/Texts.antt =====
-- C strings as the library of the language compares and reads them.
use Prim.Native.Nat.{ℕ, ◌+◌}
use mathlib.Core.Bool.{Bool, true, false, ◌&&◌}
use mathlib.Core.List.{[], ◌∷◌}
use psplink.Base.Tests.{◌==◌, if◌then◌else◌, within}
use psplink.Base.Lists.{Text}

-- `strcmp(a, b) == 0`
unfoldable pub text_eq : Text → Text → Bool
text_eq [] [] = true
text_eq (a ∷ s) (b ∷ t) = a == b && text_eq s t
text_eq _ _ = false

-- The text up to the terminator.
unfoldable pub cstr : Text → Text
cstr [] = []
cstr (c ∷ s) = if c == 0 then [] else c ∷ cstr s

-- `tolower` of the C locale
unfoldable pub downcase : ℕ → ℕ
downcase c = if within b'A' b'Z' c then c + 32 else c

-- `strcasecmp(a, b) == 0`
unfoldable pub text_eq_nocase : Text → Text → Bool
unfolding downcase
text_eq_nocase [] [] = true
text_eq_nocase (a ∷ s) (b ∷ t) = downcase a == downcase b && text_eq_nocase s t
text_eq_nocase _ _ = false
