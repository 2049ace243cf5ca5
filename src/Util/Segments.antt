-- ===== src/Util/Segments.antt =====
-- The parts of a path between its slashes, and what `to_slash` finds of them.
use psplink.Base.{
  ℕ, ◌≡◌, ◌<◌, refl, ap, ◌∙◌, false, List, [], ◌∷◌, Option, none, some, ◌==◌, if◌then◌else◌, Text,
  length, All, arith, inl, inr, Bool-cases,
}
use psplink.Util.Path.{to_slash}

-- One character more at the start of the first segment.
abbrev pub longer : ℕ → List Text → Text → List Text × Text
longer c [] last = ([], c ∷ last)
longer c (d ∷ ds) last = ((c ∷ d) ∷ ds, last)

-- The segments that end in a slash, and what stands behind the last slash.
unfoldable pub segments : Text → List Text × Text
segments [] = ([], [])
segments (c ∷ s) =
    let (dirs, last) = segments s in if c == b'/' then ([] ∷ dirs, last) else longer c dirs last

-- A text without a slash.
abbrev pub NoSlash : Text → Type 0
NoSlash t = All (λ c. (c == b'/') ≡ false) t

unfoldable pub describe : Text → Text × Option Text → List Text × Text
describe s (first, none) = ([], s)
describe s (first, some s') = (first ∷ (segments s').0, (segments s').1)

describe-longer :
    (c : ℕ) (s : Text) (p : Text × Option Text)
    → longer c (describe s p).0 (describe s p).1 ≡ describe (c ∷ s) (c ∷ p.0, p.1)
unfolding describe
describe-longer c s (first, none) = refl
describe-longer c s (first, some s') = refl

pub segments-to_slash : (s : Text) → segments s ≡ describe s (to_slash s)
unfolding segments to_slash describe
segments-to_slash [] = refl
segments-to_slash (c ∷ s) = elim (Bool-cases (c == b'/')) [
  | inl e ↦ rw (segments, to_slash, e) refl
  | inr e ↦
      rw (segments, to_slash, e)
        (ap (λ p. longer c p.0 p.1) (segments-to_slash s) ∙ describe-longer c s (to_slash s))
]

pub to_slash-NoSlash : (s : Text) → NoSlash (to_slash s).0
unfolding to_slash
to_slash-NoSlash [] = tt
to_slash-NoSlash (c ∷ s) = elim (Bool-cases (c == b'/')) [
  | inl e ↦ rw e tt
  | inr e ↦ rw e (e, to_slash-NoSlash s)
]

pub to_slash-cons :
    (c : ℕ) (s : Text)
    → (c == b'/') ≡ false
    → to_slash (c ∷ s) ≡ (c ∷ (to_slash s).0, (to_slash s).1)
unfolding to_slash
to_slash-cons c s e = rw (to_slash, e) refl

-- What stands behind the slash is shorter.
abbrev pub Shorter : Text → Option Text → Type 0
Shorter s none = Unit
Shorter s (some s') = length s' < length s

Shorter-cons : (c : ℕ) (s : Text) (o : Option Text) → Shorter s o → Shorter (c ∷ s) o
Shorter-cons c s none h = tt
Shorter-cons c s (some s') h = omega arith

pub to_slash-Shorter : (s : Text) → Shorter s (to_slash s).1
unfolding to_slash
to_slash-Shorter [] = tt
to_slash-Shorter (c ∷ s) = elim (Bool-cases (c == b'/')) [
  | inl e ↦ rw e (omega arith)
  | inr e ↦ rw e (Shorter-cons c s (to_slash s).1 (to_slash-Shorter s))
]
