-- ===== src/Util/Clean.antt =====
-- What `handlepath` gives: which parts its path has.
use psplink.Base.{
  ℕ, ◌≡◌, refl, ap, ◌∙◌, false, List, [], ◌∷◌, ◌++◌, append_assoc, Option, none, some, ◌==◌, Text,
  codes, All, inl, inr, Bool-cases,
}
use psplink.Util.Path.{matches, normalize_path}
use psplink.Util.Segments.{segments, longer, NoSlash}
use psplink.Util.Stack.{
  pop, through, go_through, trail, normalized, through-NoSlash, normalize_path-stack,
}

-- A directory's name that is none of ``, `.` and `..`.
abbrev pub IsName : Text → Type 0
IsName d = (matches (b'/' ∷ d) (codes "/.") ≡ false) × (matches (b'/' ∷ d) (codes "/..") ≡ false)

-- Behind the first segment stand names only, but for the last.
abbrev pub IsClean : List Text × Text → Type 0
IsClean ([], last) = Unit
IsClean (device ∷ dirs, last) = All IsName dirs

pop-IsName : (dirs : List Text) → All IsName dirs → All IsName (pop dirs)
pop-IsName [] h = tt
pop-IsName (d ∷ []) h = tt
pop-IsName (d ∷ e ∷ dirs) (g, h) = (g, pop-IsName (e ∷ dirs) h)

append-IsName :
    (dirs : List Text) (d : Text) → All IsName dirs → IsName d → All IsName (dirs ++ d ∷ [])
append-IsName [] d h k = (k, tt)
append-IsName (e ∷ dirs) d (g, h) k = (g, append-IsName dirs d h k)

through-IsName : (dirs : List Text) (d : Text) → All IsName dirs → All IsName (through dirs d)
through-IsName dirs d h = elim (Bool-cases (matches (b'/' ∷ d) (codes "/."))) [
  | inl e ↦ rw e h
  | inr e ↦ elim (Bool-cases (matches (b'/' ∷ d) (codes "/.."))) [
    | inl f ↦ rw (e, f) (pop-IsName dirs h)
    | inr f ↦ rw (e, f) (append-IsName dirs d h (e, f))
  ]
]

go_through-All :
    (stack dirs : List Text)
    → All IsName stack
    → All NoSlash stack
    → All NoSlash dirs
    → All IsName (go_through stack dirs) × All NoSlash (go_through stack dirs)
unfolding go_through
go_through-All stack [] h k l = (h, k)
go_through-All stack (d ∷ dirs) h k (g, l) =
    go_through-All (through stack d) dirs (through-IsName stack d h) (through-NoSlash stack d k g) l

-- The directories behind a device, and the last part.
abbrev follow : List Text → Text → Text
follow [] last = b'/' ∷ last
follow (d ∷ dirs) last = b'/' ∷ (d ++ follow dirs last)

trail-follow :
    (device : Text) (dirs : List Text) (last : Text)
    → trail device dirs ++ b'/' ∷ last ≡ device ++ follow dirs last
trail-follow device [] last = refl
trail-follow device (d ∷ dirs) last =
    trail-follow (device ++ b'/' ∷ d) dirs last ∙ append_assoc device (b'/' ∷ d) (follow dirs last)

segments-last : (t : Text) → NoSlash t → segments t ≡ ([], t)
unfolding segments
segments-last [] h = refl
segments-last (c ∷ t) (e, h) = rw (segments, e, segments-last t h) refl

segments-slash :
    (d s : Text) → NoSlash d → segments (d ++ b'/' ∷ s) ≡ (d ∷ (segments s).0, (segments s).1)
unfolding segments
segments-slash [] s h = refl
segments-slash (c ∷ d) s (e, h) = rw (segments, e, segments-slash d s h) refl

segments-follow :
    (device : Text) (dirs : List Text) (last : Text)
    → NoSlash device
    → All NoSlash dirs
    → NoSlash last
    → segments (device ++ follow dirs last) ≡ (device ∷ dirs, last)
segments-follow device [] last h k l =
    segments-slash device last h ∙ ap (λ p. (device ∷ p.0, p.1)) (segments-last last l)
segments-follow device (d ∷ dirs) last h (g, k) l =
    segments-slash device (d ++ follow dirs last) h
    ∙ ap (λ p. (device ∷ p.0, p.1)) (segments-follow d dirs last g k l)

-- No part has a slash.
abbrev AllPlain : List Text × Text → Type 0
AllPlain (dirs, last) = All NoSlash dirs × NoSlash last

longer-AllPlain :
    (c : ℕ) (dirs : List Text) (last : Text)
    → (c == b'/') ≡ false
    → AllPlain (dirs, last)
    → AllPlain (longer c dirs last)
longer-AllPlain c [] last e (h, k) = (tt, (e, k))
longer-AllPlain c (d ∷ dirs) last e ((g, h), k) = (((e, g), h), k)

segments-AllPlain : (s : Text) → AllPlain (segments s)
unfolding segments
segments-AllPlain [] = (tt, tt)
segments-AllPlain (c ∷ s) = elim (Bool-cases (c == b'/')) [
  | inl e ↦ rw (segments, e) ((tt, (segments-AllPlain s).0), (segments-AllPlain s).1)
  | inr e ↦
      rw (segments, e) (longer-AllPlain c (segments s).0 (segments s).1 e (segments-AllPlain s))
]

-- The path is clean, and its last part is this one.
abbrev pub Keeps : Text → Option Text → Type 0
Keeps last none = Unit
Keeps last (some path) = IsClean (segments path) × ((segments path).1 ≡ last)

normalized-Keeps : (p : List Text × Text) → AllPlain p → Keeps p.1 (normalized p)
unfolding normalized
normalized-Keeps ([], last) (h, k) = rw (segments-last last k) (tt, refl)
normalized-Keeps ([] ∷ dirs, last) h = tt
normalized-Keeps ((c ∷ device) ∷ dirs, last) ((g, h), k) =
    let (names, plain) = go_through-All [] dirs tt tt h in
    rw (trail-follow (c ∷ device) (go_through [] dirs) last) rw
      (segments-follow (c ∷ device) (go_through [] dirs) last g plain k) (names, refl)

pub normalize_path-Keeps : (path : Text) → Keeps (segments path).1 (normalize_path path)
normalize_path-Keeps path =
    rw (normalize_path-stack path) (normalized-Keeps (segments path) (segments-AllPlain path))
