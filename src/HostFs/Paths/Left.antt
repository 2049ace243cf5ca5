-- ===== src/HostFs/Paths/Left.antt =====
-- What is left of a path, told apart from `gen_path`: its names are read from the last one back, and
-- each `..` takes away the nearest name before it.
use psplink.Base.{
  ℕ, suc, zero, ◌≡◌, refl, sym, ap, ◌∙◌, Bool, false, List, [], ◌∷◌, ◌++◌, append_assoc, append-nil,
  ◌==◌, ◌&&◌, if◌then◌else◌, Text, codes, take, arith, inl, inr, Bool-cases,
}
use psplink.Base.Texts.{text_eq}
use psplink.HostFs.Paths.Tokens.{
  keep, pieces, tokens, split_path, drop_last, place, walk, render, gen_path,
}

abbrev pub is_dot : Text → Bool
is_dot [] = false
is_dot (c ∷ []) = c == b'.'
is_dot (c ∷ d ∷ s) = false

abbrev pub is_dots : Text → Bool
is_dots [] = false
is_dots (c ∷ []) = false
is_dots (c ∷ d ∷ []) = c == b'.' && d == b'.'
is_dots (c ∷ d ∷ e ∷ s) = false

-- The text as a segment, unless it is empty.
abbrev pub segment : Text → List Text
segment [] = []
segment (c ∷ s) = (c ∷ s) ∷ []

-- The segments between the slashes, the empty ones left out, with what was read of the first one.
abbrev pub cut : Text → Text → List Text
cut read [] = segment read
cut read (c ∷ s) = if c == b'/' then segment read ++ cut [] s else cut (read ++ c ∷ []) s

-- How many names before them these segments take away, and the names that stay of their own.
abbrev pub from_end : List Text → ℕ × List Text
from_end [] = (0, [])
from_end (t ∷ ts) =
    let (pending, names) = from_end ts in
    if is_dot t
    then (pending, names)
    else if is_dots t
    then (suc pending, names)
    else elim pending [ zero ↦ (0, t ∷ names) | suc n ↦ (n, names) ]

-- The names that are left of a path, of whose segments 255 count.
abbrev pub left_over : Text → List Text
left_over path = (from_end (take 255 (cut [] path))).1

-- The names, each behind a slash.
abbrev pub slashed : List Text → Text
slashed [] = []
slashed (n ∷ ns) = b'/' ∷ n ++ slashed ns

-- The absolute path of the names, which ends in a slash if it is to be a directory, and if it has
-- none.
abbrev pub spelled : Bool → List Text → Text
spelled dir [] = b'/' ∷ []
spelled dir (n ∷ ns) = slashed (n ∷ ns) ++ (if dir then b'/' ∷ [] else [])

is_dot-text_eq : (t : Text) → text_eq t (codes ".") ≡ is_dot t
unfolding text_eq
is_dot-text_eq [] = refl
is_dot-text_eq (c ∷ []) = ground arith
is_dot-text_eq (c ∷ d ∷ s) = ground arith

is_dots-text_eq : (t : Text) → text_eq t (codes "..") ≡ is_dots t
unfolding text_eq
is_dots-text_eq [] = refl
is_dots-text_eq (c ∷ []) = ground arith
is_dots-text_eq (c ∷ d ∷ []) = ground arith
is_dots-text_eq (c ∷ d ∷ e ∷ s) = ground arith

segment-keep : (t : Text) (ts : List Text) → segment t ++ ts ≡ keep t ts
segment-keep [] ts = refl
segment-keep (c ∷ t) ts = refl

cut-pieces : (read s : Text) → cut read s ≡ keep (read ++ (pieces s).0) (pieces s).1
unfolding pieces
cut-pieces read [] =
    sym (append-nil (segment read))
    ∙ segment-keep read []
    ∙ ap (λ t. keep t []) (sym (append-nil read))
cut-pieces read (c ∷ s) = elim (Bool-cases (c == b'/')) [
  | inl e ↦
      rw (e, cut-pieces [] s)
        (segment-keep read (keep (pieces s).0 (pieces s).1)
          ∙ ap (λ t. keep t (keep (pieces s).0 (pieces s).1)) (sym (append-nil read)))
  | inr e ↦
      rw (e, cut-pieces (read ++ c ∷ []) s)
        (ap (λ t. keep t (pieces s).1) (append_assoc read (c ∷ []) (pieces s).0))
]

pub cut-tokens : (s : Text) → cut [] s ≡ tokens s
unfolding tokens
cut-tokens s = cut-pieces [] s

abbrev drops : ℕ → List Text → List Text
drops zero out = out
drops (suc n) out = drops n (drop_last out)

drop_last-snoc : (out : List Text) (t : Text) → drop_last (out ++ t ∷ []) ≡ out
drop_last-snoc [] t = refl
drop_last-snoc (u ∷ []) t = refl
drop_last-snoc (u ∷ v ∷ out) t = ap (λ ts. u ∷ ts) (drop_last-snoc (v ∷ out) t)

drops-nil : (n : ℕ) → drops n [] ≡ []
drops-nil zero = refl
drops-nil (suc n) = drops-nil n

-- A name that is put behind the others, or taken away by what follows it.
keeps :
    (n : ℕ) (out : List Text) (t : Text) (names : List Text)
    → drops n (out ++ t ∷ []) ++ names ≡ (
        let (pending, left) = (elim n as (λ _. ℕ × List Text) [
          | zero ↦ (0, t ∷ names)
          | suc m ↦ (m, names)
        ]) in
        drops pending out ++ left)
keeps zero out t names = append_assoc out (t ∷ []) names
keeps (suc n) out t names = ap (λ ts. drops n ts ++ names) (drop_last-snoc out t)

walk-from_end : (out ts : List Text) → walk out ts ≡ drops (from_end ts).0 out ++ (from_end ts).1
unfolding walk place
walk-from_end out [] = sym (append-nil out)
walk-from_end out (t ∷ ts) = elim (Bool-cases (is_dot t)) [
  | inl e ↦ rw (walk, is_dot-text_eq t, e) (walk-from_end out ts)
  | inr e ↦ elim (Bool-cases (is_dots t)) [
    | inl f ↦
        rw (walk, is_dot-text_eq t, e, is_dots-text_eq t, f) (walk-from_end (drop_last out) ts)
    | inr f ↦
        rw (walk, is_dot-text_eq t, e, is_dots-text_eq t, f)
          (walk-from_end (out ++ t ∷ []) ts ∙ keeps (from_end ts).0 out t (from_end ts).1)
  ]
]

pub walk-left_over : (path : Text) → walk [] (split_path path) ≡ left_over path
walk-left_over path =
    walk-from_end [] (split_path path)
    ∙ ap (λ ts. ts ++ (from_end (split_path path)).1) (drops-nil (from_end (split_path path)).0)
    ∙ ap (λ ts. (from_end (take 255 ts)).1) (sym (cut-tokens path))

pub render-spelled : (dir : Bool) (names : List Text) → b'/' ∷ render dir names ≡ spelled dir names
unfolding render
render-spelled dir [] = refl
render-spelled dir (n ∷ []) =
    ap (λ s. b'/' ∷ s ++ (if dir then b'/' ∷ [] else [])) (sym (append-nil n))
render-spelled dir (n ∷ m ∷ ns) =
    ap (λ s. b'/' ∷ n ++ s) (render-spelled dir (m ∷ ns))
    ∙ sym (append_assoc (b'/' ∷ n) (slashed (m ∷ ns)) (if dir then b'/' ∷ [] else []))

-- The path of `gen_path`, by its names.
pub gen_path-spelled : (path : Text) (dir : Bool) → gen_path path dir ≡ spelled dir (left_over path)
unfolding gen_path
gen_path-spelled path dir =
    render-spelled dir (walk [] (split_path path)) ∙ ap (spelled dir) (walk-left_over path)
