-- ===== src/HostFs/Paths/Names.antt =====
-- What `gen_path` leaves of a path: its pieces are plain names, and read again they are the same.
use psplink.Base.{
  ℕ, suc, zero, ◌+◌, ◌-◌, ◌≡◌, ◌≤◌, refl, sym, ap, ◌∙◌, Bool, true, false, List, [], ◌∷◌, ◌++◌,
  append_assoc, append-nil, ◌==◌, Text, codes, length, take, All, All-append, arith, length-append,
  inl, inr, Bool-cases, subst,
}
use psplink.Base.Texts.{text_eq}
use psplink.HostFs.Paths.Tokens.{
  keep, pieces, tokens, max_tokens, split_path, drop_last, place, walk, render, gen_path,
}

-- A piece has a character, and no slash.
abbrev pub IsPiece : Text → Type 0
IsPiece t = (text_eq t [] ≡ false) × All (λ c. (c == b'/') ≡ false) t

-- A plain name is a piece that stands for an entry of the directory, not for the directory or its
-- parent.
pub record IsName (t : Text) : Type 0 where
  pub piece : IsPiece t
  pub not_dot : text_eq t (codes ".") ≡ false
  pub not_dots : text_eq t (codes "..") ≡ false

keep-IsPiece :
    (first : Text) (rest : List Text)
    → All (λ c. (c == b'/') ≡ false) first
    → All IsPiece rest
    → All IsPiece (keep first rest)
unfolding text_eq
keep-IsPiece [] rest hf hr = hr
keep-IsPiece (c ∷ first) rest hf hr = ((refl, hf), hr)

pieces-IsPiece : (s : Text) → All (λ c. (c == b'/') ≡ false) (pieces s).0 × All IsPiece (pieces s).1
unfolding pieces
pieces-IsPiece [] = (tt, tt)
pieces-IsPiece (c ∷ s) =
    let (hf, hr) = pieces-IsPiece s in
    elim (Bool-cases (c == b'/')) [
      | inl e ↦ rw e (tt, keep-IsPiece _ _ hf hr)
      | inr e ↦ rw e ((e, hf), hr)
    ]

pub tokens-IsPiece : (s : Text) → All IsPiece (tokens s)
unfolding tokens
tokens-IsPiece s = let (hf, hr) = pieces-IsPiece s in keep-IsPiece _ _ hf hr

keep-append :
    (first : Text) (rest more : List Text) → keep first (rest ++ more) ≡ keep first rest ++ more
keep-append [] rest more = refl
keep-append (c ∷ first) rest more = refl

pieces-append : (s t : Text) → pieces (s ++ b'/' ∷ t) ≡ ((pieces s).0, (pieces s).1 ++ tokens t)
unfolding pieces tokens
pieces-append [] t = refl
pieces-append (c ∷ s) t = elim (Bool-cases (c == b'/')) [
  | inl e ↦ rw (e, pieces-append s t, keep-append (pieces s).0 (pieces s).1 (tokens t)) refl
  | inr e ↦ rw (e, pieces-append s t) refl
]

pub tokens-append : (s t : Text) → tokens (s ++ b'/' ∷ t) ≡ tokens s ++ tokens t
unfolding tokens
tokens-append s t =
    rw (tokens, pieces-append s t) (keep-append (pieces s).0 (pieces s).1 (tokens t))

pieces-piece :
    (n : Text)
    → All (λ c. (c == b'/') ≡ false) n
    → (s : Text) → pieces (n ++ s) ≡ (n ++ (pieces s).0, (pieces s).1)
unfolding pieces
pieces-piece [] h s = refl
pieces-piece (c ∷ n) (e, h) s = rw (e, pieces-piece n h s) refl

keep-piece : (n : Text) (ts : List Text) → IsPiece n → keep n ts ≡ n ∷ ts
unfolding text_eq
keep-piece [] ts (e, h) = absurd (cc)
keep-piece (c ∷ n) ts h = refl

tokens-piece : (n s : Text) → IsPiece n → tokens (n ++ b'/' ∷ s) ≡ n ∷ tokens s
unfolding tokens pieces
tokens-piece n s h =
    rw (tokens, pieces-piece n h.1 (b'/' ∷ s), append-nil n) (keep-piece n (tokens s) h)

pub tokens-last : (n : Text) → IsPiece n → tokens n ≡ n ∷ []
unfolding tokens pieces
tokens-last n h =
    ap tokens (sym (append-nil n))
    ∙ rw (tokens, pieces-piece n h.1 [], append-nil n) (keep-piece n [] h)

tokens-nil : tokens [] ≡ []
unfolding tokens pieces
tokens-nil = refl

pub tokens-render : (dir : Bool) (ts : List Text) → All IsPiece ts → tokens (render dir ts) ≡ ts
unfolding render
tokens-render dir [] h = tokens-nil
tokens-render true (t ∷ []) (h, _) = tokens-piece t [] h ∙ ap (λ xs. t ∷ xs) tokens-nil
tokens-render false (t ∷ []) (h, _) = ap tokens (append-nil t) ∙ tokens-last t h
tokens-render dir (t ∷ u ∷ ts) (h, hs) =
    tokens-piece t (render dir (u ∷ ts)) h ∙ ap (λ xs. t ∷ xs) (tokens-render dir (u ∷ ts) hs)

pub tokens-slash : (s : Text) → tokens (b'/' ∷ s) ≡ tokens s
unfolding tokens pieces
tokens-slash s = refl

-- A path of plain pieces is read back as these.
pub tokens-path :
    (dir : Bool) (ts : List Text) → All IsPiece ts → tokens (b'/' ∷ render dir ts) ≡ ts
tokens-path dir ts h = tokens-slash (render dir ts) ∙ tokens-render dir ts h

pub take-All {ℓ} : (P : Text → Type ℓ) (n : ℕ) (ts : List Text) → All P ts → All P (take n ts)
take-All P zero ts h = tt
take-All P (suc n) [] h = tt
take-All P (suc n) (t ∷ ts) (h, hs) = (h, take-All P n ts hs)

pub drop_last-All {ℓ} : (P : Text → Type ℓ) (ts : List Text) → All P ts → All P (drop_last ts)
drop_last-All P [] h = tt
drop_last-All P (t ∷ []) h = tt
drop_last-All P (t ∷ u ∷ ts) (h, hs) = (h, drop_last-All P (u ∷ ts) hs)

place-IsName : (out : List Text) (t : Text) → All IsName out → IsPiece t → All IsName (place out t)
unfolding place
place-IsName out t ho h = elim (Bool-cases (text_eq t (codes "."))) [
  | inl e ↦ rw e ho
  | inr dot ↦ rw dot (elim (Bool-cases (text_eq t (codes ".."))) [
    | inl e ↦ rw e (drop_last-All IsName out ho)
    | inr dots ↦ rw dots (
        All-append IsName out (t ∷ []) ho
          (record { piece = h; not_dot = dot; not_dots = dots }, tt))
  ])
]

walk-IsName : (out ts : List Text) → All IsName out → All IsPiece ts → All IsName (walk out ts)
unfolding walk
walk-IsName out [] ho h = ho
walk-IsName out (t ∷ ts) ho (h, hs) = walk-IsName (place out t) ts (place-IsName out t ho h) hs

pub walk-names : (out ts : List Text) → All IsName ts → walk out ts ≡ out ++ ts
unfolding walk place
walk-names out [] h = sym (append-nil out)
walk-names out (t ∷ ts) (h, hs) =
    rw (walk, h.not_dot, h.not_dots)
      (walk-names (out ++ t ∷ []) ts hs ∙ append_assoc out (t ∷ []) ts)

pub All-IsPiece : (ts : List Text) → All IsName ts → All IsPiece ts
All-IsPiece [] h = tt
All-IsPiece (t ∷ ts) (h, hs) = (h.piece, All-IsPiece ts hs)

-- The pieces that are left of a path.
abbrev pub resolved : Text → List Text
resolved path = walk [] (split_path path)

pub resolved-IsName : (path : Text) → All IsName (resolved path)
resolved-IsName path =
    walk-IsName [] (split_path path) tt
      (take-All IsPiece (max_tokens - 1) (tokens path) (tokens-IsPiece path))

pub tokens-gen_path : (path : Text) (dir : Bool) → tokens (gen_path path dir) ≡ resolved path
unfolding gen_path
tokens-gen_path path dir =
    tokens-path dir (resolved path) (All-IsPiece (resolved path) (resolved-IsName path))

length-drop_last : (ts : List Text) → length (drop_last ts) ≤ length ts
length-drop_last [] = omega arith
length-drop_last (t ∷ []) = omega arith
length-drop_last (t ∷ u ∷ ts) = omega (arith, length-drop_last (u ∷ ts))

length-place : (out : List Text) (t : Text) → length (place out t) ≤ suc (length out)
unfolding place
length-place out t = ground (arith, length-drop_last out, length-append out (t ∷ []))

length-walk : (out ts : List Text) → length (walk out ts) ≤ length out + length ts
unfolding walk
length-walk out [] = omega arith
length-walk out (t ∷ ts) = omega (arith, length-walk (place out t) ts, length-place out t)

length-take : (n : ℕ) (ts : List Text) → length (take n ts) ≤ n
length-take zero ts = omega arith
length-take (suc n) [] = omega arith
length-take (suc n) (t ∷ ts) = omega (arith, length-take n ts)

pub take-all : (n : ℕ) (ts : List Text) → length ts ≤ n → take n ts ≡ ts
take-all zero [] h = refl
take-all zero (t ∷ ts) h = absurd (omega arith)
take-all (suc n) [] h = refl
take-all (suc n) (t ∷ ts) h = ap (λ xs. t ∷ xs) (take-all n ts (omega arith))

pub length-resolved : (path : Text) → length (resolved path) ≤ 255
length-resolved path =
    omega (arith, length-walk [] (split_path path), length-take (max_tokens - 1) (tokens path))

pub split_path-gen_path :
    (path : Text) (dir : Bool) → split_path (gen_path path dir) ≡ resolved path
split_path-gen_path path dir =
    ap (take (max_tokens - 1)) (tokens-gen_path path dir)
    ∙ take-all (max_tokens - 1) (resolved path) (length-resolved path)

-- A path that `gen_path` made has at most 255 pieces, and each of them is a plain name: not empty,
-- without a slash, and neither `.` nor `..`. Read again it is its own normal form.
pub gen_path-gen_path :
    (path : Text) (dir again : Bool)
    → All IsName (tokens (gen_path path dir))
      × (length (tokens (gen_path path dir)) ≤ 255)
      × (gen_path (gen_path path dir) again ≡ gen_path path again)
unfolding gen_path
gen_path-gen_path path dir again = (
  subst (All IsName) (sym (tokens-gen_path path dir)) (resolved-IsName path),
  rw (tokens-gen_path path dir) (length-resolved path),
  ap (λ ts. b'/' ∷ render again ts)
      (ap (walk []) (split_path-gen_path path dir)
        ∙ walk-names [] (resolved path) (resolved-IsName path)),
)
