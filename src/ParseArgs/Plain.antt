-- ===== src/ParseArgs/Plain.antt =====
-- A line of words without quotes, escapes or white space inside is split into these words.
use psplink.Base.{
  ℕ, suc, ◌+◌, ◌≡◌, ◌<◌, refl, sym, ap, ap₂, ◌∙◌, Bool, true, false, List, [], ◌∷◌, ◌++◌,
  append_assoc, append-nil, ◌==◌, Text, length, get_or, All, arith, length-append, lt→ltb, Option,
  none, some,
}
use psplink.Util.Chars.{is_aspace}
use psplink.ParseArgs.{
  State, put, skip_spaces, blank, dispatch, round, Args, rejected, parsed, is_empty, goes_on,
  finish, loop, parse_args,
}

-- A character that stands for itself anywhere on the line.
abbrev pub IsPlainChar : ℕ → Type 0
IsPlainChar c =
    ((c == b'\\') ≡ false)
    × (is_aspace c ≡ false)
    × ((c == b'"') ≡ false)
    × ((c == b'\'') ≡ false)
    × ((c == 0) ≡ false)

-- A word has at least one character, and only such.
abbrev pub IsWord : Text → Type 0
IsWord w = (is_empty w ≡ false) × All IsPlainChar w

dispatch-plain :
    (c : ℕ) (input : Text) (s : State) → IsPlainChar c → dispatch c input s ≡ some (put c input s)
unfolding dispatch
dispatch-plain c input s (b, a, q, q', z) = rw (b, a, q, q') refl

abbrev at : Text → Text → List ℕ → State
at input out argv = record { input = input; out = out; argv = argv; in_quote = 0 }

loop-round :
    (fuel max_args : ℕ) (s s' : State)
    → goes_on max_args s ≡ true
    → round s ≡ some s'
    → loop (suc fuel) max_args s ≡ loop fuel max_args s'
unfolding loop
loop-round fuel max_args s s' g r = go (goes_on max_args s) g (round s) r
  where
    go :
        (b : Bool)
        → b ≡ true
        → (o : Option State) → o ≡ some s'
        → (elim b as (λ _. Args) [
          | false ↦ finish s
          | true ↦ elim o [ none ↦ rejected | some s' ↦ loop fuel max_args s' ]
        ])
          ≡ loop fuel max_args s'
    go false e o r = absurd (cc)
    go true e none r = absurd (cc)
    go true e (some x) r = cc

loop-char :
    (c : ℕ) (rest out : Text) (argv : List ℕ) (max_args : ℕ)
    → IsPlainChar c
    → length argv < max_args
    → loop (suc (length rest)) max_args (at (c ∷ rest) out argv)
      ≡ loop (length rest) max_args (at rest (out ++ c ∷ []) argv)
loop-char c rest out argv max_args p h =
    loop-round (length rest) max_args (at (c ∷ rest) out argv) _ (lt→ltb (length argv) max_args h)
      (dispatch-plain c rest (at (c ∷ rest) out argv) p)

loop-word :
    (w rest out : Text) (argv : List ℕ) (max_args : ℕ)
    → All IsPlainChar w
    → length argv < max_args
    → loop (length (w ++ rest)) max_args (at (w ++ rest) out argv)
      ≡ loop (length rest) max_args (at rest (out ++ w) argv)
loop-word [] rest out argv max_args p h =
    ap (λ o. loop (length rest) max_args (at rest o argv)) (sym (append-nil out))
loop-word (c ∷ w) rest out argv max_args (p, ps) h =
    loop-char c (w ++ rest) out argv max_args p h
    ∙ loop-word w rest (out ++ c ∷ []) argv max_args ps h
    ∙ ap (λ o. loop (length rest) max_args (at rest o argv)) (append_assoc out (c ∷ []) w)

-- The words of a line behind the first one, each with one space before it.
abbrev pub spaced : List Text → Text
spaced [] = []
spaced (w ∷ ws) = b' ' ∷ (w ++ spaced ws)

-- The output for these words, behind the first one.
abbrev pub terminated : List Text → Text
terminated [] = 0 ∷ []
terminated (w ∷ ws) = 0 ∷ (w ++ terminated ws)

-- Where the words start, last one first, if what stands before them ends at `n`.
abbrev pub starts : ℕ → List Text → List ℕ → List ℕ
starts n [] argv = argv
starts n (w ∷ ws) argv = starts (n + 1 + length w) ws ((n + 1) ∷ argv)

skip_spaces-word : (w rest : Text) → IsWord w → skip_spaces (w ++ rest) ≡ w ++ rest
unfolding skip_spaces
skip_spaces-word [] rest (e, p) = absurd (ground arith)
skip_spaces-word (c ∷ w) rest (e, (p, ps)) = rw (p.1) refl

blank-first :
    (c : ℕ) (rest input : Text) (s : State)
    → skip_spaces input ≡ c ∷ rest
    → blank input s ≡ record s {
      input = c ∷ rest;
      out = s.out ++ 0 ∷ [];
      argv = length (s.out ++ 0 ∷ []) ∷ s.argv;
    }
unfolding blank
blank-first c rest input s e = rw (e, blank) refl

dispatch-space :
    (input rest out : Text) (argv : List ℕ)
    → dispatch b' ' input (at rest out argv) ≡ some (blank input (at rest out argv))
unfolding dispatch is_aspace
dispatch-space input rest out argv = refl

blank-word :
    (w rest out : Text) (argv : List ℕ)
    → IsWord w
    → dispatch b' ' (w ++ rest) (at (b' ' ∷ (w ++ rest)) out argv)
      ≡ some (at (w ++ rest) (out ++ 0 ∷ []) (length (out ++ 0 ∷ []) ∷ argv))
blank-word [] rest out argv v = absurd (ground arith)
blank-word (c ∷ w) rest out argv v =
    dispatch-space (c ∷ w ++ rest) (b' ' ∷ c ∷ w ++ rest) out argv
    ∙ ap some (
        blank-first c (w ++ rest) (c ∷ w ++ rest) (at (b' ' ∷ c ∷ w ++ rest) out argv)
          (skip_spaces-word (c ∷ w) rest v))

loop-space :
    (w rest out : Text) (argv : List ℕ) (max_args : ℕ)
    → IsWord w
    → length argv < max_args
    → loop (suc (length (w ++ rest))) max_args (at (b' ' ∷ (w ++ rest)) out argv)
      ≡ loop
          (length (w ++ rest))
          max_args
          (at (w ++ rest) (out ++ 0 ∷ []) (length (out ++ 0 ∷ []) ∷ argv))
loop-space w rest out argv max_args v h =
    loop-round (length (w ++ rest)) max_args (at (b' ' ∷ (w ++ rest)) out argv) _
      (lt→ltb (length argv) max_args h) (blank-word w rest out argv v)

-- The last argument that was begun is not empty.
abbrev Begun : Text → List ℕ → Type 0
Begun out [] = ⊥
Begun out (a ∷ argv) = (get_or (out ++ 0 ∷ []) a 0 == 0) ≡ false

finish-word :
    (out : Text) (argv : List ℕ)
    → Begun out argv
    → finish (at [] out argv) ≡ parsed (out ++ 0 ∷ []) argv
unfolding finish
finish-word out [] h = absurd h
finish-word out (a ∷ argv) h = rw h refl

get_or-word :
    (out w : Text) → IsWord w → (get_or ((out ++ w) ++ 0 ∷ []) (length out) 0 == 0) ≡ false
get_or-word [] [] v = absurd (ground arith)
get_or-word [] (c ∷ w) (e, (p, ps)) = p.4
get_or-word (x ∷ out) w v = get_or-word out w v

loop-spaced :
    (ws : List Text) (out : Text) (argv : List ℕ) (max_args : ℕ)
    → All IsWord ws
    → length argv + length ws < max_args
    → Begun out argv
    → loop (length (spaced ws)) max_args (at (spaced ws) out argv)
      ≡ parsed (out ++ terminated ws) (starts (length out) ws argv)
unfolding loop
loop-spaced [] out argv max_args v h g = finish-word out argv g
loop-spaced (w ∷ ws) out argv max_args (v, vs) h g =
    let out' : Text = out ++ 0 ∷ [] in
    let argv' : List ℕ = length out' ∷ argv in
    loop-space w (spaced ws) out argv max_args v (omega (arith, h))
    ∙ loop-word w (spaced ws) out' argv' max_args v.1 (omega (arith, h))
    ∙ loop-spaced ws (out' ++ w) argv' max_args vs (omega (arith, h)) (get_or-word out' w v)
    ∙ ap₂ parsed
        (append_assoc out' w (terminated ws) ∙ append_assoc out (0 ∷ []) (w ++ terminated ws))
        (ap₂ (λ m a. starts m ws (a ∷ argv))
          (omega (arith, length-append out' w, length-append out (0 ∷ [])))
          (length-append out (0 ∷ [])))

-- A line of words with one space between them, fewer than `max_args`, is parsed into these words:
-- the output is the words in their order, each with a terminator, and the arguments are where the
-- words start in it.
pub parse_args-words :
    (w : Text) (ws : List Text) (max_args : ℕ)
    → All IsWord (w ∷ ws)
    → length (w ∷ ws) < max_args
    → parse_args (w ++ spaced ws) max_args
      ≡ parsed (w ++ terminated ws) (starts (length w) ws (0 ∷ []))
unfolding parse_args
parse_args-words [] ws max_args (v, vs) h = absurd (ground arith)
parse_args-words (c ∷ w) ws max_args ((e, (p, ps)), vs) h =
    let nonzero : (max_args == 0) ≡ false = ground (arith, h) in
    rw (nonzero, skip_spaces-word (c ∷ w) (spaced ws) (e, (p, ps)))
      (loop-word (c ∷ w) (spaced ws) [] (0 ∷ []) max_args (p, ps) (omega (arith, h))
        ∙ loop-spaced ws (c ∷ w) (0 ∷ []) max_args vs (omega (arith, h)) p.4)
