-- ===== src/HostFs/Paths/Nocase.antt =====
-- The path that `make_nocase` finds has a plain name for each token, equal to it but for the case.
use psplink.Base.{
  ℕ, ◌≡◌, refl, sym, ap, subst, ◌∙◌, Bool, true, false, ◌&&◌, List, [], ◌∷◌, ◌++◌, append_assoc,
  append-nil, Option, none, some, ltb, ◌==◌, if◌then◌else◌, Text, codes, length, All, arith, inl,
  inr, Bool-cases,
}
use psplink.Base.Texts.{text_eq, downcase, text_eq_nocase}
use psplink.HostFs.Paths.Tokens.{render}
use psplink.HostFs.Paths.Names.{IsName}
use psplink.HostFs.Host.{Os}
use psplink.HostFs.Paths.Resolve.{
  Match, better, calc_rating, scan_entries, listed, matched, printed, find_nocase, no_tokens,
  separator, nocase_loop, path_max, Searched,
}

-- Folding the case changes neither a slash nor a dot, and makes neither.
downcase-slash :
    (a b : ℕ) → (downcase a == downcase b) ≡ true → (b == b'/') ≡ false → (a == b'/') ≡ false
unfolding downcase
downcase-slash a b h n = ground arith

downcase-dot :
    (a b : ℕ) → (downcase a == downcase b) ≡ true → (a == b'.') ≡ true → (b == b'.') ≡ true
unfolding downcase
downcase-dot a b h n = ground arith

and-split : (a b : Bool) → (a && b) ≡ true → (a ≡ true) × (b ≡ true)
and-split true b h = (refl, h)
and-split false b h = absurd (cc)

nocase-slash :
    (a b : Text)
    → text_eq_nocase a b ≡ true
    → All (λ c. (c == b'/') ≡ false) b
    → All (λ c. (c == b'/') ≡ false) a
unfolding text_eq_nocase
nocase-slash [] b h n = tt
nocase-slash (x ∷ a) [] h n = absurd (cc)
nocase-slash (x ∷ a) (y ∷ b) h (n, ns) =
    let (e, es) = and-split (downcase x == downcase y) (text_eq_nocase a b) h in
    (downcase-slash x y e n, nocase-slash a b es ns)

nocase-dots :
    (a b d : Text)
    → text_eq_nocase a b ≡ true
    → text_eq a d ≡ true
    → All (λ c. c ≡ b'.') d
    → text_eq b d ≡ true
unfolding text_eq_nocase text_eq
nocase-dots [] [] d h e n = e
nocase-dots [] (y ∷ b) d h e n = absurd (cc)
nocase-dots (x ∷ a) [] d h e n = absurd (cc)
nocase-dots (x ∷ a) (y ∷ b) [] h e n = absurd (cc)
nocase-dots (x ∷ a) (y ∷ b) (c ∷ d) h e (dot, n) =
    let (folds, hs) = and-split (downcase x == downcase y) (text_eq_nocase a b) h in
    let (same, es) = and-split (x == c) (text_eq a d) e in
    rw (nocase-dots a b d hs es n, dot)
      (ap (λ t. t && true) (downcase-dot x y folds (subst (λ k. (x == k) ≡ true) dot same)))

nocase-differs :
    (a b d : Text)
    → text_eq_nocase a b ≡ true
    → text_eq b d ≡ false
    → All (λ c. c ≡ b'.') d
    → text_eq a d ≡ false
nocase-differs a b d h n dots = elim (Bool-cases (text_eq a d)) [
  | inr e ↦ e
  | inl e ↦ absurd (cc (nocase-dots a b d h e dots))
]

pub nocase-IsName : (a b : Text) → text_eq_nocase a b ≡ true → IsName b → IsName a
nocase-IsName a b h n = record {
  piece = (nocase-differs a b [] h n.piece.0 tt, nocase-slash a b h n.piece.1);
  not_dot = nocase-differs a b (codes ".") h n.not_dot (refl, tt);
  not_dots = nocase-differs a b (codes "..") h n.not_dots (refl, (refl, tt));
}

-- What the loop has found so far equals the token but for the case.
abbrev Good : Text → Match → Type 0
Good token none = Unit
Good token (some (name, _)) = text_eq_nocase name token ≡ true

Good-if :
    (token name : Text) (tmp : ℕ) (best : Match)
    → Good token best
    → Good token (if text_eq_nocase name token && better tmp best then some (name, tmp) else best)
Good-if token name tmp best h = elim (Bool-cases (text_eq_nocase name token)) [
  | inr e ↦ rw e h
  | inl e ↦ elim (Bool-cases (better tmp best)) [ inl b ↦ rw (e, b) e | inr b ↦ rw (e, b) h ]
]

scan_entries-Good :
    (token : Text) (names : List Text) (best : Match)
    → Good token best
    → Good token (scan_entries token names best)
unfolding scan_entries
scan_entries-Good token [] best h = h
scan_entries-Good token (name ∷ names) best h =
    scan_entries-Good token names _ (Good-if token name (calc_rating token name) best h)

matched-Good :
    (token name : Text) (m : Match)
    → Good token m
    → matched m ≡ some name
    → text_eq_nocase name token ≡ true
matched-Good token name none h e = absurd (cc)
matched-Good token name (some (x, r)) h e = cc

module _ (os : Os) where
  -- A name that was found in the directory equals the token but for the case.
  pub find_nocase-matches :
      (rootdir relpath token : Text) (w : os.World) (name : Text)
      → (find_nocase os rootdir relpath token w).0 ≡ some name
      → text_eq_nocase name token ≡ true
  unfolding find_nocase
  find_nocase-matches rootdir relpath token w name e =
      go (ltb path_max (length (rootdir ++ relpath))) e
    where
      found : List Text
      found = listed (os.names (printed (rootdir ++ relpath)) w)

      go :
          (long : Bool)
          → (if◌then◌else◌ {A = Searched (Option Text)} long
              (none, [])
              (matched (scan_entries token found none), printed (rootdir ++ relpath) ∷ [])).0
            ≡ some name
          → text_eq_nocase name token ≡ true
      go true e = absurd (cc)
      go false e =
          matched-Good token name (scan_entries token found none)
            (scan_entries-Good token found none tt) e

render-more :
    (dir : Bool) (name : Text) (rest names : List Text)
    → no_tokens rest ≡ no_tokens names
    → name ++ separator dir rest ++ render dir names ≡ render dir (name ∷ names)
unfolding render
render-more true name [] [] h = append-nil _
render-more false name [] [] h = append-nil _
render-more dir name (r ∷ rest) [] h = absurd (cc)
render-more dir name [] (n ∷ names) h = absurd (cc)
render-more true name (r ∷ rest) (n ∷ names) h = append_assoc name (b'/' ∷ []) _
render-more false name (r ∷ rest) (n ∷ names) h = append_assoc name (b'/' ∷ []) _

module _ (dir : Bool) where
  -- The text is `retpath` and behind it a name for each of the tokens.
  abbrev pub Rendered : List Text → Text → Option Text → Type 0
  Rendered ts retpath none = Unit
  Rendered ts retpath (some path) =
      (names : List Text) × (no_tokens ts ≡ no_tokens names)
      × (path ≡ retpath ++ render dir names)
      × All IsName names

  Rendered-more :
      (retpath token name : Text) (rest : List Text) (o : Option Text)
      → IsName name
      → Rendered rest (retpath ++ name ++ separator dir rest) o
      → Rendered (token ∷ rest) retpath o
  Rendered-more retpath token name rest none n h = tt
  Rendered-more retpath token name rest (some path) n (names, same, e, ns) = (
    name ∷ names,
    refl,
    e
        ∙ ap (λ t. t ++ render dir names) (append_assoc retpath name (separator dir rest))
        ∙ append_assoc retpath (name ++ separator dir rest) (render dir names)
        ∙ ap (λ t. retpath ++ t) (render-more dir name rest names same),
    (n, ns),
  )

  -- The last token stays as it is where it names nothing yet.
  Rendered-last :
      (retpath token : Text) (rest : List Text)
      → IsName token
      → Rendered
          (token ∷ rest)
          retpath
          (if no_tokens rest then some (retpath ++ token ++ separator dir rest) else none)
  unfolding render
  Rendered-last retpath token [] n =
      Rendered-more retpath token token [] (some (retpath ++ token ++ separator dir [])) n
        ([], refl, sym (append-nil _), tt)
  Rendered-last retpath token (r ∷ rest) n = tt

module _ (os : Os) where
  pub nocase_loop-Rendered :
      (rootdir retpath : Text) (ts : List Text) (dir : Bool) (w : os.World)
      → All IsName ts
      → Rendered dir ts retpath (nocase_loop os rootdir retpath ts dir w).0
  unfolding nocase_loop render
  nocase_loop-Rendered rootdir retpath [] dir w h = ([], refl, sym (append-nil retpath), tt)
  nocase_loop-Rendered rootdir retpath (token ∷ rest) dir w (h, hs) =
      go (find_nocase os rootdir retpath token w).0 (find_nocase-matches os rootdir retpath token w)
        (λ name. nocase_loop-Rendered rootdir (retpath ++ name ++ separator dir rest) rest dir w hs)
    where
      go :
          (o : Option Text)
          → ((name : Text) → o ≡ some name → text_eq_nocase name token ≡ true)
          → ((name : Text)
              → Rendered dir rest
                  (retpath ++ name ++ separator dir rest)
                  (nocase_loop os rootdir (retpath ++ name ++ separator dir rest) rest dir w).0)
          → Rendered dir
              (token ∷ rest)
              retpath
              (elim o as (λ _. Searched (Option Text)) [
                | some name ↦
                    nocase_loop os rootdir (retpath ++ name ++ separator dir rest) rest dir w
                | none ↦ (
                  if no_tokens rest then some (retpath ++ token ++ separator dir rest) else none,
                  [],
                )
              ]).0
      go none m ih = Rendered-last dir retpath token rest h
      go (some name) m ih =
          Rendered-more dir retpath token name rest _ (nocase-IsName name token (m name refl) h)
            (ih name)
