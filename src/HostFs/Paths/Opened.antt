-- ===== src/HostFs/Paths/Opened.antt =====
-- The directories that `make_path` opens while it looks for a name in another case: all of them lie
-- below the root of the drive.
use psplink.Base.{
  ℕ, suc, ◌≡◌, ◌≤◌, refl, sym, ap, subst, ◌∙◌, Bool, true, false, List, [], ◌∷◌, ◌++◌, append_assoc,
  append-nil, Option, none, some, ltb, leb, if◌then◌else◌, Text, length, take, get_or, All,
  All-append, length-append, arith, ◌⊎◌, inl, inr, Bool-cases,
}
use psplink.Base.Slices.{take-append_le, take-all}
use psplink.Base.Texts.{text_eq_nocase}
use psplink.HostFs.Paths.Tokens.{pieces, tokens, split_path, gen_path}
use psplink.HostFs.Paths.Names.{IsName, tokens-append, tokens-last}
use psplink.HostFs.Host.{Os}
use psplink.HostFs.Paths.Resolve.{
  HostDrive, Setup, no_drive, path_max, max_hostdrives, Searched, printed, find_nocase, separator,
  no_tokens, nocase_loop, make_nocase, host_path, drive_path, make_path,
}
use psplink.HostFs.Paths.Nocase.{find_nocase-matches, nocase-IsName}
use psplink.HostFs.Paths.Below.{Below, split_path-IsName}

tokens-nil : tokens [] ≡ []
unfolding tokens pieces
tokens-nil = refl

-- A text that is cut by one character at most.
take-cut :
    (n : ℕ) (s t : Text)
    → length t ≡ 1
    → length (s ++ t) ≤ suc n
    → (take n (s ++ t) ≡ s ++ t) ⊎ (take n (s ++ t) ≡ s)
take-cut n s t one h = elim (Bool-cases (leb (length (s ++ t)) n)) [
  | inl fits ↦ inl (take-all n (s ++ t) (ground arith))
  | inr long ↦
      let more = length-append s t in
      inr (take-append_le n s t (ground arith) ∙ take-all n s (ground arith))
]

-- The slash at the end is all that the text of a directory can lose.
tokens-printed :
    (s : Text) → length (s ++ b'/' ∷ []) ≤ 4096 → tokens (printed (s ++ b'/' ∷ [])) ≡ tokens s
unfolding printed
tokens-printed s h = elim (take-cut 4095 s (b'/' ∷ []) refl h) [
  | inl e ↦
      ap tokens e
      ∙ tokens-append s []
      ∙ ap (λ ts. tokens s ++ ts) tokens-nil
      ∙ append-nil (tokens s)
  | inr e ↦ ap tokens e
]

separator-more : (dir : Bool) (r : Text) (rest : List Text) → separator dir (r ∷ rest) ≡ b'/' ∷ []
separator-more true r rest = refl
separator-more false r rest = refl

behind :
    (s name r : Text) (rest : List Text) (dir : Bool)
    → (s ++ b'/' ∷ name) ++ b'/' ∷ [] ≡ s ++ b'/' ∷ [] ++ name ++ separator dir (r ∷ rest)
behind s name r rest dir =
    append_assoc s (b'/' ∷ name) (b'/' ∷ [])
    ∙ sym (append_assoc s (b'/' ∷ []) (name ++ b'/' ∷ []))
    ∙ sym (append_assoc (s ++ b'/' ∷ []) name (b'/' ∷ []))
    ∙ ap (λ x. s ++ b'/' ∷ [] ++ name ++ x) (sym (separator-more dir r rest))

module _ (os : Os) (root : Text) where
  -- One name further down.
  Below-name :
      (s name : Text)
      → Below root (root ++ s)
      → IsName name
      → Below root (root ++ (s ++ b'/' ∷ name))
  Below-name s name (names, e, h) n = (
    names ++ name ∷ [],
    ap tokens (sym (append_assoc root s (b'/' ∷ name)))
        ∙ tokens-append (root ++ s) name
        ∙ ap (λ ts. tokens (root ++ s) ++ ts) (tokens-last name n.piece)
        ∙ ap (λ ts. ts ++ name ∷ []) e
        ∙ append_assoc (tokens root) names (name ∷ []),
    All-append IsName names (name ∷ []) h (n, tt),
  )

  find_nocase-Below :
      (s token : Text) (w : os.World)
      → Below root (root ++ s)
      → All (Below root) (find_nocase os root (s ++ b'/' ∷ []) token w).1
  unfolding find_nocase
  find_nocase-Below s token w (names, e, h) =
      elim (Bool-cases (ltb path_max (length (root ++ (s ++ b'/' ∷ []))))) [
        | inl long ↦ rw (find_nocase, long) tt
        | inr short ↦
            let same = append_assoc root s (b'/' ∷ []) in
            let fits : length (root ++ (s ++ b'/' ∷ [])) ≤ 4096 = ground arith in
            rw (find_nocase, short)
              (
                (
                  names,
                  ap (λ t. tokens (printed t)) (sym same)
                      ∙ tokens-printed (root ++ s) (subst (λ t. length t ≤ 4096) (sym same) fits)
                      ∙ e,
                  h,
                ),
                tt,
              )
      ]

  further-Below :
      (s name : Text) (rest : List Text) (dir : Bool) (w : os.World)
      → Below root (root ++ s)
      → IsName name
      → ((t : Text)
          → Below root (root ++ t)
          → All (Below root) (nocase_loop os root (t ++ b'/' ∷ []) rest dir w).1)
      → All
          (Below root)
          (nocase_loop os root ((s ++ b'/' ∷ []) ++ name ++ separator dir rest) rest dir w).1
  unfolding nocase_loop
  further-Below s name [] dir w b n ih = tt
  further-Below s name (r ∷ rest) dir w b n ih =
      subst (λ t. All (Below root) (nocase_loop os root t (r ∷ rest) dir w).1)
        (behind s name r rest dir) (ih (s ++ b'/' ∷ name) (Below-name s name b n))

  nocase_loop-Below :
      (s : Text) (ts : List Text) (dir : Bool) (w : os.World)
      → Below root (root ++ s)
      → All IsName ts
      → All (Below root) (nocase_loop os root (s ++ b'/' ∷ []) ts dir w).1
  unfolding nocase_loop
  nocase_loop-Below s [] dir w b h = tt
  nocase_loop-Below s (token ∷ rest) dir w b (h, hs) =
      let retpath = s ++ b'/' ∷ [] in
      All-append (Below root) _ (find_nocase os root retpath token w).1
        (go (find_nocase os root retpath token w).0 (find_nocase-matches os root retpath token w)
          (λ t c. nocase_loop-Below t rest dir w c hs))
        (find_nocase-Below s token w b)
    where
      go :
          (o : Option Text)
          → ((name : Text) → o ≡ some name → text_eq_nocase name token ≡ true)
          → ((t : Text)
              → Below root (root ++ t)
              → All (Below root) (nocase_loop os root (t ++ b'/' ∷ []) rest dir w).1)
          → All
              (Below root)
              (elim o as (λ _. Searched (Option Text)) [
                | some name ↦
                    nocase_loop os root ((s ++ b'/' ∷ []) ++ name ++ separator dir rest) rest dir w
                | none ↦ (
                  if no_tokens rest
                      then some ((s ++ b'/' ∷ []) ++ token ++ separator dir rest)
                      else none,
                  [],
                )
              ]).1
      go none m ih = tt
      go (some name) m ih =
          further-Below s name rest dir w b (nocase-IsName name token (m name refl) h) ih

  root-Below : Below root (root ++ [])
  root-Below = ([], ap tokens (append-nil root) ∙ sym (append-nil (tokens root)), tt)

  make_nocase-Below :
      (path : Text) (dir : Bool) (w : os.World)
      → All (Below root) (make_nocase os root (gen_path path dir) dir w).1
  unfolding make_nocase
  make_nocase-Below path dir w =
      nocase_loop-Below [] (split_path (gen_path path dir)) dir w root-Below
        (split_path-IsName path dir)

module _ (os : Os) where
  host_path-Below :
      (g : Setup) (drive : HostDrive) (path : Text) (dir : Bool) (w : os.World)
      → All (Below drive.rootdir) (host_path os g drive path dir w).1
  unfolding host_path
  host_path-Below g drive path dir w = elim (Bool-cases g.nocase) [
    | inl e ↦ rw e (make_nocase-Below os drive.rootdir _ dir w)
    | inr e ↦ rw e tt
  ]

  drive_path-Below :
      (g : Setup) (drive : HostDrive) (path : Text) (dir : Bool) (w : os.World)
      → All (Below drive.rootdir) (drive_path os g drive path dir w).1
  unfolding drive_path
  drive_path-Below g drive path dir w =
      elim (Bool-cases (leb path_max (length (drive.currdir ++ path)))) [
        | inl long ↦ rw long tt
        | inr short ↦ rw short (host_path-Below g drive path dir w)
      ]

  -- Every directory that is opened in the search for a name lies below the root of the drive.
  pub make_path-Below :
      (g : Setup) (drive : ℕ) (path : Text) (dir : Bool) (w : os.World)
      → All (Below (get_or g.drives drive no_drive).rootdir) (make_path os g drive path dir w).1
  unfolding make_path
  make_path-Below g drive path dir w = elim (Bool-cases (leb max_hostdrives drive)) [
    | inl beyond ↦ rw beyond tt
    | inr small ↦ rw small (drive_path-Below g (get_or g.drives drive no_drive) path dir w)
  ]
