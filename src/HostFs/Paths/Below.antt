-- ===== src/HostFs/Paths/Below.antt =====
-- Every path that `make_path` makes lies below the root of the drive.
use psplink.Base.{
  ℕ, suc, zero, ◌-◌, ◌≡◌, ◌≤◌, refl, sym, ap, subst, ◌∙◌, Bool, List, [], ◌∷◌, ◌++◌, Option, none,
  some, leb, Text, length, take, get_or, All, All-append, arith, inl, inr, Bool-cases,
}
use psplink.HostFs.Paths.Tokens.{pieces, tokens, max_tokens, split_path, walk, render, gen_path}
use psplink.HostFs.Paths.Names.{
  IsName, resolved, resolved-IsName, tokens-gen_path, tokens-append, tokens-path, take-All,
  All-IsPiece, split_path-gen_path, walk-names,
}
use psplink.HostFs.Host.{Os}
use psplink.HostFs.Paths.Resolve.{
  HostDrive, Setup, make_nocase, host_path, drive_path, max_hostdrives, path_max, no_drive,
  make_path,
}
use psplink.HostFs.Paths.Nocase.{Rendered, nocase_loop-Rendered}

-- A root that `add_drive` or the start of the program has set.
pub record IsRoot (root : Text) : Type 0 where
  pub plain : All IsName (tokens root)
  pub few : length (tokens root) ≤ 255

-- The pieces of the path are those of the root and plain names behind them.
abbrev pub Below : Text → Text → Type 0
Below root path = (names : List Text) × (tokens path ≡ tokens root ++ names) × All IsName names

-- What a name of the device stands for, if it stands for anything.
abbrev pub Confined : Text → Option Text → Type 0
Confined root none = Unit
Confined root (some path) = Below root path

no_drive-IsRoot : IsRoot []
unfolding tokens pieces
no_drive-IsRoot = record { plain = tt; few = omega arith }

get_or-IsRoot :
    (drives : List HostDrive) (drive : ℕ)
    → All (λ d. IsRoot d.rootdir) drives
    → IsRoot (get_or drives drive no_drive).rootdir
get_or-IsRoot [] drive h = no_drive-IsRoot
get_or-IsRoot (d ∷ drives) zero h = h.0
get_or-IsRoot (d ∷ drives) (suc drive) h = get_or-IsRoot drives drive h.1

take-append :
    (n : ℕ) (ts us : List Text) → length ts ≤ n → take n (ts ++ us) ≡ ts ++ take (n - length ts) us
take-append n [] us h = ap (λ k. take k us) (omega arith)
take-append zero (t ∷ ts) us h = absurd (omega arith)
take-append (suc n) (t ∷ ts) us h =
    ap (λ xs. t ∷ xs) (take-append n ts us (omega arith) ∙ ap (λ k. ts ++ take k us) (omega arith))

-- A path with a slash first and plain names behind it.
abbrev Plain : Bool → Text → Type 0
Plain dir path = (names : List Text) × (path ≡ b'/' ∷ render dir names) × All IsName names

gen_path-Plain : (path : Text) (dir : Bool) → Plain dir (gen_path path dir)
unfolding gen_path
gen_path-Plain path dir = (resolved path, refl, resolved-IsName path)

pub split_path-IsName : (path : Text) (dir : Bool) → All IsName (split_path (gen_path path dir))
split_path-IsName path dir =
    subst (All IsName) (sym (split_path-gen_path path dir)) (resolved-IsName path)

-- The root, a slash and such a path.
Below-root :
    (root path : Text) (dir : Bool)
    → IsRoot root
    → Plain dir path
    → Below root (gen_path (root ++ b'/' ∷ path) dir)
Below-root root path dir r (names, e, h) = (
  take (255 - length (tokens root)) names,
  tokens-gen_path (root ++ b'/' ∷ path) dir
      ∙ ap (λ ts. walk [] (take (max_tokens - 1) ts))
          (tokens-append root path
            ∙ ap (λ t. tokens root ++ t)
                (ap tokens e ∙ tokens-path dir names (All-IsPiece names h)))
      ∙ ap (walk []) (take-append (max_tokens - 1) (tokens root) names r.few)
      ∙ walk-names [] _ (All-append IsName (tokens root) _ r.plain (take-All IsName _ names h)),
  take-All IsName (255 - length (tokens root)) names h,
)

module _ (os : Os) where
  make_nocase-Plain :
      (rootdir path : Text) (dir : Bool) (w : os.World)
      → Plain dir (make_nocase os rootdir (gen_path path dir) dir w).0
  unfolding make_nocase
  make_nocase-Plain rootdir path dir w = go _ (
      nocase_loop-Rendered os rootdir (b'/' ∷ []) (split_path (gen_path path dir)) dir w
        (split_path-IsName path dir))
    where
      go :
          (o : Option Text)
          → Rendered dir (split_path (gen_path path dir)) (b'/' ∷ []) o
          → Plain dir (elim o as (λ _. Text) [ none ↦ gen_path path dir | some retpath ↦ retpath ])
      go none h = gen_path-Plain path dir
      go (some retpath) (names, _, e, h) = (names, e, h)

  host_path-Plain :
      (g : Setup) (drive : HostDrive) (path : Text) (dir : Bool) (w : os.World)
      → Plain dir (host_path os g drive path dir w).0
  unfolding host_path
  host_path-Plain g drive path dir w = elim (Bool-cases g.nocase) [
    | inl e ↦ rw e (make_nocase-Plain drive.rootdir _ dir w)
    | inr e ↦ rw e (gen_path-Plain _ dir)
  ]

  drive_path-Confined :
      (g : Setup) (drive : HostDrive) (path : Text) (dir : Bool) (w : os.World)
      → IsRoot drive.rootdir
      → Confined drive.rootdir (drive_path os g drive path dir w).0
  unfolding drive_path
  drive_path-Confined g drive path dir w r =
      elim (Bool-cases (leb path_max (length (drive.currdir ++ path)))) [
        | inl e ↦ rw e tt
        | inr e ↦
            elim (Bool-cases (
              leb path_max
                (length (drive.rootdir ++ b'/' ∷ (host_path os g drive path dir w).0)))) [
                  | inl long ↦ rw (e, long) tt
                  | inr short ↦
                      rw (e, short)
                        (Below-root drive.rootdir (host_path os g drive path dir w).0 dir r
                          (host_path-Plain g drive path dir w))
                ]
      ]

  -- A path that the device names, with any `.`, `..`, slashes and backslashes, from any directory
  -- that it changed to and with the case of the names ignored or not, becomes a path whose pieces
  -- are those of the drive's root and plain names behind them, or none.
  pub make_path-Confined :
      (g : Setup) (drive : ℕ) (path : Text) (dir : Bool) (w : os.World)
      → All (λ d. IsRoot d.rootdir) g.drives
      → Confined (get_or g.drives drive no_drive).rootdir (make_path os g drive path dir w).0
  unfolding make_path
  make_path-Confined g drive path dir w roots = elim (Bool-cases (leb max_hostdrives drive)) [
    | inl e ↦ rw e tt
    | inr e ↦ rw e (
        drive_path-Confined g (get_or g.drives drive no_drive) path dir w
          (get_or-IsRoot g.drives drive roots))
  ]
