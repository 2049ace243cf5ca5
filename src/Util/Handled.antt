-- ===== src/Util/Handled.antt =====
-- What a path of `handlepath` is worth.
use psplink.Base.{
  ℕ, ◌≡◌, refl, sym, ◌∙◌, Bool, true, false, List, [], ◌∷◌, ◌++◌, Option, none, some, ◌==◌, ◌||◌,
  Text, not, inl, inr, Bool-cases,
}
use psplink.Util.Path.{normalize_path}
use psplink.Util.Segments.{segments, longer}
use psplink.Util.Stack.{normalized, normalize_path-stack}
use psplink.Util.Clean.{IsClean, Keeps, normalize_path-Keeps}
use psplink.Util.Handle.{
  PathType, type_file, type_dir, type_ether, Calls, ends_with_slash, without_last,
  starts_with_slash, end_slash, is_accepted, checked, normalized_end, handlepath, base_of,
  without_end_space,
}
use psplink.Util.Ends.{EndsAs, end_slash-EndsAs}

-- An empty path, and one that starts with a slash.
abbrev pub is_nowhere : Text → Bool
is_nowhere [] = true
is_nowhere (c ∷ s) = c == b'/'

-- The path is clean, ends as its type wants, and has passed the check if that was asked for; without a check only a
-- text that leads nowhere has no path.
abbrev pub IsHandled : Calls → PathType → Bool → Text → Option Text → Type 0
IsHandled calls type valid text none = (valid || is_nowhere text) ≡ true
IsHandled calls type valid text (some path) =
    IsClean (segments path)
    × EndsAs type text path
    × ((not valid || is_accepted calls type path) ≡ true)

-- Only a path that starts with a slash is refused.
abbrev Refused : Text → Option Text → Type 0
Refused path none = starts_with_slash path ≡ true
Refused path (some p) = Unit

longer-Refused :
    (c : ℕ) (dirs : List Text) (last path : Text) → Refused path (normalized (longer c dirs last))
unfolding normalized
longer-Refused c [] last path = tt
longer-Refused c (d ∷ dirs) last path = tt

normalize_path-Refused : (path : Text) → Refused path (normalize_path path)
unfolding segments normalized starts_with_slash
normalize_path-Refused [] = rw (normalize_path-stack []) tt
normalize_path-Refused (c ∷ s) = elim (Bool-cases (c == b'/')) [
  | inl e ↦ rw (normalize_path-stack (c ∷ s), segments, e) e
  | inr e ↦
      rw (normalize_path-stack (c ∷ s), segments, e)
        (longer-Refused c (segments s).0 (segments s).1 (c ∷ s))
]

starts_with_slash-end_slash :
    (type : PathType) (c : ℕ) (s : Text)
    → starts_with_slash (end_slash type (c ∷ s)) ≡ true
    → (c == b'/') ≡ true
unfolding end_slash starts_with_slash without_last
starts_with_slash-end_slash type_dir c s = elim (Bool-cases (ends_with_slash (c ∷ s))) [
  | inl e ↦ rw (end_slash, e) (λ h. h)
  | inr e ↦ rw (end_slash, e) (λ h. h)
]
starts_with_slash-end_slash type_file c [] = elim (Bool-cases (ends_with_slash (c ∷ []))) [
  | inl e ↦ rw (end_slash, e) (λ h. refl)
  | inr e ↦ rw (end_slash, e) (λ h. sym e ∙ h)
]
starts_with_slash-end_slash type_file c (d ∷ s) = elim (Bool-cases (ends_with_slash (c ∷ d ∷ s))) [
  | inl e ↦ rw (end_slash, e) (λ h. h)
  | inr e ↦ rw (end_slash, e) (λ h. h)
]
starts_with_slash-end_slash type_ether c s = λ h. h

checked-IsHandled :
    (calls : Calls) (type : PathType) (valid : Bool) (c : ℕ) (s : Text) (o : Option Text)
    → Keeps (segments (end_slash type (c ∷ s))).1 o
    → Refused (end_slash type (c ∷ s)) o
    → IsHandled calls type valid (c ∷ s) (checked calls type valid o)
unfolding checked
checked-IsHandled calls type true c s none h r = refl
checked-IsHandled calls type false c s none h r = starts_with_slash-end_slash type c s r
checked-IsHandled calls type false c s (some p) (h, e) r =
    (h, end_slash-EndsAs type (c ∷ s) p e, refl)
checked-IsHandled calls type true c s (some p) (h, e) r =
    elim (Bool-cases (is_accepted calls type p)) [
      | inl f ↦ rw (checked, f) (h, end_slash-EndsAs type (c ∷ s) p e, f)
      | inr f ↦ rw (checked, f) refl
    ]

normalized_end-IsHandled :
    (calls : Calls) (type : PathType) (valid : Bool) (text : Text)
    → IsHandled calls type valid text (normalized_end calls type valid text)
unfolding normalized_end
normalized_end-IsHandled calls type true [] = refl
normalized_end-IsHandled calls type false [] = refl
normalized_end-IsHandled calls type valid (c ∷ s) =
    let path = end_slash type (c ∷ s) in
    checked-IsHandled calls type valid c s (normalize_path path) (normalize_path-Keeps path)
      (normalize_path-Refused path)

-- Where `handlepath` gives a path, no segment between the first and the last is empty, `.` or `..`. Behind its last
-- slash a directory has nothing, and a file has the name that the text ends with, the one slash at its end taken
-- off (of two slashes the first stays, so that this name is empty); with no type wanted the end is the text's. If the path was to be valid, `isdir` or `sceIoOpen`, as its
-- type wants, has accepted it. Where no check was asked for, it gives a path unless the text of the current
-- directory and the relative path, its end stripped, is empty or starts with a slash.
pub handlepath-IsHandled :
    (calls : Calls) (currentdir relative : Text) (type : PathType) (valid : Bool)
    → let text = without_end_space (base_of currentdir relative ++ relative) in
      IsHandled calls type valid text (handlepath calls currentdir relative type valid)
unfolding handlepath
handlepath-IsHandled calls currentdir relative type valid =
    normalized_end-IsHandled calls type valid
      (without_end_space (base_of currentdir relative ++ relative))
