-- ===== src/Util/Ends.antt =====
-- psplink/util.c, `handlepath`: what the end of a text is, before and after its slash is seen to.
use psplink.Base.{
  ap, arith, ℕ, ◌≡◌, refl, sym, ◌∙◌, true, false, List, [], ◌∷◌, ◌++◌, ◌==◌, Text, inl, inr,
  Bool-cases,
}
use psplink.Util.Segments.{segments, longer}
use psplink.Util.Handle.{
  PathType, type_file, type_dir, type_ether, ends_with_slash, without_last, end_slash,
}

-- The name that a text ends with: what stands behind its last slash, or, where nothing does, before
-- it.
abbrev pub name_at_end : List Text × Text → Text
name_at_end ([], []) = []
name_at_end (d ∷ [], []) = d
name_at_end (d ∷ e ∷ dirs, []) = name_at_end (e ∷ dirs, [])
name_at_end (dirs, c ∷ last) = c ∷ last

-- Behind the last slash a directory has nothing, and a file the name that the text ends with, whose
-- slash is gone. Where the type does not matter the end is that of the text.
abbrev pub EndsAs : PathType → Text → Text → Type 0
EndsAs type_dir text path = (segments path).1 ≡ []
EndsAs type_file text path = (segments path).1 ≡ name_at_end (segments text)
EndsAs type_ether text path = (segments path).1 ≡ (segments text).1

-- A text that ends with a slash has a segment before it, and nothing behind.
abbrev pub EndsAtSlash : List Text × Text → Type 0
EndsAtSlash ([], last) = ⊥
EndsAtSlash (d ∷ dirs, last) = last ≡ []

pub longer-EndsAtSlash :
    (c : ℕ) (dirs : List Text) (last : Text)
    → EndsAtSlash (dirs, last)
    → EndsAtSlash (longer c dirs last)
longer-EndsAtSlash c [] last h = absurd h
longer-EndsAtSlash c (d ∷ dirs) last h = h

pub cons-EndsAtSlash : (dirs : List Text) (last : Text) → EndsAtSlash (dirs, last) → last ≡ []
cons-EndsAtSlash [] last h = absurd h
cons-EndsAtSlash (d ∷ dirs) last h = h

pub segments-EndsAtSlash : (s : Text) → ends_with_slash s ≡ true → EndsAtSlash (segments s)
unfolding segments ends_with_slash
segments-EndsAtSlash [] h = absurd (cc)
segments-EndsAtSlash (c ∷ []) h = rw (segments, h) refl
segments-EndsAtSlash (c ∷ d ∷ s) h = elim (Bool-cases (c == b'/')) [
  | inl e ↦
      rw (segments, e)
        (cons-EndsAtSlash (segments (d ∷ s)).0 (segments (d ∷ s)).1
          (segments-EndsAtSlash (d ∷ s) h))
  | inr e ↦
      rw (segments, e)
        (longer-EndsAtSlash c (segments (d ∷ s)).0 (segments (d ∷ s)).1
          (segments-EndsAtSlash (d ∷ s) h))
]

pub ends_with_slash-append : (s : Text) → ends_with_slash (s ++ b'/' ∷ []) ≡ true
unfolding ends_with_slash
ends_with_slash-append [] = refl
ends_with_slash-append (c ∷ []) = refl
ends_with_slash-append (c ∷ d ∷ s) = ends_with_slash-append (d ∷ s)

pub end_slash-ends : (path : Text) → ends_with_slash (end_slash type_dir path) ≡ true
unfolding end_slash
end_slash-ends path = elim (Bool-cases (ends_with_slash path)) [
  | inl e ↦ rw (end_slash, e) e
  | inr e ↦ rw (end_slash, e) (ends_with_slash-append path)
]

-- One slash more ends the last segment.
pub longer-snoc :
    (c : ℕ) (dirs : List Text) (last : Text)
    → longer c (dirs ++ last ∷ []) [] ≡ ((longer c dirs last).0 ++ (longer c dirs last).1 ∷ [], [])
longer-snoc c [] last = refl
longer-snoc c (d ∷ dirs) last = refl

pub segments-snoc :
    (s : Text) → segments (s ++ b'/' ∷ []) ≡ ((segments s).0 ++ (segments s).1 ∷ [], [])
unfolding segments
segments-snoc [] = refl
segments-snoc (c ∷ s) = elim (Bool-cases (c == b'/')) [
  | inl e ↦ rw (segments, e, segments-snoc s) refl
  | inr e ↦ rw (segments, e, segments-snoc s) (longer-snoc c (segments s).0 (segments s).1)
]

pub name_at_end-snoc : (dirs : List Text) (last : Text) → name_at_end (dirs ++ last ∷ [], []) ≡ last
name_at_end-snoc [] last = refl
name_at_end-snoc (d ∷ []) last = refl
name_at_end-snoc (d ∷ e ∷ dirs) last = name_at_end-snoc (e ∷ dirs) last

pub without_last-slash : (s : Text) → ends_with_slash s ≡ true → without_last s ++ b'/' ∷ [] ≡ s
unfolding ends_with_slash without_last
without_last-slash [] h = absurd (cc)
without_last-slash (c ∷ []) h = let e : (c == b'/') ≡ true = h in ground arith
without_last-slash (c ∷ d ∷ s) h = ap (λ t. c ∷ t) (without_last-slash (d ∷ s) h)

-- Something stands behind the last slash.
abbrev pub EndsInName : List Text × Text → Type 0
EndsInName (dirs, []) = ⊥
EndsInName (dirs, c ∷ last) = Unit

pub longer-EndsInName :
    (c : ℕ) (dirs : List Text) (last : Text)
    → EndsInName (dirs, last)
    → EndsInName (longer c dirs last)
longer-EndsInName c [] last h = tt
longer-EndsInName c (d ∷ dirs) [] h = absurd h
longer-EndsInName c (d ∷ dirs) (e ∷ last) h = tt

pub cons-EndsInName :
    (d : Text) (dirs : List Text) (last : Text)
    → EndsInName (dirs, last)
    → EndsInName (d ∷ dirs, last)
cons-EndsInName d dirs [] h = absurd h
cons-EndsInName d dirs (e ∷ last) h = tt

pub segments-EndsInName :
    (c : ℕ) (s : Text) → ends_with_slash (c ∷ s) ≡ false → EndsInName (segments (c ∷ s))
unfolding segments ends_with_slash
segments-EndsInName c [] h = rw (segments, h) tt
segments-EndsInName c (d ∷ s) h =
    let rest = segments-EndsInName d s h in
    elim (Bool-cases (c == b'/')) [
      | inl e ↦ rw (segments, e) (cons-EndsInName [] (segments (d ∷ s)).0 (segments (d ∷ s)).1 rest)
      | inr e ↦
          rw (segments, e) (longer-EndsInName c (segments (d ∷ s)).0 (segments (d ∷ s)).1 rest)
    ]

pub name_at_end-EndsInName :
    (dirs : List Text) (last : Text) → EndsInName (dirs, last) → last ≡ name_at_end (dirs, last)
name_at_end-EndsInName dirs [] h = absurd h
name_at_end-EndsInName [] (c ∷ last) h = refl
name_at_end-EndsInName (d ∷ []) (c ∷ last) h = refl
name_at_end-EndsInName (d ∷ e ∷ dirs) (c ∷ last) h = refl

pub end_slash-name : (s : Text) → (segments (end_slash type_file s)).1 ≡ name_at_end (segments s)
unfolding end_slash segments ends_with_slash
end_slash-name [] = refl
end_slash-name (c ∷ s) = elim (Bool-cases (ends_with_slash (c ∷ s))) [
  | inl e ↦
      let t = without_last (c ∷ s) in
      rw (end_slash, e)
        (sym (name_at_end-snoc (segments t).0 (segments t).1)
          ∙ ap name_at_end (sym (segments-snoc t) ∙ ap segments (without_last-slash (c ∷ s) e)))
  | inr e ↦
      rw (end_slash, e)
        (name_at_end-EndsInName (segments (c ∷ s)).0 (segments (c ∷ s)).1
          (segments-EndsInName c s e))
]

pub end_slash-EndsAs :
    (type : PathType) (path p : Text)
    → (segments p).1 ≡ (segments (end_slash type path)).1
    → EndsAs type path p
unfolding end_slash
end_slash-EndsAs type_dir path p e =
    let s = segments (end_slash type_dir path) in
    e
    ∙ cons-EndsAtSlash s.0 s.1
        (segments-EndsAtSlash (end_slash type_dir path) (end_slash-ends path))
end_slash-EndsAs type_file path p e = e ∙ end_slash-name path
end_slash-EndsAs type_ether path p e = e
