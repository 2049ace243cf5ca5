-- ===== src/Util/Stack.antt =====
-- `normalize_path` against a stack of directories.
use psplink.Base.{
  ℕ, zero, suc, ◌≡◌, ◌≤◌, refl, sym, ap, ◌∙◌, false, List, [], ◌∷◌, ◌++◌, Option, none, some, ◌==◌,
  if◌then◌else◌, Text, codes, length, All, arith, inl, inr, Bool-cases,
}
use psplink.Util.Segments.{
  segments, NoSlash, Shorter, describe, segments-to_slash, to_slash-NoSlash, to_slash-cons,
  to_slash-Shorter,
}
use psplink.Util.Path.{
  to_slash, matches, before_last, pop_dir, pass_segment, normalize_loop, normalize_path,
}

abbrev pub pop : List Text → List Text
pop [] = []
pop (d ∷ []) = []
pop (d ∷ e ∷ ds) = d ∷ pop (e ∷ ds)

-- An empty segment and `.` stay, `..` goes up, and any other goes down.
abbrev pub through : List Text → Text → List Text
through stack d =
    if matches (b'/' ∷ d) (codes "/.")
    then stack
    else if matches (b'/' ∷ d) (codes "/..")
    then pop stack
    else stack ++ d ∷ []

unfoldable pub go_through : List Text → List Text → List Text
go_through stack [] = stack
go_through stack (d ∷ dirs) = go_through (through stack d) dirs

-- The device, and each directory of the stack behind a slash.
abbrev pub trail : Text → List Text → Text
trail device [] = device
trail device (d ∷ dirs) = trail (device ++ b'/' ∷ d) dirs

trail-append :
    (device : Text) (dirs : List Text) (d : Text)
    → trail device (dirs ++ d ∷ []) ≡ trail device dirs ++ b'/' ∷ d
trail-append device [] d = refl
trail-append device (e ∷ dirs) d = trail-append (device ++ b'/' ∷ e) dirs d

before_last-none : (t : Text) → NoSlash t → before_last t ≡ none
unfolding before_last
before_last-none [] h = refl
before_last-none (c ∷ t) (e, h) = rw (before_last-none t h, e) refl

before_last-slash : (s t : Text) → NoSlash t → before_last (s ++ b'/' ∷ t) ≡ some s
unfolding before_last
before_last-slash [] t h = rw (before_last-none t h) refl
before_last-slash (c ∷ s) t h = rw (before_last-slash s t h) refl

pop_dir-slash : (c : ℕ) (s t : Text) → NoSlash t → pop_dir ((c ∷ s) ++ b'/' ∷ t) ≡ c ∷ s
unfolding pop_dir
pop_dir-slash c s t h = rw (pop_dir, before_last-slash s t h) refl

pop_dir-none : (c : ℕ) (s : Text) → NoSlash s → pop_dir (c ∷ s) ≡ c ∷ s
unfolding pop_dir
pop_dir-none c s h = rw (pop_dir, before_last-none s h) refl

-- The part before `last_dir` is never empty.
trail-cons :
    (c : ℕ) (device : Text) (dirs : List Text) → (t : Text) × (trail (c ∷ device) dirs ≡ c ∷ t)
trail-cons c device [] = (device, refl)
trail-cons c device (d ∷ dirs) = trail-cons c (device ++ b'/' ∷ d) dirs

pop_dir-last :
    (c : ℕ) (device d : Text) (dirs : List Text)
    → All NoSlash (d ∷ dirs)
    → pop_dir (trail (c ∷ device) (d ∷ dirs)) ≡ trail (c ∷ device) (pop (d ∷ dirs))
pop_dir-last c device d [] h = pop_dir-slash c device d h.0
pop_dir-last c device d (e ∷ dirs) h = pop_dir-last c (device ++ b'/' ∷ d) e dirs h.1

All-NoSlash-append :
    (dirs : List Text) (d : Text) → All NoSlash dirs → NoSlash d → All NoSlash (dirs ++ d ∷ [])
All-NoSlash-append [] d h k = (k, tt)
All-NoSlash-append (e ∷ dirs) d (g, h) k = (g, All-NoSlash-append dirs d h k)

pop-NoSlash : (dirs : List Text) → All NoSlash dirs → All NoSlash (pop dirs)
pop-NoSlash [] h = tt
pop-NoSlash (d ∷ []) h = tt
pop-NoSlash (d ∷ e ∷ dirs) (g, h) = (g, pop-NoSlash (e ∷ dirs) h)

pub through-NoSlash :
    (dirs : List Text) (d : Text) → All NoSlash dirs → NoSlash d → All NoSlash (through dirs d)
through-NoSlash dirs d h k = elim (Bool-cases (matches (b'/' ∷ d) (codes "/."))) [
  | inl e ↦ rw e h
  | inr e ↦ elim (Bool-cases (matches (b'/' ∷ d) (codes "/.."))) [
    | inl f ↦ rw (e, f) (pop-NoSlash dirs h)
    | inr f ↦ rw (e, f) (All-NoSlash-append dirs d h k)
  ]
]

module _ (c : ℕ) (device : Text) (plain : NoSlash (c ∷ device)) where
  pop_dir-trail :
      (dirs : List Text)
      → All NoSlash dirs
      → pop_dir (trail (c ∷ device) dirs) ≡ trail (c ∷ device) (pop dirs)
  pop_dir-trail [] h = pop_dir-none c device plain.1
  pop_dir-trail (d ∷ dirs) h = pop_dir-last c device d dirs h

  pass_segment-trail :
      (dirs : List Text) (d : Text)
      → All NoSlash dirs
      → pass_segment (trail (c ∷ device) dirs) d ≡ trail (c ∷ device) (through dirs d)
  unfolding pass_segment
  pass_segment-trail dirs d h = elim (Bool-cases (matches (b'/' ∷ d) (codes "/."))) [
    | inl e ↦ rw (pass_segment, e) refl
    | inr e ↦ elim (Bool-cases (matches (b'/' ∷ d) (codes "/.."))) [
      | inl f ↦ rw (pass_segment, e, f) (pop_dir-trail dirs h)
      | inr f ↦ rw (pass_segment, e, f) (sym (trail-append (c ∷ device) dirs d))
    ]
  ]

  walked : List Text → List Text × Text → Text
  walked stack (dirs, last) = trail (c ∷ device) (go_through stack dirs) ++ b'/' ∷ last

  -- The loop walks the segments, with this fuel.
  Walks : ℕ → Type 0
  Walks fuel =
      (stack : List Text) (s : Text)
      → length s ≤ fuel
      → All NoSlash stack
      → normalize_loop fuel (trail (c ∷ device) stack) s ≡ walked stack (segments s)

  Walks-suc :
      {fuel : ℕ} (stack : List Text) (s first : Text) (o : Option Text)
      → Walks fuel
      → to_slash s ≡ (first, o)
      → length s ≤ suc fuel
      → Shorter s o
      → NoSlash first
      → All NoSlash stack
      → normalize_loop (suc fuel) (trail (c ∷ device) stack) s ≡ walked stack (segments s)
  unfolding normalize_loop go_through describe walked Walks
  Walks-suc stack s first none walks e h short plain_first k =
      rw (normalize_loop, segments-to_slash s, e) refl
  Walks-suc stack s first (some s') walks e h short plain_first k =
      rw (normalize_loop, segments-to_slash s, e, ap (λ p. p.0) e, pass_segment-trail stack first k)
        (walks (through stack first) s' (omega arith) (through-NoSlash stack first k plain_first))

  normalize_loop-Walks : (fuel : ℕ) → Walks fuel
  unfolding normalize_loop go_through segments walked Walks
  normalize_loop-Walks zero stack [] h k = refl
  normalize_loop-Walks zero stack (d ∷ s) h k = absurd (omega arith)
  normalize_loop-Walks (suc fuel) stack s h k =
      Walks-suc stack s (to_slash s).0 (to_slash s).1 (normalize_loop-Walks fuel) refl h
        (to_slash-Shorter s) (to_slash-NoSlash s) k

-- A path that starts with a slash has none; one without a slash is as it was; else the first segment is
-- the device, and the others, but for the last, are walked.
unfoldable pub normalized : List Text × Text → Option Text
unfolding go_through
normalized ([], last) = some last
normalized ([] ∷ dirs, last) = none
normalized ((c ∷ device) ∷ dirs, last) =
    some (trail (c ∷ device) (go_through [] dirs) ++ b'/' ∷ last)

normalize_path-first :
    (c : ℕ) (path first : Text) (o : Option Text)
    → (c == b'/') ≡ false
    → to_slash path ≡ (first, o)
    → NoSlash first
    → normalize_path (c ∷ path) ≡ normalized (describe (c ∷ path) (c ∷ first, o))
unfolding normalize_path to_slash describe normalized Walks walked segments
normalize_path-first c path first none e f plain = rw (normalize_path, to_slash, e, f) refl
normalize_path-first c path first (some s) e f plain =
    rw (normalize_path, to_slash, e, f, e, ap (λ p. p.0) f)
      (ap some (normalize_loop-Walks c first (e, plain) (length s) [] s (omega arith) tt))

-- For any path, `normalize_path` refuses one that starts with a slash, keeps one without a slash, and else keeps
-- the first segment and what stands behind the last slash and walks the segments between them on a stack of
-- directories: an empty one and `.` stay, `..` leaves the top one, and any other is put on top.
pub normalize_path-stack : (path : Text) → normalize_path path ≡ normalized (segments path)
unfolding normalize_path segments normalized
normalize_path-stack [] = refl
normalize_path-stack (c ∷ path) = elim (Bool-cases (c == b'/')) [
  | inl e ↦ rw (normalize_path, segments, e) refl
  | inr e ↦
      normalize_path-first c path (to_slash path).0 (to_slash path).1 e refl (to_slash-NoSlash path)
      ∙ ap normalized
          (sym (segments-to_slash (c ∷ path) ∙ ap (describe (c ∷ path)) (to_slash-cons c path e)))
]
