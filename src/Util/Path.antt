-- ===== src/Util/Path.antt =====
-- psplink/util.c: `normalize_path`, on the text of a path. The part before `last_dir` and the segment
-- between `last_dir` and `curr_pos` are texts of their own.
use psplink.Base.{
  ℕ, zero, suc, Bool, true, false, [], ◌∷◌, ◌++◌, Option, none, some, ◌==◌, ◌&&◌, if◌then◌else◌,
  Text, codes, length,
}

-- `strchr(path, '/')`: the text before the first slash, and what stands behind it.
unfoldable pub to_slash : Text → Text × Option Text
to_slash [] = ([], none)
to_slash (c ∷ s) =
    let (first, rest) = to_slash s in if c == b'/' then ([], some s) else (c ∷ first, rest)

-- `strncmp(segment, literal, n) == 0` for a segment of `n` characters, none of them NUL.
unfoldable pub matches : Text → Text → Bool
matches [] literal = true
matches (c ∷ s) [] = false
matches (c ∷ s) (d ∷ literal) = c == d && matches s literal

-- The text before its last slash, if it has one.
unfoldable pub before_last : Text → Option Text
before_last [] = none
before_last (c ∷ s) = elim (before_last s) [
  | some t ↦ some (c ∷ t)
  | none ↦ if c == b'/' then some [] else none
]

-- The search of `last_pos`, which does not look at the first character.
unfoldable pub pop_dir : Text → Text
unfolding before_last
pop_dir [] = []
pop_dir (c ∷ s) = elim (before_last s) [ some t ↦ c ∷ t | none ↦ c ∷ s ]

-- What becomes of the part before `last_dir` at the segment behind it.
unfoldable pub pass_segment : Text → Text → Text
unfolding matches pop_dir
pass_segment kept segment =
    if matches (b'/' ∷ segment) (codes "/.")
    then kept
    else if matches (b'/' ∷ segment) (codes "/..")
    then pop_dir kept
    else kept ++ b'/' ∷ segment

-- The loop, with what stands behind the slash at `curr_pos`.
unfoldable pub normalize_loop : ℕ → Text → Text → Text
unfolding to_slash pass_segment
normalize_loop zero kept s = kept ++ b'/' ∷ s
normalize_loop (suc fuel) kept s =
    let (segment, rest) = to_slash s in
    elim rest [
      | none ↦ kept ++ b'/' ∷ s
      | some s' ↦ normalize_loop fuel (pass_segment kept segment) s'
    ]

-- `none` where it returns 0; the buffer is then as it was.
unfoldable pub normalize_path : Text → Option Text
unfolding normalize_loop
normalize_path [] = some []
normalize_path (c ∷ path) =
    if c == b'/'
    then none
    else let (first, rest) = to_slash (c ∷ path) in
      elim rest [ none ↦ some (c ∷ path) | some s ↦ some (normalize_loop (length s) first s) ]
