-- ===== src/HostFs/Paths/Tokens.antt =====
-- usbhostfs_pc/main.c: `gen_path`. The pieces of a path between its slashes, as `strtok` finds them,
-- and the path that they make again without `.` and `..`.
use psplink.Base.{ℕ, ◌-◌, Bool, List, [], ◌∷◌, ◌++◌, ◌==◌, if◌then◌else◌, Text, codes, take}
use psplink.Base.Texts.{text_eq}

-- A piece that `strtok` hands out is not empty.
abbrev pub keep : Text → List Text → List Text
keep [] rest = rest
keep (c ∷ first) rest = (c ∷ first) ∷ rest

-- What stands before the first slash, and the pieces behind it.
unfoldable pub pieces : Text → Text × List Text
pieces [] = ([], [])
pieces (c ∷ s) =
    let (first, rest) = pieces s in if c == b'/' then ([], keep first rest) else (c ∷ first, rest)

-- `strtok(path, "/")` until there is no more
unfoldable pub tokens : Text → List Text
tokens s = let (first, rest) = pieces s in keep first rest

-- `tokens[MAX_TOKENS]` has room for one piece less, since the loop ends at `count == MAX_TOKENS-1`.
abbrev pub max_tokens : ℕ
max_tokens = 256

abbrev pub split_path : Text → List Text
split_path path = take (max_tokens - 1) (tokens path)

abbrev pub drop_last : List Text → List Text
drop_last [] = []
drop_last (t ∷ []) = []
drop_last (t ∷ u ∷ ts) = t ∷ drop_last (u ∷ ts)

-- One round of the loop that fills `outtokens`.
unfoldable pub place : List Text → Text → List Text
place out t =
    if text_eq t (codes ".")
    then out
    else if text_eq t (codes "..")
    then drop_last out
    else out ++ t ∷ []

unfoldable pub walk : List Text → List Text → List Text
walk out [] = out
walk out (t ∷ ts) = walk (place out t) ts

-- A slash behind each piece, behind the last one for a directory only.
unfoldable pub render : Bool → List Text → Text
render dir [] = []
render dir (t ∷ []) = t ++ (if dir then b'/' ∷ [] else [])
render dir (t ∷ u ∷ ts) = t ++ b'/' ∷ render dir (u ∷ ts)

unfoldable pub gen_path : Text → Bool → Text
gen_path path dir = b'/' ∷ render dir (walk [] (split_path path))
