-- ===== src/HostFs/Paths/Exact.antt =====
-- The path that `make_path` makes, exactly.
use psplink.Base.{Bool, List, ◌∷◌, ◌++◌, Text}
use psplink.HostFs.Paths.Tokens.{tokens, render}

-- The path of the names behind the root.
abbrev full_path : Text → List Text → Bool → Text
full_path root names dir = b'/' ∷ render dir (tokens root ++ names)
