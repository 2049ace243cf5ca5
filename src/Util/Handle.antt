-- ===== src/Util/Handle.antt =====
-- psplink/util.c: `handlepath` and `isdir`, for paths that fit their buffers. `sceIoOpen` and `sceIoGetstat` are
-- parameters.
use psplink.Base.{
  Bool, true, false, [], ◌∷◌, ◌++◌, Option, none, some, ◌==◌, ◌&&◌, if◌then◌else◌, Text, ltb,
  length,
}
use psplink.Util.Chars.{is_aspace}
use psplink.Util.Path.{to_slash, normalize_path}

pub data PathType : Type 0 where
  type_file : PathType
  type_dir : PathType
  type_ether : PathType

-- What the calls of the kernel say of a path.
pub record Calls : Type 0 where
  -- `sceIoOpen(path, PSP_O_RDONLY, 0777)` gives a descriptor, which is closed again
  pub opens : Text → Bool
  -- `sceIoGetstat` succeeds, and the mode is that of a directory
  pub stats_dir : Text → Bool

-- `strchr(relative, ':') == NULL`
unfoldable pub has_no_device : Text → Bool
has_no_device [] = true
has_no_device (c ∷ s) = if c == b':' then false else has_no_device s

-- The current directory up to its first colon, this included.
unfoldable pub device_of : Text → Text
device_of [] = []
device_of (c ∷ s) = if c == b':' then c ∷ [] else c ∷ device_of s

unfoldable pub starts_with_slash : Text → Bool
starts_with_slash [] = false
starts_with_slash (c ∷ s) = c == b'/'

-- What `relative` is appended to.
unfoldable pub base_of : Text → Text → Text
unfolding has_no_device device_of starts_with_slash
base_of currentdir relative =
    if has_no_device relative
    then if starts_with_slash relative then device_of currentdir else currentdir
    else []

unfoldable pub without_end_space : Text → Text
unfolding is_aspace
without_end_space [] = []
without_end_space (c ∷ s) = elim (without_end_space s) [
  | [] ↦ if is_aspace c then [] else c ∷ []
  | d ∷ t ↦ c ∷ d ∷ t
]

-- `path[len-1] == '/'`
unfoldable pub ends_with_slash : Text → Bool
ends_with_slash [] = false
ends_with_slash (c ∷ []) = c == b'/'
ends_with_slash (c ∷ d ∷ s) = ends_with_slash (d ∷ s)

-- `path[len-1] = 0`
unfoldable pub without_last : Text → Text
without_last [] = []
without_last (c ∷ []) = []
without_last (c ∷ d ∷ s) = c ∷ without_last (d ∷ s)

unfoldable pub end_slash : PathType → Text → Text
unfolding ends_with_slash without_last
end_slash type_dir path = if ends_with_slash path then path else path ++ b'/' ∷ []
end_slash type_file path = if ends_with_slash path then without_last path else path
end_slash type_ether path = path

-- `localpath[len-2] == ':'` where the only slash is the last character.
unfoldable pub is_root : Text → Bool
unfolding to_slash
is_root [] = false
is_root (c ∷ []) = false
is_root (c ∷ d ∷ []) = c == b':' && d == b'/'
is_root (c ∷ d ∷ e ∷ s) = if c == b'/' then false else is_root (d ∷ e ∷ s)

unfoldable pub isdir : Calls → Text → Bool
unfolding ends_with_slash without_last is_root
isdir calls path =
    if ltb (length path) 2
    then false
    else if ends_with_slash path
    then if is_root path then true else calls.stats_dir (without_last path)
    else calls.stats_dir path

unfoldable pub is_accepted : Calls → PathType → Text → Bool
unfolding isdir
is_accepted calls type_dir path = isdir calls path
is_accepted calls type_file path = calls.opens path
is_accepted calls type_ether path = false

-- `none` where it returns 0; `valid` asks for the check.
unfoldable pub checked : Calls → PathType → Bool → Option Text → Option Text
unfolding is_accepted
checked calls type valid none = none
checked calls type false (some path) = some path
checked calls type true (some path) = if is_accepted calls type path then some path else none

unfoldable pub normalized_end : Calls → PathType → Bool → Text → Option Text
unfolding end_slash normalize_path checked
normalized_end calls type valid [] = none
normalized_end calls type valid (c ∷ s) =
    checked calls type valid (normalize_path (end_slash type (c ∷ s)))

unfoldable pub handlepath : Calls → Text → Text → PathType → Bool → Option Text
unfolding base_of without_end_space normalized_end
handlepath calls currentdir relative type valid =
    normalized_end calls type valid (without_end_space (base_of currentdir relative ++ relative))
