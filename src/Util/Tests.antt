-- ===== src/Util/Tests.antt =====
-- Runs of `normalize_path`, and the theorem at a path with every kind of segment.
use psplink.Base.{◌≡◌, refl, true, false, none, some, ◌++◌, Text, codes}
use psplink.Base.Texts.{text_eq}
use psplink.Util.Handle.{Calls, type_dir, type_file, handlepath, base_of, without_end_space}
use psplink.Util.Handled.{IsHandled, handlepath-IsHandled}
use psplink.Util.Path.{normalize_path}
use psplink.Util.Segments.{segments}
use psplink.Util.Stack.{normalized, normalize_path-stack}

abbrev up_and_down : Text
up_and_down = codes "ms0:/a/b/../c//./d.txt"

cleaned : normalize_path up_and_down ≡ some (codes "ms0:/a/c/d.txt")
unfolding normalize_path
cleaned = refl

-- the device stays, and the last segment is not looked at
above_device : normalize_path (codes "ms0:/../..") ≡ some (codes "ms0:/..")
unfolding normalize_path
above_device = refl

absolute : normalize_path (codes "/a/") ≡ none
unfolding normalize_path
absolute = refl

normalize_path-stack_example : normalize_path up_and_down ≡ normalized (segments up_and_down)
normalize_path-stack_example = normalize_path-stack up_and_down

-- A host where `ms0:/psp/` is a directory and nothing can be opened.
abbrev a_host : Calls
a_host = record { opens = λ _. false; stats_dir = λ path. text_eq path (codes "ms0:/psp") }

changed :
    handlepath a_host (codes "ms0:/psp/game/") (codes ".. ") type_dir true
    ≡ some (codes "ms0:/psp/")
unfolding handlepath text_eq
changed = refl

not_there : handlepath a_host (codes "ms0:/psp/") (codes "/a.prx") type_file true ≡ none
unfolding handlepath
not_there = refl

abbrev walked : Text
walked = codes "ms0:/psp/game/"

handlepath-IsHandled_example :
    let text = without_end_space (base_of walked (codes ".././ ") ++ codes ".././ ") in
    IsHandled a_host type_dir true text (handlepath a_host walked (codes ".././ ") type_dir true)
handlepath-IsHandled_example = handlepath-IsHandled a_host walked (codes ".././ ") type_dir true
