-- ===== src/ParseArgs/Tests.antt =====
-- Runs of the parser.
use psplink.Base.{arith, ◌≡◌, refl, [], ◌∷◌, ◌++◌, codes}
use psplink.Util.Chars.{upcase, is_oct, oct_to_int, is_hex, hex_to_int, is_aspace}
use psplink.ParseArgs.{
  hex_run, decode_hex, oct_run, decode_oct, escape, skip_spaces, blank, quote, dispatch, rejected,
  parsed, finish, loop, parse_args,
}
use psplink.ParseArgs.Plain.{IsWord, spaced, terminated, starts, parse_args-words}
use psplink.ParseArgs.Bounds.{Fits, parse_args-Fits}

quoted_line :
    parse_args (codes "  ls 'a b' \\x41 ") 16
    ≡ parsed (codes "ls" ++ 0 ∷ (codes "a b" ++ 0 ∷ (codes "A" ++ 0 ∷ 0 ∷ []))) (7 ∷ 3 ∷ 0 ∷ [])
unfolding parse_args loop dispatch blank quote escape skip_spaces decode_hex hex_run decode_oct
    oct_run finish upcase is_oct oct_to_int is_hex hex_to_int is_aspace
quoted_line = refl

full_line :
    parse_args (codes "a b c d") 3
    ≡ parsed (codes "a" ++ 0 ∷ (codes "b" ++ 0 ∷ 0 ∷ [])) (2 ∷ 0 ∷ [])
unfolding parse_args loop dispatch blank quote escape skip_spaces finish is_aspace
full_line = refl

open_quote : parse_args (codes "a 'b") 16 ≡ rejected
unfolding parse_args loop dispatch blank quote escape skip_spaces finish is_aspace
open_quote = refl

parse_args-Fits_example : Fits 7 3 (parse_args (codes "a b c d") 3)
parse_args-Fits_example = parse_args-Fits (codes "a b c d") 3

ls-IsWord : IsWord (codes "ls")
unfolding is_aspace
ls-IsWord = (refl, ((refl, refl, refl, refl, refl), ((refl, refl, refl, refl, refl), tt)))

ms0-IsWord : IsWord (codes "ms0:/")
unfolding is_aspace
ms0-IsWord = (
  refl,
  (
    (refl, refl, refl, refl, refl),
    (
      (refl, refl, refl, refl, refl),
      (
        (refl, refl, refl, refl, refl),
        ((refl, refl, refl, refl, refl), ((refl, refl, refl, refl, refl), tt)),
      ),
    ),
  ),
)

parse_args-words_example :
    parse_args (codes "ls" ++ spaced (codes "ms0:/" ∷ [])) 16
    ≡ parsed
        (codes "ls" ++ terminated (codes "ms0:/" ∷ []))
        (starts 2 (codes "ms0:/" ∷ []) (0 ∷ []))
parse_args-words_example =
    parse_args-words (codes "ls") (codes "ms0:/" ∷ []) 16 (ls-IsWord, (ms0-IsWord, tt))
      (omega arith)
