-- ===== src/Device/Spread.antt =====
-- Data that are written to a buffer piece by piece.
use psplink.Base.{
  ℕ, zero, suc, ◌+◌, ◌≡◌, ◌<◌, refl, sym, ap, ap₂, ◌∙◌, false, [], ◌∷◌, ◌++◌, append_assoc, ltb,
  Text, length, length-append, take, drop, arith,
}
use psplink.HostFs.Safety.Contents.{drop-more}
use psplink.Device.Driver.{Progress, overlay}

-- A buffer whose first bytes were written.
abbrev pub spread : Text → Text → Text
spread got buf = got ++ drop (length got) buf

abbrev pub so_far : Text → Text → Progress
so_far got buf = record { ret = length got; buf = spread got buf }

take-length_append : (xs ys : Text) → take (length xs) (xs ++ ys) ≡ xs
take-length_append [] ys = refl
take-length_append (x ∷ xs) ys = ap (λ zs. x ∷ zs) (take-length_append xs ys)

drop-length_append : (xs ys : Text) (n : ℕ) → drop (length xs + n) (xs ++ ys) ≡ drop n ys
drop-length_append [] ys n = ap (λ k. drop k ys) (omega arith)
drop-length_append (x ∷ xs) ys n =
    let one : length (x ∷ xs) + n ≡ suc (length xs + n) = omega arith in
    ap (λ k. drop k (x ∷ (xs ++ ys))) one ∙ drop-length_append xs ys n

pub drop-drop : (k n : ℕ) (t : Text) → drop n (drop k t) ≡ drop (k + n) t
drop-drop k n t =
    ap (λ m. drop m (drop k t)) (omega arith) ∙ sym (drop-more k (k + n) t (omega arith))

pub overlay-spread :
    (done got buf : Text) → overlay (length done) got (spread done buf) ≡ spread (done ++ got) buf
overlay-spread done got buf =
    ap₂ (λ a b. a ++ (got ++ b)) (take-length_append done (drop (length done) buf))
      (drop-length_append done (drop (length done) buf) (length got)
        ∙ drop-drop (length done) (length got) buf
        ∙ ap (λ n. drop n buf) (sym (length-append done got)))
    ∙ sym (append_assoc done got (drop (length (done ++ got)) buf))

pub empty_take : (n : ℕ) (t : Text) → 0 < n → ltb 0 (length (take n t)) ≡ false → t ≡ []
empty_take zero t h e = absurd (omega arith)
empty_take (suc n) [] h e = refl
empty_take (suc n) (c ∷ t) h e = absurd (ground arith)
