-- ===== src/HostFs/Safety/Stores.antt =====
-- `fixed_write` on a file whose writes may be short.
use psplink.Base.{
  ℕ, zero, suc, ◌+◌, ◌-◌, ◌≡◌, ◌≤◌, ◌<◌, ◌⊎◌, inl, inr, refl, sym, ap, ◌∙◌, false, [], ◌∷◌, ◌++◌,
  append-nil, append_assoc, Text, length, take, drop, arith, ◌==◌, ==_iff, Bool-cases,
}
use psplink.HostFs.Host.{done, Os}
use psplink.HostFs.Server.{Server, pure, ◌>>=◌, system, case_sys}
use psplink.HostFs.Transfer.{settle, fixed_write_loop, fixed_write}

-- A write adds some of the bytes behind those of the file, one at least where there are any: what
-- `write` does at the end of a file.
pub record Writes (os : Os) (fid : ℕ) (content : os.World → Text) : Type 0 where
  pub put : Text → os.World → ℕ
  pub tells : (t : Text) (w : os.World) → settle (os.write_fd fid t w).0 ≡ done (put t w)
  pub adds :
      (t : Text) (w : os.World) → content (os.write_fd fid t w).1 ≡ content w ++ take (put t w) t
  pub there : (t : Text) (w : os.World) → put t w ≤ length t
  pub goes_on : (t : Text) (w : os.World) → (length t ≡ 0) ⊎ (0 < put t w)

take-drop : (n : ℕ) (t : Text) → take n t ++ drop n t ≡ t
take-drop zero t = refl
take-drop (suc n) [] = refl
take-drop (suc n) (c ∷ t) = ap (λ s. c ∷ s) (take-drop n t)

length-drop : (n : ℕ) (t : Text) → length (drop n t) ≡ length t - n
length-drop zero t = omega arith
length-drop (suc n) [] = omega arith
length-drop (suc n) (c ∷ t) = omega (arith, length-drop n t)

length-zero : (t : Text) → length t ≡ 0 → t ≡ []
length-zero [] h = refl
length-zero (c ∷ t) h = absurd (omega arith)

-- All the bytes stand behind those that the file had, and are counted.
abbrev pub Stored : {os : Os} → (os.World → Text) → Text → ℕ → os.World → ℕ × Server os → Type 0
Stored content t n w (res, s') = (res ≡ n + length t) × (content s'.world ≡ content w ++ t)

shorter : (fuel n k m : ℕ) → n ≤ suc fuel → m ≡ n - k → (k == 0) ≡ false → m ≤ fuel
shorter fuel n k m h e z = ground arith

module _ {os : Os} {fid : ℕ} {content : os.World → Text} (file : Writes os fid content) where
  Stored-nothing :
      (t : Text) (n : ℕ) (s : Server os) → length t ≡ 0 → Stored content t n s.world (n, s)
  Stored-nothing t n s h = (
    omega (arith, h),
    sym (append-nil (content s.world)) ∙ ap (λ u. content s.world ++ u) (sym (length-zero t h)),
  )

  abbrev moved : Text → Server os → Server os
  moved t s = record s { world = (os.write_fd fid t s.world).1 }

  Stored-more :
      (t : Text) (n : ℕ) (s : Server os) (r : ℕ × Server os)
      → Stored content
          (drop (file.put t s.world) t)
          (n + file.put t s.world)
          (os.write_fd fid t s.world).1
          r
      → Stored content t n s.world r
  Stored-more t n s (res, s') (a, b) =
      let k = file.put t s.world in
      (
        omega (arith, a, length-drop k t, file.there t s.world),
        b
            ∙ ap (λ u. u ++ drop k t) (file.adds t s.world)
            ∙ append_assoc (content s.world) (take k t) (drop k t)
            ∙ ap (λ u. content s.world ++ u) (take-drop k t),
      )

  moves_on : (t : Text) (w : os.World) → (length t == 0) ≡ false → (file.put t w == 0) ≡ false
  moves_on t w h = go (file.goes_on t w)
    where
      go : (length t ≡ 0) ⊎ (0 < file.put t w) → (file.put t w == 0) ≡ false
      go (inl e) = absurd (ground arith)
      go (inr l) = ground arith

  fixed_write_loop-Stored :
      (fuel : ℕ) (t : Text) (n : ℕ) (s : Server os)
      → length t ≤ fuel
      → Stored content t n s.world (fixed_write_loop fuel fid t n s)
  unfolding fixed_write_loop pure ◌>>=◌ system case_sys
  fixed_write_loop-Stored zero t n s h = Stored-nothing t n s (omega arith)
  fixed_write_loop-Stored (suc fuel) t n s h = elim (Bool-cases (length t == 0)) [
    | inl none ↦ rw (fixed_write_loop, none) (Stored-nothing t n s ((==_iff (length t) 0).0 none))
    | inr some_left ↦
        let k = file.put t s.world in
        rw (fixed_write_loop, some_left, file.tells t s.world, moves_on t s.world some_left)
          (Stored-more t n s (fixed_write_loop fuel fid (drop k t) (n + k) (moved t s)) (
            fixed_write_loop-Stored fuel (drop k t) (n + k) (moved t s) (
              shorter fuel (length t) k (length (drop k t)) h (length-drop k t)
                (moves_on t s.world some_left))))
  ]

  -- To a file whose writes may be short and may be interrupted, `fixed_write` writes all the bytes,
  -- in their order behind those of the file, and returns their number.
  pub fixed_write-Stored :
      (t : Text) (s : Server os) → Stored content t 0 s.world (fixed_write fid t s)
  unfolding fixed_write
  fixed_write-Stored t s = fixed_write_loop-Stored (length t) t 0 s (omega arith)
