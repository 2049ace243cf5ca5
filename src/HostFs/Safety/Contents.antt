-- ===== src/HostFs/Safety/Contents.antt =====
-- `fixed_read` and `fixed_write` on a file whose reads and writes may be short.
use psplink.Base.{
  ℕ, zero, suc, ◌-◌, ◌≡◌, ◌≤◌, ◌<◌, ◌⊎◌, inl, inr, refl, sym, ap, subst, ◌∙◌, true, false, [], ◌∷◌,
  ◌++◌, append-nil, append_assoc, Text, length, take, drop, arith, ◌==◌, ==_iff, Bool-cases,
}
use psplink.HostFs.Host.{done, Os}
use psplink.HostFs.Server.{Server, pure, ◌>>=◌, system, case_sys}
use psplink.HostFs.Transfer.{settle, fixed_read_loop, fixed_read}

-- A read brings some of the bytes that are left, at most as many as are wanted, and one at least
-- where bytes are left: what `read` does on a file. `left` is what is left behind the position of
-- the descriptor.
pub record Reads (os : Os) (fid : ℕ) (left : os.World → Text) : Type 0 where
  pub got : ℕ → os.World → ℕ
  pub brings :
      (n : ℕ) (w : os.World) → settle (os.read_fd fid n w).0 ≡ done (take (got n w) (left w))
  pub moves : (n : ℕ) (w : os.World) → left (os.read_fd fid n w).1 ≡ drop (got n w) (left w)
  pub wanted : (n : ℕ) (w : os.World) → got n w ≤ n
  pub there : (n : ℕ) (w : os.World) → got n w ≤ length (left w)
  pub goes_on : (n : ℕ) (w : os.World) → (n ≡ 0) ⊎ ((left w ≡ []) ⊎ (0 < got n w))

pub take-nil : (n : ℕ) → take {A = ℕ} n [] ≡ []
take-nil zero = refl
take-nil (suc n) = refl

pub drop-nil : (n : ℕ) → drop {A = ℕ} n [] ≡ []
drop-nil zero = refl
drop-nil (suc n) = refl

length-take_le : (n : ℕ) (t : Text) → n ≤ length t → length (take n t) ≡ n
length-take_le zero t h = refl
length-take_le (suc n) [] h = absurd (omega arith)
length-take_le (suc n) (c ∷ t) h = omega (arith, length-take_le n t (omega arith))

-- A text is taken in two steps, and dropped in two.
pub take-more : (k n : ℕ) (t : Text) → k ≤ n → take n t ≡ take k t ++ take (n - k) (drop k t)
take-more zero n t h = ap (λ m. take m t) (omega arith)
take-more (suc k) n [] h = take-nil n ∙ sym (take-nil (n - suc k))
take-more (suc k) zero (c ∷ t) h = absurd (omega arith)
take-more (suc k) (suc n) (c ∷ t) h =
    ap (λ s. c ∷ s)
      (take-more k n t (omega arith) ∙ ap (λ m. take k t ++ take m (drop k t)) (omega arith))

pub drop-more : (k n : ℕ) (t : Text) → k ≤ n → drop n t ≡ drop (n - k) (drop k t)
drop-more zero n t h = ap (λ m. drop m t) (omega arith)
drop-more (suc k) n [] h = drop-nil n ∙ sym (drop-nil (n - suc k))
drop-more (suc k) zero (c ∷ t) h = absurd (omega arith)
drop-more (suc k) (suc n) (c ∷ t) h =
    drop-more k n t (omega arith) ∙ ap (λ m. drop m (drop k t)) (omega arith)

shorter : (n fuel k : ℕ) → (k == 0) ≡ false → n ≤ suc fuel → n - k ≤ fuel
shorter n fuel k h l = ground arith

-- The next `n` bytes of what was left stand behind those of the buffer, and the file is behind them.
abbrev pub Done :
    {os : Os} → (os.World → Text) → ℕ → Text → os.World → (ℕ × Text) × Server os → Type 0
Done left n block w ((res, got), s') =
    (got ≡ block ++ take n (left w)) × (res ≡ length got) × (left s'.world ≡ drop n (left w))

module _ {os : Os} {fid : ℕ} {left : os.World → Text} (file : Reads os fid left) where
  -- Nothing is wanted, or nothing is there.
  Done-nothing :
      (n : ℕ) (block : Text) (w : os.World) (s : Server os)
      → (n ≡ 0) ⊎ (left w ≡ [])
      → left s.world ≡ left w
      → Done left n block w ((length block, block), s)
  Done-nothing n block w s (inl e) h = (
    sym (append-nil block) ∙ ap (λ m. block ++ take m (left w)) (sym e),
    refl,
    h ∙ ap (λ m. drop m (left w)) (sym e),
  )
  Done-nothing n block w s (inr e) h = (
    sym (append-nil block) ∙ ap (λ t. block ++ t) (sym (take-nil n) ∙ ap (take n) (sym e)),
    refl,
    h ∙ e ∙ sym (drop-nil n) ∙ ap (drop n) (sym e),
  )

  -- Some bytes, and what the rest of the loop reads.
  Done-more :
      (k n : ℕ) (block : Text) (w w' : os.World) (r : (ℕ × Text) × Server os)
      → k ≤ n
      → left w' ≡ drop k (left w)
      → Done left (n - k) (block ++ take k (left w)) w' r
      → Done left n block w r
  Done-more k n block w w' ((res, got), s') h e (a, b, c) = (
    a
        ∙ append_assoc block (take k (left w)) (take (n - k) (left w'))
        ∙ ap (λ t. block ++ (take k (left w) ++ take (n - k) t)) e
        ∙ ap (λ t. block ++ t) (sym (take-more k n (left w) h)),
    b,
    c ∙ ap (drop (n - k)) e ∙ sym (drop-more k n (left w) h),
  )

  nothing_came :
      (n : ℕ) (w : os.World)
      → (n == 0) ≡ false
      → length (take (file.got n w) (left w)) ≡ 0
      → left w ≡ []
  nothing_came n w h e = go (file.goes_on n w)
    where
      go : (n ≡ 0) ⊎ ((left w ≡ []) ⊎ (0 < file.got n w)) → left w ≡ []
      go (inl zero_wanted) = absurd (ground arith)
      go (inr (inl empty)) = empty
      go (inr (inr some_came)) =
          absurd
            (omega (arith, e, some_came, length-take_le (file.got n w) (left w) (file.there n w)))

  abbrev moved : ℕ → Server os → Server os
  moved n s = record s { world = (os.read_fd fid n s.world).1 }

  fixed_read_loop-Done :
      (fuel n : ℕ) (block : Text) (s : Server os)
      → n ≤ fuel
      → Done left n block s.world (fixed_read_loop fuel fid n block s)
  unfolding fixed_read_loop pure ◌>>=◌ system case_sys
  fixed_read_loop-Done zero n block s h = Done-nothing n block s.world s (inl (omega arith)) refl
  fixed_read_loop-Done (suc fuel) n block s h = elim (Bool-cases (n == 0)) [
    | inl none ↦
        rw (fixed_read_loop, none) (Done-nothing n block s.world s (inl ((==_iff n 0).0 none)) refl)
    | inr wanted ↦
        let w = s.world in
        let chunk : Text = take (file.got n w) (left w) in
        let empty : (length chunk == 0) ≡ true → left w ≡ [] =
          λ over. nothing_came n w wanted ((==_iff (length chunk) 0).0 over) in
        elim (Bool-cases (length chunk == 0)) [
          | inl over ↦
              rw (fixed_read_loop, wanted, file.brings n w, over)
                (Done-nothing n block w (moved n s) (inr (empty over)) (
                  file.moves n w
                  ∙ ap (drop (file.got n w)) (empty over)
                  ∙ drop-nil (file.got n w)
                  ∙ sym (empty over)))
          | inr more ↦
              rw (fixed_read_loop, wanted, file.brings n w, more)
                (Done-more (file.got n w) n block w (os.read_fd fid n w).1
                  (fixed_read_loop fuel fid (n - length chunk) (block ++ chunk) (moved n s))
                  (file.wanted n w) (file.moves n w)
                  (subst
                    (λ j.
                      Done left (n - j) (block ++ chunk) (os.read_fd fid n w).1
                        (fixed_read_loop fuel fid (n - length chunk) (block ++ chunk) (moved n s)))
                    (length-take_le (file.got n w) (left w) (file.there n w))
                    (fixed_read_loop-Done fuel (n - length chunk) (block ++ chunk) (moved n s)
                      (shorter n fuel (length chunk) more h))))
        ]
  ]

  -- From a file whose reads may be short and may be interrupted, `fixed_read` reads as many bytes as
  -- are wanted, or all that are left: the next ones in their order, and moves behind them.
  pub fixed_read-Done : (len : ℕ) (s : Server os) → Done left len [] s.world (fixed_read fid len s)
  unfolding fixed_read
  fixed_read-Done len s = fixed_read_loop-Done len len [] s (omega arith)
