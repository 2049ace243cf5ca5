-- ===== src/HostFs/Replies/Reads.antt =====
-- What `fixed_read` and `fixed_write` return.
use psplink.Base.{
  ℕ, zero, suc, ◌-◌, ◌^◌, ◌≤◌, ◌<◌, ◌≡◌, ◌⊎◌, inl, inr, refl, Bool, true, false, [], ◌∷◌, ◌++◌,
  Text, length, take, arith, ltb, ltb→lt, if◌then◌else◌, Bool-cases,
}
use psplink.HostFs.Host.{Sys, done, failed, Os}
use psplink.HostFs.Server.{Server, Serve, get_error, pure, ◌>>=◌, case_sys}
use psplink.HostFs.Transfer.{settle, fixed_read_loop, fixed_read}
use psplink.HostFs.Files.{read_extralen}

-- From every state, the action returns a value with `Q`.
pub record Returns {os : Os} {A : Type 0} (Q : A → Type 0) (m : Serve os A) : Type 0 where
  pub at : (s : Server os) → Q (m s).0

module _ {os : Os} {B : Type 0} {Q : B → Type 0} where
  pub Returns-pure : (b : B) → Q b → Returns {os = os} Q (pure b)
  unfolding pure
  Returns-pure b q = record { at = λ s. q }

  pub Returns-bind :
      {A : Type 0} (m : Serve os A) (f : A → Serve os B)
      → ((a : A) → Returns Q (f a))
      → Returns Q (m >>= f)
  unfolding ◌>>=◌
  Returns-bind m f k = record { at = λ s. let (a, s') = m s in (k a).at s' }

  pub Returns-if :
      (b : Bool) (m n : Serve os B) → Returns Q m → Returns Q n → Returns Q (if b then m else n)
  Returns-if true m n km kn = km
  Returns-if false m n km kn = kn

  pub Returns-case_sys :
      {A : Type 0} (r : Sys A) (m : ℕ → Serve os B) (f : A → Serve os B)
      → ((e : ℕ) → Returns Q (m e))
      → ((a : A) → Returns Q (f a))
      → Returns Q (case_sys r m f)
  unfolding case_sys
  Returns-case_sys (failed e) m f km kf = km e
  Returns-case_sys (done a) m f km kf = kf a

-- The number of bytes in the buffer, or an error, which is negative as a signed number.
abbrev pub IsCount : ℕ × Text → Type 0
IsCount (res, block) = (res ≡ length block) ⊎ (2 ^ 31 ≤ res)

error-IsCount : (e : ℕ) (block : Text) → IsCount (get_error e, block)
error-IsCount e block = inr (omega arith)

module _ {os : Os} where
  fixed_read_loop-IsCount :
      (fuel fid left : ℕ) (block : Text)
      → Returns {os = os} IsCount (fixed_read_loop fuel fid left block)
  unfolding fixed_read_loop
  fixed_read_loop-IsCount zero fid left block = Returns-pure _ (inl refl)
  fixed_read_loop-IsCount (suc fuel) fid left block = Returns-if _ _ _ (Returns-pure _ (inl refl)) (
      Returns-bind _ _ λ got.
        Returns-case_sys (settle got) _ _ (λ e. Returns-pure _ (error-IsCount e block))
          λ chunk.
            Returns-if _ _ _ (Returns-pure _ (inl refl))
              (fixed_read_loop-IsCount fuel fid (left - length chunk) (block ++ chunk)))

  pub fixed_read-IsCount : (fid len : ℕ) → Returns {os = os} IsCount (fixed_read fid len)
  unfolding fixed_read
  fixed_read-IsCount fid len = fixed_read_loop-IsCount len fid len []

length-take_le : (n : ℕ) (t : Text) → n ≤ length t → length (take n t) ≡ n
length-take_le zero t h = refl
length-take_le (suc n) [] h = absurd (omega arith)
length-take_le (suc n) (c ∷ t) h = omega (arith, length-take_le n t (omega arith))

-- The payload of a READ is as long as announced.
pub length-read :
    (res : ℕ) (block : Text)
    → IsCount (res, block)
    → length (take (read_extralen res) block) ≡ read_extralen res
length-read res block h = elim (Bool-cases (ltb res (2 ^ 31))) [
  | inr big ↦ rw big refl
  | inl small ↦ rw small (length-take_le res block (fits h (ltb→lt res (2 ^ 31) small)))
]
  where
    fits : IsCount (res, block) → res < 2 ^ 31 → res ≤ length block
    fits (inl e) l = omega arith
    fits (inr e) l = absurd (omega arith)
