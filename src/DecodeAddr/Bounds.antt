-- ===== src/DecodeAddr/Bounds.antt =====
-- What the table of areas lets through, what a chain of dereferences has read, and the range of
-- the operators.
use psplink.Base.{
  ℕ, zero, suc, ◌+◌, ◌%◌, ◌≤◌, ◌<◌, ◌≡◌, ◌↔◌, refl, sym, ◌⊎◌, inl, inr, Bool, true, false, ◌&&◌,
  List, [], ◌∷◌, some, arith, ◌==◌, if◌then◌else◌, Bool-cases,
}
use psplink.Base.Memory.{Mem, lw}
use psplink.DecodeAddr.Memory.{
  MemEntry, Access, memareas, contains, size_left, mem_validate, readable, deref_addr,
}

-- The entry is in the table.
abbrev pub IsIn : MemEntry → List MemEntry → Type 0
IsIn e [] = ⊥
IsIn e (x ∷ xs) = (e ≡ x) ⊎ IsIn e xs

-- The entry holds the `n` bytes from the address on, up to its end, and may be touched on this
-- firmware.
pub record Holds (g : Access) (a n : ℕ) (e : MemEntry) : Type 0 where
  pub above : e.addr ≤ a
  pub within_it : a + n ≡ e.addr + e.size
  pub firmware : (e.v1only ≡ true) → g.isv1 ≡ true

size_left-Holds :
    (g : Access) (a attrib n : ℕ) (es : List MemEntry)
    → size_left g a attrib es ≡ n
    → 0 < n
    → (e : MemEntry) × IsIn e es × Holds g a n e
unfolding size_left
size_left-Holds g a attrib n [] q h = absurd (omega arith)
size_left-Holds g a attrib n (e ∷ es) q h = elim (Bool-cases (contains e a)) [
  | inl t ↦ (
    e,
    inl refl,
    record { above = ground arith; within_it = ground arith; firmware = λ v. ground arith },
  )
  | inr f ↦ let (x, i, k) = size_left-Holds g a attrib n es (rw f at q) h in (x, inr i, k)
]

allowance-protected :
    (protoff : Bool) (n : ℕ) → protoff ≡ false → (if protoff && n == 0 then 4 else n) ≡ n
allowance-protected protoff n h = ground arith

-- With the protection on, what `memValidate` lets through lies in one of the areas of the table,
-- up to the end of that area, and in one of version 1.0 only on that firmware.
pub mem_validate-Holds :
    (g : Access) (a attrib : ℕ)
    → g.protoff ≡ false
    → 0 < mem_validate g a attrib
    → (e : MemEntry) × IsIn e memareas × Holds g a (mem_validate g a attrib) e
unfolding mem_validate
mem_validate-Holds g a attrib f h =
    size_left-Holds g a attrib (mem_validate g a attrib) memareas
      (sym (allowance-protected g.protoff (size_left g a attrib memareas) f)) h

-- `deref` words read one through the other: each address is a multiple of 4, and passes
-- `memValidate` for a word.
abbrev pub Chain : Access → Mem → ℕ → ℕ → ℕ → Type 0
Chain g m v zero w = v ≡ w
Chain g m v (suc deref) w =
    (v % 4 ≡ 0) × (4 ≤ mem_validate g v readable) × Chain g m (lw m v) deref w

-- `deref_addr` succeeds exactly where every one of the words read one through the other stands at a
-- multiple of 4 that `memValidate` passes for a word, and then gives the last one.
pub deref_addr_iff :
    (g : Access) (m : Mem) (v deref w : ℕ) → (deref_addr g m v deref ≡ some w) ↔ Chain g m v deref w
unfolding deref_addr
deref_addr_iff g m v zero w = (λ e. cc, λ e. cc)
deref_addr_iff g m v (suc deref) w =
    let ih = deref_addr_iff g m (lw m v) deref w in
    (λ e. (ground arith, ground arith, ih.0 (ground arith)), λ c. ground (arith, ih.1 c.2))
