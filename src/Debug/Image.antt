-- ===== src/Debug/Image.antt =====
-- The program's image under the breakpoints: the memory once every breakpoint has been taken out,
-- as the debugger takes them out. The operations on breakpoints leave it as it is.
use mathlib.Core.Path.{fun_ext}
use psplink.Base.{
  ℕ, zero, suc, ◌≡◌, refl, sym, ap, ◌∙◌, inl, inr, true, false, List, [], ◌∷◌, none, some,
  Option-cases, ap₂, arith, ◌==◌, Bool-cases, get_elem?, set, All,
}
use psplink.Base.Memory.{Mem, cell, lw, sw}
use psplink.Debug.{
  BreakPoint, Debugger, sw_break_inst, planted_at, unplant, cleared, mask, covers, find_bp,
  find_freebp,
}

-- Every entry of a table taken out, first entry first.
abbrev pub restore_all : List BreakPoint → Mem → Mem
restore_all [] m = m
restore_all (b ∷ bs) m = restore_all bs (unplant b m)

unfoldable pub image : Debugger → Mem
image d = restore_all d.bps (unplant d.step1 (unplant d.step0 d.mem))

pub sw-sw_self : (m : Mem) (v w a : ℕ) → sw v a (sw w a m) ≡ sw v a m
sw-sw_self m v w a = fun_ext λ c. ground arith

pub sw-lw : (m : Mem) (a : ℕ) → sw (lw m a) a m ≡ m
sw-lw m a = fun_ext λ c. ground arith

pub sw-sw_comm :
    (m : Mem) (v w a b : ℕ) → (cell a == cell b) ≡ false → sw v a (sw w b m) ≡ sw w b (sw v a m)
sw-sw_comm m v w a b h = fun_ext λ c. ground arith

-- Writing a breakpoint and writing the old word back changes nothing.
pub unplant-plant : (m : Mem) (a : ℕ) → sw (lw m a) a (sw sw_break_inst a m) ≡ m
unplant-plant m a = sw-sw_self m (lw m a) sw_break_inst a ∙ sw-lw m a

-- Two addresses that the mask tells apart are no mirrors of one word.
pub cell-ne_of_mask : (a b : ℕ) → (mask a == mask b) ≡ false → (cell a == cell b) ≡ false
cell-ne_of_mask a b h = ground arith

-- No active entry of the table covers the address.
abbrev pub Clear : ℕ → List BreakPoint → Type 0
Clear a bs = All (λ b. covers a b ≡ false) bs

-- No two active entries cover the same word, up to the mask.
abbrev pub IsApart : List BreakPoint → Type 0
IsApart [] = Unit {0}
IsApart (b ∷ bs) = (b.active ≡ true → Clear b.address bs) × IsApart bs

Clear-get :
    (a : ℕ) (bs : List BreakPoint) (i : ℕ) {b : BreakPoint}
    → Clear a bs
    → get_elem? bs i ≡ some b
    → b.active ≡ true
    → (mask a == mask b.address) ≡ false
Clear-get a [] i c g t = cc
Clear-get a (b ∷ bs) zero c g t = ground arith
Clear-get a (b ∷ bs) (suc i) (c, cs) g t = Clear-get a bs i cs g t

pub find_bp-none : (a : ℕ) (bs : List BreakPoint) → find_bp a bs ≡ none → Clear a bs
unfolding find_bp
find_bp-none a [] h = tt
find_bp-none a (b ∷ bs) h = ground (arith, find_bp-none a bs)

unplant-sw :
    (b : BreakPoint) (m : Mem) (v a : ℕ)
    → covers a b ≡ false
    → unplant b (sw v a m) ≡ sw v a (unplant b m)
unplant-sw b m v a c = elim (Bool-cases b.active) [
  | inl t ↦ rw t (sw-sw_comm m b.oldinst v b.address a (cell-ne_of_mask b.address a (ground arith)))
  | inr f ↦ rw f
]

-- A write apart from every active entry passes through the restoration.
pub restore_all-sw :
    (bs : List BreakPoint) (m : Mem) (v a : ℕ)
    → Clear a bs
    → restore_all bs (sw v a m) ≡ sw v a (restore_all bs m)
restore_all-sw [] m v a c = refl
restore_all-sw (b ∷ bs) m v a (c, cs) =
    ap (restore_all bs) (unplant-sw b m v a c) ∙ restore_all-sw bs (unplant b m) v a cs

lw-unplant : (b : BreakPoint) (m : Mem) (a : ℕ) → covers a b ≡ false → lw (unplant b m) a ≡ lw m a
lw-unplant b m a c = ground (arith, cell-ne_of_mask b.address a)

pub find_freebp-some :
    (bs : List BreakPoint) (i : ℕ)
    → find_freebp bs ≡ some i
    → (b : BreakPoint) × (get_elem? bs i ≡ some b) × (b.active ≡ false)
unfolding find_freebp
find_freebp-some [] i h = cc
find_freebp-some (b ∷ bs) i h = elim (Bool-cases b.active) [
  | inr f ↦ (b, ground arith, f)
  | inl t ↦ elim (Option-cases (find_freebp bs)) [
    | inl e ↦ absurd (ground arith)
    | inr (j, e) ↦ let (c, g, f) = find_freebp-some bs j e in (c, ground arith, f)
  ]
]

-- An entry planted in a free slot, apart from the others, disappears in the restoration.
pub restore_all-plant :
    (bs : List BreakPoint) (m : Mem) (a i : ℕ) {e : BreakPoint}
    → Clear a bs
    → get_elem? bs i ≡ some e
    → e.active ≡ false
    → restore_all (set bs i (planted_at a m)) (sw sw_break_inst a m) ≡ restore_all bs m
restore_all-plant [] m a i c g f = cc
restore_all-plant (b ∷ bs) m a zero {e} c g f =
    ap (restore_all bs) (unplant-plant m a ∙ sym inactive)
  where
    inactive : unplant b m ≡ m
    inactive = ground arith
restore_all-plant (b ∷ bs) m a (suc i) (c, cs) g f =
    ap₂ (λ w n. restore_all (set bs i (record { address = a; oldinst = w; active = true })) n)
      (sym (lw-unplant b m a c)) (unplant-sw b m sw_break_inst a c)
    ∙ restore_all-plant bs (unplant b m) a i cs g f

-- Taking out one active entry ahead of its turn changes nothing in the end.
pub restore_all-remove :
    (bs : List BreakPoint) (m : Mem) (i : ℕ) {e : BreakPoint}
    → IsApart bs
    → get_elem? bs i ≡ some e
    → e.active ≡ true
    → restore_all (set bs i (cleared e)) (sw e.oldinst e.address m) ≡ restore_all bs m
restore_all-remove [] m i p g t = cc
restore_all-remove (b ∷ bs) m zero {e} p g t = ap (restore_all bs) (ground arith)
restore_all-remove (b ∷ bs) m (suc i) {e} (p, ps) g t =
    ap (restore_all (set bs i (cleared e))) (elim (Bool-cases b.active) [
      | inl u ↦ rw u (
          sw-sw_comm m b.oldinst e.oldinst b.address e.address
            (cell-ne_of_mask b.address e.address (Clear-get b.address bs i (p u) g t)))
      | inr f ↦ rw f
    ])
    ∙ restore_all-remove bs (unplant b m) i ps g t

-- The restoration leaves alone what no active entry covers.
pub lw-restore_all :
    (bs : List BreakPoint) (m : Mem) (a : ℕ) → Clear a bs → lw (restore_all bs m) a ≡ lw m a
lw-restore_all [] m a c = refl
lw-restore_all (b ∷ bs) m a (c, cs) = lw-restore_all bs (unplant b m) a cs ∙ lw-unplant b m a c
