-- ===== src/Debug/Placed.antt =====
-- What the writes of `step_generic` leave behind, and that taking them out restores the memory.
use mathlib.Core.Path.{fun_ext}
use psplink.Base.{
  ℕ, ◌^◌, ◌<◌, ◌≡◌, ap, ◌∙◌, inl, inr, Bool, true, false, ◌&&◌, arith, ◌==◌, Bool-cases, add32,
}
use psplink.Base.Memory.{Mem, cell, lw}
use psplink.Mips.{Regs, Decoded, decode, branch_offset}
use psplink.Mips.Isa.{decode-cond}
use psplink.Debug.{Debugger, plant_step0, plant_step1, place_step, step_generic, unplant}
use psplink.Debug.Table.{IsIdle}

-- A conditional branch goes nowhere near the mirrors of the word behind its delay slot.
offset_apart :
    (epc w : ℕ)
    → epc < 2 ^ 32
    → (add32 (add32 epc 4) (branch_offset w) == add32 epc 8) ≡ false
    → (cell (add32 (add32 epc 4) (branch_offset w)) == cell (add32 epc 8)) ≡ false
offset_apart epc w h e = ground arith

-- What `step_generic` has done, in one of four shapes.
pub data Placed (c : Decoded) (epc : ℕ) (skip : Bool) (d e : Debugger) : Type 0 where
  target_only : e ≡ plant_step0 c.targetpc d → c.cond ≡ false → Placed c epc skip d e
  behind_only : e ≡ plant_step1 (add32 epc 8) d → (c.link && skip) ≡ true → Placed c epc skip d e
  same : e ≡ plant_step0 c.targetpc d → c.targetpc ≡ add32 epc 8 → Placed c epc skip d e
  both_targets :
      e ≡ plant_step1 (add32 epc 8) (plant_step0 c.targetpc d)
      → c.cond ≡ true
      → (c.targetpc == add32 epc 8) ≡ false
      → Placed c epc skip d e

-- Only a branch is conditional.
abbrev IsSane : Decoded → Type 0
IsSane c = c.branch ≡ false → c.cond ≡ false

place_step-Placed :
    (c : Decoded) (epc : ℕ) (skip : Bool) (d : Debugger)
    → IsSane c
    → Placed c epc skip d (place_step c epc skip d)
unfolding place_step
place_step-Placed c epc skip d s = elim (Bool-cases (c.link && skip)) [
  | inl l ↦ behind_only (ground arith) l
  | inr nl ↦ elim (Bool-cases c.branch) [
    | inr nb ↦ target_only (ground arith) (s nb)
    | inl b ↦ elim (Bool-cases c.cond) [
      | inr nc ↦ target_only (ground arith) nc
      | inl t ↦ elim (Bool-cases (c.targetpc == add32 epc 8)) [
        | inl e ↦ same (ground arith) (ground arith)
        | inr ne ↦ both_targets (ground arith) t ne
      ]
    ]
  ]
]

-- The memory that comes back when both steps are taken out.
abbrev pub recovered : Debugger → Mem
recovered d = unplant d.step1 (unplant d.step0 d.mem)

Placed-recovered :
    {c : Decoded} {epc : ℕ} {skip : Bool} {d e : Debugger}
    → IsIdle d
    → (c.cond ≡ true
        → (c.targetpc == add32 epc 8) ≡ false
        → (cell c.targetpc == cell (add32 epc 8)) ≡ false)
    → Placed c epc skip d e
    → recovered e ≡ d.mem
Placed-recovered {c} {epc} {d} h apart (target_only p _) =
    ap recovered p ∙ fun_ext λ x. ground arith
Placed-recovered {c} {epc} {d} h apart (behind_only p _) =
    ap recovered p ∙ fun_ext λ x. ground arith
Placed-recovered {c} {epc} {d} h apart (same p _) = ap recovered p ∙ fun_ext λ x. ground arith
Placed-recovered {c} {epc} {d} h apart (both_targets p t n) =
    ap recovered p ∙ fun_ext λ x. ground (arith, apart t n)

pub place_step-decode :
    (regs : Regs) (w : ℕ) (skip : Bool) (d : Debugger)
    → let c = decode regs w in Placed c regs.epc skip d (place_step c regs.epc skip d)
place_step-decode regs w skip d = place_step-Placed c regs.epc skip d sane
  where
    c : Decoded
    c = decode regs w

    sane : IsSane c
    sane b = elim (Bool-cases c.cond) [ inr f ↦ f | inl t ↦ cc ((decode-cond regs w t).0) ]

pub step_generic-Placed :
    (regs : Regs) (skip : Bool) (d : Debugger)
    → Placed (decode regs (lw d.mem regs.epc)) regs.epc skip d (step_generic regs skip d)
unfolding step_generic
step_generic-Placed regs skip d = place_step-decode regs (lw d.mem regs.epc) skip d

pub targets_apart :
    (regs : Regs) (w : ℕ)
    → regs.epc < 2 ^ 32
    → let c = decode regs w in
      c.cond ≡ true
      → (c.targetpc == add32 regs.epc 8) ≡ false
      → (cell c.targetpc == cell (add32 regs.epc 8)) ≡ false
targets_apart regs w r t n =
    let e = (decode-cond regs w t).1 in rw e (offset_apart regs.epc w r (rw e at n))

pub place_step-recovered :
    (regs : Regs) (w : ℕ) (skip : Bool) {d : Debugger}
    → regs.epc < 2 ^ 32
    → IsIdle d
    → recovered (place_step (decode regs w) regs.epc skip d) ≡ d.mem
place_step-recovered regs w skip {d} r h =
    Placed-recovered h (targets_apart regs w r) (place_step-decode regs w skip d)

pub step_generic-recovered :
    (regs : Regs) (skip : Bool) {d : Debugger}
    → regs.epc < 2 ^ 32
    → IsIdle d
    → recovered (step_generic regs skip d) ≡ d.mem
unfolding step_generic
step_generic-recovered regs skip {d} r h = place_step-recovered regs (lw d.mem regs.epc) skip r h

pub Placed-bps :
    {c : Decoded} {epc : ℕ} {skip : Bool} {d e : Debugger} → Placed c epc skip d e → e.bps ≡ d.bps
Placed-bps (target_only p _) = ap (λ (x : Debugger). x.bps) p
Placed-bps (behind_only p _) = ap (λ (x : Debugger). x.bps) p
Placed-bps (same p _) = ap (λ (x : Debugger). x.bps) p
Placed-bps (both_targets p _ _) = ap (λ (x : Debugger). x.bps) p
