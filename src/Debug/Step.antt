-- ===== src/Debug/Step.antt =====
-- Single steps: where the step breakpoints go, and that they come out again.
use mathlib.Core.Path.{fun_ext}
use psplink.Base.{
  ℕ, ◌^◌, ◌<◌, ◌≡◌, refl, sym, ap, ap₂, subst, ◌∙◌, ◌⊎◌, inl, inr, Bool, true, false, none, arith,
  ◌==◌, add32, length,
}
use psplink.Base.Memory.{cell, lw}
use psplink.Mips.{Regs, Decoded, decode}
use psplink.Mips.Isa.{
  IsCodedBranch, Goes, taken, falls, jumps, returns, follows, decode-branch, decode-jump,
  decode-register_jump, decode-sequential, decode-coded_branch,
}
use psplink.Debug.{
  Debugger, sw_break_inst, plant_step0, place_step, step_generic, recover_steps, find_bp, check_bp,
  handled, debug_handle_exception,
}
use psplink.Debug.Image.{image, restore_all, lw-restore_all, Clear, IsApart}
use psplink.Debug.Table.{IsValid, IsIdle, image-IsIdle}
use psplink.Debug.Removal.{image-debug_handle_exception}
use psplink.Debug.Placed.{
  Placed, target_only, behind_only, same, both_targets, recovered, targets_apart,
  step_generic-Placed, step_generic-recovered, Placed-bps,
}

-- With no step pending, placing the breakpoints of a step leaves the image of the program as it
-- is.
pub image-step_generic :
    (regs : Regs) (skip : Bool) {d : Debugger}
    → regs.epc < 2 ^ 32
    → IsIdle d
    → image (step_generic regs skip d) ≡ image d
unfolding image
image-step_generic regs skip {d} r h =
    ap₂ restore_all (Placed-bps (step_generic-Placed regs skip d))
      (step_generic-recovered regs skip r h)
    ∙ sym (image-IsIdle h)

-- A breakpoint stands at the address, and the debugger knows it for its own.
abbrev pub Stops : ℕ → Debugger → Type 0
Stops a d = (lw d.mem a ≡ sw_break_inst) × (check_bp a d ≡ true)

Placed-Stops :
    {c : Decoded} {epc a : ℕ} {d e : Debugger}
    → (a ≡ c.targetpc) ⊎ ((c.cond ≡ true) × (a ≡ add32 epc 8))
    → Placed c epc false d e
    → Stops a e
unfolding check_bp
Placed-Stops {c} {epc} {a} {d} g (target_only p f) =
    subst (Stops a) (sym p) (ground arith, ground arith)
Placed-Stops {c} {epc} {a} {d} g (behind_only p l) = absurd (ground arith)
Placed-Stops {c} {epc} {a} {d} g (same p q) = subst (Stops a) (sym p) (ground arith, ground arith)
Placed-Stops {c} {epc} {a} {d} g (both_targets p t n) =
    subst (Stops a) (sym p) (ground arith, ground arith)

Goes-decode :
    {regs : Regs} {w pc : ℕ}
    → ¬ (IsCodedBranch w)
    → Goes regs w pc
    → let c = decode regs w in (pc ≡ c.targetpc) ⊎ ((c.cond ≡ true) × (pc ≡ add32 regs.epc 8))
Goes-decode {regs} {w} n (taken b e) = inl (e ∙ sym (decode-branch regs w b n).0)
Goes-decode {regs} {w} n (falls b e) = inr ((decode-branch regs w b n).2, e)
Goes-decode {regs} {w} n (jumps j e) = inl (e ∙ sym (decode-jump regs w j).0)
Goes-decode {regs} {w} n (returns j e) = inl (e ∙ sym (decode-register_jump regs w j).0)
Goes-decode {regs} {w} n (follows b j r e) =
    inl (e ∙ sym (ap (λ (c : Decoded). c.targetpc) (decode-sequential regs w b j r)))

-- Wherever the architecture lets the instruction continue, a step without skipping leaves
-- SW_BREAK_INST, and the handler takes it for a breakpoint of its own. VFPU branches on a
-- condition code other than 0 are left out.
pub step_generic-Stops :
    {regs : Regs} (d : Debugger) {pc : ℕ}
    → ¬ (IsCodedBranch (lw d.mem regs.epc))
    → Goes regs (lw d.mem regs.epc) pc
    → Stops pc (step_generic regs false d)
step_generic-Stops {regs} d n g = Placed-Stops (Goes-decode n g) (step_generic-Placed regs false d)

handled-none : (a : ℕ) (d : Debugger) → find_bp a d.bps ≡ none → handled a d ≡ recover_steps d
handled-none a d h = ground arith

-- A step and the exception that it leads to, at whatever address the architecture lets the
-- instruction continue: the handler takes the exception for its own, and leaves the memory, and
-- the table, exactly as they were before the step. No step is pending before, no breakpoint of
-- the table covers the address, and the instruction is no VFPU branch on a condition code other
-- than 0.
pub step_round_trip :
    {regs : Regs} (regs' : Regs) {d : Debugger}
    → regs.epc < 2 ^ 32
    → IsIdle d
    → ¬ (IsCodedBranch (lw d.mem regs.epc))
    → Goes regs (lw d.mem regs.epc) regs'.epc
    → find_bp regs'.epc d.bps ≡ none
    → let (e, stopped) = debug_handle_exception regs' (step_generic regs false d) in
      (stopped ≡ true) × (e.mem ≡ d.mem) × (e.bps ≡ d.bps) × IsIdle e
unfolding debug_handle_exception
step_round_trip {regs} regs' {d} r h n g f =
    let s = step_generic-Stops d n g in
    let b = Placed-bps (step_generic-Placed regs false d) in
    let k = handled-none regs'.epc (step_generic regs false d) (ap (find_bp regs'.epc) b ∙ f) in
    rw (s.1, k)
      (refl, step_generic-recovered regs false r h, b, record { idle0 = refl; idle1 = refl })

-- A step at a VFPU branch on a condition code other than 0 plants one breakpoint only, in the
-- delay slot of the branch.
pub step_generic-coded_branch :
    (regs : Regs) (skip : Bool) (d : Debugger)
    → IsCodedBranch (lw d.mem regs.epc)
    → step_generic regs skip d ≡ plant_step0 (add32 regs.epc 4) d
unfolding step_generic place_step
step_generic-coded_branch regs skip d h =
    ground (arith, decode-coded_branch regs (lw d.mem regs.epc) h)

Placed-pending :
    {c : Decoded} {epc : ℕ} {d e : Debugger}
    → d.step1.active ≡ false
    → (c.cond ≡ true
        → (c.targetpc == add32 epc 8) ≡ false
        → (cell c.targetpc == cell (add32 epc 8)) ≡ false)
    → Placed c epc false d e
    → recovered e ≡ d.mem
Placed-pending {c} {epc} {d} h apart (target_only p _) = ap recovered p ∙ fun_ext λ x. ground arith
Placed-pending {c} {epc} {d} h apart (behind_only p l) = absurd (ground arith)
Placed-pending {c} {epc} {d} h apart (same p _) = ap recovered p ∙ fun_ext λ x. ground arith
Placed-pending {c} {epc} {d} h apart (both_targets p t n) =
    ap recovered p ∙ fun_ext λ x. ground (arith, apart t n)

step_generic-forgets :
    (regs : Regs) (d : Debugger)
    → regs.epc < 2 ^ 32
    → d.step1.active ≡ false
    → Clear d.step0.address d.bps
    → lw (image (step_generic regs false d)) d.step0.address ≡ lw d.mem d.step0.address
unfolding image
step_generic-forgets regs d r f c =
    ap (λ m. lw m d.step0.address)
      (ap₂ restore_all (Placed-bps (step_generic-Placed regs false d))
        (Placed-pending f (targets_apart regs _ r) (step_generic-Placed regs false d)))
    ∙ lw-restore_all d.bps d.mem d.step0.address c

Placed-IsValid :
    {c : Decoded} {epc : ℕ} {d e : Debugger} → IsValid d → Placed c epc false d e → IsValid e
Placed-IsValid {d = d} v p = record {
  count = ap length (Placed-bps p) ∙ v.count;
  apart = subst IsApart (sym (Placed-bps p)) v.apart;
}

-- A second step, not skipping a call, while the one breakpoint of the first is still in memory
-- forgets it: in the image the word under it is SW_BREAK_INST, and so it is in the image after the
-- next exception, wherever that is. The table is
-- valid, none of its breakpoints covers the word, and `g_stepbp[1]` is not in use.
pub step_generic-pending :
    (regs regs' : Regs) (d : Debugger)
    → regs.epc < 2 ^ 32
    → IsValid d
    → d.step0.active ≡ true
    → d.step1.active ≡ false
    → lw d.mem d.step0.address ≡ sw_break_inst
    → Clear d.step0.address d.bps
    → let e = step_generic regs false d in
      (lw (image e) d.step0.address ≡ sw_break_inst)
      × (lw (image (debug_handle_exception regs' e).0) d.step0.address ≡ sw_break_inst)
step_generic-pending regs regs' d r v t f w c =
    let placed = step_generic-Placed regs false d in
    let p = step_generic-forgets regs d r f c ∙ w in
    (
      p,
      ap (λ m. lw m d.step0.address)
            (image-debug_handle_exception regs' (Placed-IsValid v placed)).0
          ∙ p,
    )
