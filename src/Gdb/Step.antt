-- ===== src/Gdb/Step.antt =====
-- gdbcommon/gdb-stub.c: its `step_generic` against the one of psplink/debug.c, and how
-- `GdbHandleException` takes the step breakpoints out.
use mathlib.Core.Path.{fun_ext}
use psplink.Base.{
  ◌∙◌, ◌&&◌, if◌then◌else◌, ℕ, ◌/◌, ◌%◌, ◌^◌, ◌<◌, ◌≡◌, ap, Bool, true, false, arith, ◌==◌,
  Bool-cases, inl, inr, refl, get_or,
}
use psplink.Base.Memory.{lw}
use psplink.Mips.{Regs, Decoded, decode}
use psplink.Debug.{Debugger, plant_step0, place_step, step_generic, recover_steps}
use psplink.Debug.Placed.{step_generic-recovered}
use psplink.Gdb.Decode.{
  stub_next, stub_regimm, stub_special, stub_cop, stub_decode, stub_place, stub_step_generic,
}
use psplink.Debug.Table.{IsIdle}

-- The two `if`s on `g_stepbp` at the start of `GdbHandleException`.
unfoldable pub stub_recover : Debugger → Debugger
stub_recover d = recover_steps d

-- SYSCALL: SPECIAL with the function 0xc.
abbrev pub is_syscall : ℕ → Bool
is_syscall w = w / 2 ^ 26 == 0 && w % 64 == 0xc

stub_decode-decode :
    (regs : Regs) (w : ℕ) → is_syscall w ≡ false → stub_decode regs w ≡ decode regs w
unfolding stub_decode stub_regimm stub_special stub_cop decode
stub_decode-decode regs w n = elim (Bool-cases (w / 2 ^ 26 == 0)) [
  | inl t ↦ other t (ground arith)
  | inr f ↦ rw f refl
]
  where
    other : (w / 2 ^ 26 == 0) ≡ true → (w % 64 == 0xc) ≡ false → stub_decode regs w ≡ decode regs w
    other t e = rw e refl

stub_decode-syscall :
    (regs : Regs) (w : ℕ)
    → w / 2 ^ 26 ≡ 0
    → w % 64 ≡ 0xc
    → stub_decode regs w ≡ stub_next (get_or regs.r 31 0)
unfolding stub_decode stub_special
stub_decode-syscall regs w h k = rw (h, k) refl

stub_place-place_step :
    (c : Decoded) (epc : ℕ) (skip : Bool) (d : Debugger)
    → stub_place c epc skip d ≡ place_step c epc skip d
unfolding stub_place place_step
stub_place-place_step c epc skip d = refl

-- The stub's step is the debugger's at every instruction but SYSCALL, where it puts one breakpoint
-- at the return address in `ra`, and none behind the instruction. The two are written out apart
-- from each other, as the program has them.
pub stub_step_generic_equiv :
    (regs : Regs) (skip : Bool) (d : Debugger)
    → stub_step_generic regs skip d ≡ (
        if is_syscall (lw d.mem regs.epc)
        then plant_step0 (get_or regs.r 31 0) d
        else step_generic regs skip d)
unfolding stub_step_generic step_generic stub_place
stub_step_generic_equiv regs skip d = elim (Bool-cases (is_syscall (lw d.mem regs.epc))) [
  | inl t ↦ rw t (
      ap (λ c. stub_place c regs.epc skip d)
        (stub_decode-syscall regs (lw d.mem regs.epc) (ground arith) (ground arith)))
  | inr f ↦ rw f (
      ap (λ c. stub_place c regs.epc skip d) (stub_decode-decode regs (lw d.mem regs.epc) f)
      ∙ stub_place-place_step (decode regs (lw d.mem regs.epc)) regs.epc skip d)
]

syscall_recovered :
    (a : ℕ) {d : Debugger} → IsIdle d → (recover_steps (plant_step0 a d)).mem ≡ d.mem
syscall_recovered a {d} h = fun_ext λ x. ground arith

-- A step of the stub, with none pending before, and the start of the handling of the exception
-- that ends it: the memory is as it was before the step, and no step breakpoint is left active.
pub stub_step_round_trip :
    (regs : Regs) (skip : Bool) {d : Debugger}
    → regs.epc < 2 ^ 32
    → IsIdle d
    → let e = stub_recover (stub_step_generic regs skip d) in (e.mem ≡ d.mem) × IsIdle e
unfolding stub_recover
stub_step_round_trip regs skip {d} r h = (
  ap (λ e. (recover_steps e).mem) (stub_step_generic_equiv regs skip d)
      ∙ (elim (Bool-cases (is_syscall (lw d.mem regs.epc))) [
        | inl t ↦ rw t (syscall_recovered (get_or regs.r 31 0) h)
        | inr f ↦ rw f (step_generic-recovered regs skip r h)
      ]),
  record { idle0 = refl; idle1 = refl },
)
