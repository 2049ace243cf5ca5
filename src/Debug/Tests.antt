-- ===== src/Debug/Tests.antt =====
-- Runs of the debugger at a small program, and the theorems at inputs that meet their hypotheses.
use psplink.Base.{
  ◌<◌, ℕ, zero, suc, ◌≡◌, refl, ◌⊎◌, inl, true, false, none, arith, ◌==◌, if◌then◌else◌, ◌∷◌,
  replicate,
}
use psplink.Base.Memory.{Mem, lw}
use psplink.Mips.{Regs}
use psplink.Mips.Isa.{Goes, taken}
use psplink.Debug.{
  BreakPoint, Debugger, sw_break_inst, find_bp, find_freebp, step_generic, debug_set_bp,
  debug_delete_bp, debug_handle_exception, check_bp, plant_step0,
}
use psplink.Debug.Image.{image, IsApart, Clear}
use psplink.Debug.Removal.{debug_set_bp-deleted, image-debug_handle_exception}
use psplink.Debug.Table.{IsValid, IsIdle}
use psplink.Debug.Step.{
  image-step_generic, Stops, step_generic-Stops, step_round_trip, step_generic-pending,
}

abbrev unused : BreakPoint
unused = record { address = 0; oldinst = 0; active = false }

-- `beq zr, zr, 0x08800104` at 0x08800000, `bvt 1, …` at 0x08800010, and nothing else.
abbrev program : Mem
program c = if c == 0x08800000 then 0x10000040 else if c == 0x08800010 then 0x49050040 else 0

abbrev start : Debugger
start = record { bps = replicate 16 unused; step0 = unused; step1 = unused; mem = program }

abbrev at : ℕ → Regs
at pc = record { r = replicate 32 0; epc = pc }

set_twice : (debug_set_bp 0x88800004 (debug_set_bp 0x08800004 start).0).1 ≡ false
unfolding debug_set_bp find_bp find_freebp
set_twice = refl

unused-IsApart : (n : ℕ) → IsApart (replicate n unused)
unused-IsApart zero = tt
unused-IsApart (suc n) = (λ t. absurd (cc), unused-IsApart n)

unused-Clear : (a n : ℕ) → Clear a (replicate n unused)
unused-Clear a zero = tt
unused-Clear a (suc n) = (refl, unused-Clear a n)

start-IsValid : IsValid start
start-IsValid = record { count = refl; apart = unused-IsApart 16 }

start-IsIdle : IsIdle start
start-IsIdle = record { idle0 = refl; idle1 = refl }

branch-Goes : Goes (at 0x08800000) (lw program 0x08800000) 0x08800104
branch-Goes = taken (inl (inl (omega arith))) refl

image-step_generic_example : image (step_generic (at 0x08800000) false start) ≡ image start
image-step_generic_example = image-step_generic (at 0x08800000) false (omega arith) start-IsIdle

step_generic-Stops_example : Stops 0x08800104 (step_generic (at 0x08800000) false start)
step_generic-Stops_example = step_generic-Stops start (omega arith) branch-Goes

-- an exception at 0x88800004, the mirror of the breakpoint at 0x08800004
abbrev with_bp : Debugger
with_bp = record start {
  bps = record { address = 0x08800004; oldinst = 0; active = true } ∷ replicate 15 unused;
  mem = λ c. if c == 0x08800004 then sw_break_inst else program c;
}

with_bp-IsValid : IsValid with_bp
with_bp-IsValid = record {
  count = refl;
  apart = (λ _. unused-Clear 0x08800004 15, unused-IsApart 15);
}

image-debug_handle_exception_example :
    (image (debug_handle_exception (at 0x88800004) with_bp).0 ≡ image with_bp)
    × IsValid (debug_handle_exception (at 0x88800004) with_bp).0
    × (((check_bp 0x88800004 with_bp ≡ false)
          × (debug_handle_exception (at 0x88800004) with_bp ≡ (with_bp, false)))
        ⊎ ((check_bp 0x88800004 with_bp ≡ true)
            × ((debug_handle_exception (at 0x88800004) with_bp).1 ≡ true)
            × IsIdle (debug_handle_exception (at 0x88800004) with_bp).0))
image-debug_handle_exception_example = image-debug_handle_exception (at 0x88800004) with_bp-IsValid

none_covered : find_bp 0x08800104 start.bps ≡ none
unfolding find_bp
none_covered = refl

step_round_trip_example :
    let (e, stopped) =
      debug_handle_exception (at 0x08800104) (step_generic (at 0x08800000) false start) in
    (stopped ≡ true) × (e.mem ≡ program) × (e.bps ≡ start.bps) × IsIdle e
step_round_trip_example =
    step_round_trip {regs = at 0x08800000} (at 0x08800104) {d = start} (omega arith) start-IsIdle
      (omega arith) branch-Goes none_covered

-- a step from 0x08800004 has left its breakpoint at 0x08800008
abbrev stepping : Debugger
stepping = plant_step0 0x08800008 start

stepping-IsValid : IsValid stepping
stepping-IsValid = record { count = refl; apart = start-IsValid.apart }

step_generic-pending_example :
    let e = step_generic (at 0x08800020) false stepping in
    (lw (image e) 0x08800008 ≡ sw_break_inst)
    × (lw (image (debug_handle_exception (at 0x08800008) e).0) 0x08800008 ≡ sw_break_inst)
step_generic-pending_example =
    step_generic-pending (at 0x08800020) (at 0x08800008) stepping (omega arith) stepping-IsValid
      refl refl refl (unused-Clear 0x08800008 16)

planted : (debug_set_bp 0x08800004 start).1 ≡ true
unfolding debug_set_bp find_bp find_freebp
planted = refl

debug_set_bp-deleted_example :
    (i : ℕ) × (i < 16) × ((debug_delete_bp i (debug_set_bp 0x08800004 start).0).mem ≡ program)
debug_set_bp-deleted_example = debug_set_bp-deleted 0x08800004 start-IsValid planted
