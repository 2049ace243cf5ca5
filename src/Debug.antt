-- ===== src/Debug.antt =====
-- psplink/debug.c: the table of software breakpoints, the two single-step breakpoints, and what
-- the debugger does when an exception arrives. The cache flushes, the disassembly that is printed
-- and `exceptionResume` leave this state alone and are not modelled.
pub mod Image
pub mod Table
pub mod Removal
pub mod Placed
pub mod Step
mod Tests
use psplink.Base.{
  ℕ, suc, ◌%◌, ◌^◌, Bool, true, false, not, ◌&&◌, ◌||◌, List, [], ◌∷◌, Option, none, some, ltb,
  ◌==◌, if◌then◌else◌, add32, get_elem?, set,
}
use psplink.Base.Memory.{Mem, lw, sw}
use psplink.Mips.{Regs, Decoded, decode}

abbrev pub max_bps : ℕ
max_bps = 16

abbrev pub sw_break_inst : ℕ
sw_break_inst = 0x0000000d

-- `struct BreakPoint`
pub record BreakPoint : Type 0 where
  pub address : ℕ
  pub oldinst : ℕ
  pub active : Bool

-- `g_bps`, the two entries of `g_stepbp`, and the memory of the program.
pub record Debugger : Type 0 where
  pub bps : List BreakPoint
  pub step0 : BreakPoint
  pub step1 : BreakPoint
  pub mem : Mem

-- address = a, oldinst = _lw(a), active = 1
abbrev pub planted_at : ℕ → Mem → BreakPoint
planted_at a m = record { address = a; oldinst = lw m a; active = true }

-- `_sw(SW_BREAK_INST, a)` with the entry that records what stood there.
abbrev pub plant_step0 : ℕ → Debugger → Debugger
plant_step0 a d = record d { step0 = planted_at a d.mem; mem = sw sw_break_inst a d.mem }

abbrev pub plant_step1 : ℕ → Debugger → Debugger
plant_step1 a d = record d { step1 = planted_at a d.mem; mem = sw sw_break_inst a d.mem }

-- The writes behind the switch of `step_generic`, for what the switch decided.
unfoldable pub place_step : Decoded → ℕ → Bool → Debugger → Debugger
place_step c epc skip d =
    let target = c.targetpc in
    if c.link && skip
    then plant_step1 (add32 epc 8) d
    else if c.branch
    then (if c.cond && not (target == add32 epc 8)
        then plant_step1 (add32 epc 8) (plant_step0 target d)
        else plant_step0 target d)
    else plant_step0 target d

unfoldable pub step_generic : Regs → Bool → Debugger → Debugger
unfolding place_step
step_generic regs skip d = place_step (decode regs (lw d.mem regs.epc)) regs.epc skip d

-- `debugStep` in an exception; with none (`none` for `g_currex`) it only prints.
unfoldable pub debug_step : Option Regs → Bool → Debugger → Debugger
debug_step none skip d = d
debug_step (some regs) skip d = step_generic regs skip d

-- `a & 0x0FFFFFFF`
abbrev pub mask : ℕ → ℕ
mask a = a % 2 ^ 28

-- The test in the loop of `find_bp`.
abbrev pub covers : ℕ → BreakPoint → Bool
covers a b = b.active && mask b.address == mask a

-- The index of the first active entry that covers the address.
unfoldable pub find_bp : ℕ → List BreakPoint → Option ℕ
find_bp a [] = none
find_bp a (b ∷ bs) =
    if covers a b then some 0 else elim (find_bp a bs) [ none ↦ none | some i ↦ some (suc i) ]

-- The index of the first entry that is not active.
unfoldable pub find_freebp : List BreakPoint → Option ℕ
find_freebp [] = none
find_freebp (b ∷ bs) =
    if not b.active then some 0 else elim (find_freebp bs) [ none ↦ none | some i ↦ some (suc i) ]

-- `debugSetBP`; the result is the value returned, 1 or 0.
unfoldable pub debug_set_bp : ℕ → Debugger → Debugger × Bool
debug_set_bp a d = elim (find_bp a d.bps) [
  | some _ ↦ (d, false)
  | none ↦ elim (find_freebp d.bps) [
    | none ↦ (d, false)
    | some i ↦
        (record d { bps = set d.bps i (planted_at a d.mem); mem = sw sw_break_inst a d.mem }, true)
  ]
]

-- `_sw(b->oldinst, b->address); b->active = 0`
abbrev pub unplant : BreakPoint → Mem → Mem
unplant b m = if b.active then sw b.oldinst b.address m else m

abbrev pub cleared : BreakPoint → BreakPoint
cleared b = record b { active = false }

-- What `debugDeleteBp` and the handler do with entry `i` of the table.
abbrev pub remove_bp : ℕ → Debugger → Debugger
remove_bp i d = elim (get_elem? d.bps i) [
  | none ↦ d
  | some b ↦
      if b.active
      then record d { bps = set d.bps i (cleared b); mem = sw b.oldinst b.address d.mem }
      else d
]

-- `debugDeleteBp`, whose result is always 1. A negative index is out of range like a large one.
unfoldable pub debug_delete_bp : ℕ → Debugger → Debugger
debug_delete_bp i d = if ltb i max_bps then remove_bp i d else d

-- `check_bp`: the step breakpoints are compared exactly, those of the table under the mask.
unfoldable pub check_bp : ℕ → Debugger → Bool
check_bp a d =
    d.step0.active && d.step0.address == a
    || d.step1.active && d.step1.address == a
    || elim (find_bp a d.bps) [ none ↦ false | some _ ↦ true ]

-- Both step breakpoints are taken out, the first one first.
abbrev pub recover_steps : Debugger → Debugger
recover_steps d = record d {
  step0 = cleared d.step0;
  step1 = cleared d.step1;
  mem = unplant d.step1 (unplant d.step0 d.mem);
}

-- The writes of `debugHandleException` at a breakpoint: the steps, then the table's entry.
abbrev pub handled : ℕ → Debugger → Debugger
handled a d =
    let d' = recover_steps d in elim (find_bp a d'.bps) [ none ↦ d' | some i ↦ remove_bp i d' ]

-- `debugHandleException`; the result is 1 if the address is that of a breakpoint.
unfoldable pub debug_handle_exception : Regs → Debugger → Debugger × Bool
debug_handle_exception regs d =
    if check_bp regs.epc d then (handled regs.epc d, true) else (d, false)
