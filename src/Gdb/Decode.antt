-- ===== src/Gdb/Decode.antt =====
-- gdbcommon/gdb-stub.c: `step_generic`, written out apart from the one of psplink/debug.c of which it
-- is a copy. The state is that of psplink/debug.c, of which the stub has `g_stepbp` and the memory.
use psplink.Base.{
  ℕ, ◌+◌, ◌-◌, ◌*◌, ◌/◌, ◌%◌, ◌^◌, Bool, true, false, not, ◌||◌, ◌&&◌, ◌==◌, if◌then◌else◌, add32,
  get_or,
}
use psplink.Base.Memory.{lw, sw}
use psplink.Mips.{Regs, Decoded}
use psplink.Debug.{Debugger, BreakPoint, sw_break_inst}

-- `targetpc += ofs * 4` for the low 16 bits of the opcode, with their sign
abbrev pub stub_branch : ℕ → ℕ → Decoded
stub_branch opcode targetpc = record {
  targetpc = add32 targetpc (
      let ofs = opcode % 2 ^ 16 in
      if ofs / 2 ^ 15 == 0 then ofs * 4 else ofs * 4 + 2 ^ 32 - 2 ^ 18);
  branch = true;
  cond = true;
  link = false;
}

-- No case of the switch
abbrev pub stub_next : ℕ → Decoded
stub_next targetpc = record { targetpc = targetpc; branch = false; cond = false; link = false }

-- J, and JAL with `link`
abbrev pub stub_jump : ℕ → ℕ → Bool → Decoded
stub_jump opcode targetpc link = record {
  targetpc = opcode % 2 ^ 26 * 4 + targetpc / 2 ^ 28 % 16 * 2 ^ 28;
  branch = true;
  cond = false;
  link = link;
}

-- JR, and JALR with `link`
abbrev pub stub_return : Regs → ℕ → Bool → Decoded
stub_return regs opcode link = record {
  targetpc = get_or regs.r (opcode / 2 ^ 21 % 2 ^ 5) 0;
  branch = true;
  cond = false;
  link = link;
}

-- `switch((opcode >> 16) & 0x1f)`: BGEZ, BGEZAL, BGEZALL, BGEZL, BLTZ, BLTZAL, BLTZALL, BLTZL
unfoldable pub stub_regimm : ℕ → ℕ → Decoded
stub_regimm opcode targetpc =
    let rt = opcode / 2 ^ 16 % 2 ^ 5 in
    if rt == 0x1
      || rt == 0x11
      || rt == 0x13
      || rt == 0x3
      || rt == 0x0
      || rt == 0x10
      || rt == 0x12
      || rt == 0x2
    then stub_branch opcode targetpc
    else stub_next targetpc

-- `switch(opcode & 0x3f)`: JALR, JR and SYSCALL
unfoldable pub stub_special : Regs → ℕ → ℕ → Decoded
stub_special regs opcode targetpc =
    let funct = opcode % 64 in
    if funct == 0x9
    then stub_return regs opcode true
    else if funct == 0x8
    then stub_return regs opcode false
    else if funct == 0xc
    then stub_next (get_or regs.r 31 0)
    else stub_next targetpc

-- `switch((opcode >> 16) & 0x3ff)`: BCXF, BCXFL, BCXT, BCXTL
unfoldable pub stub_cop : ℕ → ℕ → Decoded
stub_cop opcode targetpc =
    let kind = opcode / 2 ^ 16 % 2 ^ 10 in
    if kind == 0x100 || kind == 0x102 || kind == 0x101 || kind == 0x103
    then stub_branch opcode targetpc
    else stub_next targetpc

-- The switch on the opcode.
unfoldable pub stub_decode : Regs → ℕ → Decoded
unfolding stub_regimm stub_special stub_cop
stub_decode regs opcode =
    let targetpc = add32 regs.epc 4 in
    let op = opcode / 2 ^ 26 in
    if op == 0x4
      || op == 0x14
      || op == 0x7
      || op == 0x17
      || op == 0x6
      || op == 0x16
      || op == 0x5
      || op == 0x15
    then stub_branch opcode targetpc
    else if op == 0x1
    then stub_regimm opcode targetpc
    else if op == 0x3
    then stub_jump opcode targetpc true
    else if op == 0x2
    then stub_jump opcode targetpc false
    else if op == 0x0
    then stub_special regs opcode targetpc
    else if op == 0x10 || op == 0x11 || op == 0x12
    then stub_cop opcode targetpc
    else stub_next targetpc

-- The assignments to `g_stepbp[0]` and `g_stepbp[1]`, with the write of the break instruction.
abbrev stub_bp : ℕ → Debugger → BreakPoint
stub_bp a d = record { address = a; oldinst = lw d.mem a; active = true }

abbrev pub stub_plant0 : ℕ → Debugger → Debugger
stub_plant0 a d = record d { step0 = stub_bp a d; mem = sw sw_break_inst a d.mem }

abbrev pub stub_plant1 : ℕ → Debugger → Debugger
stub_plant1 a d = record d { step1 = stub_bp a d; mem = sw sw_break_inst a d.mem }

-- What is behind the switch.
unfoldable pub stub_place : Decoded → ℕ → Bool → Debugger → Debugger
stub_place c epc skip d =
    if c.link && skip
    then stub_plant1 (add32 epc 8) d
    else if c.branch
    then (if c.cond && not (c.targetpc == add32 epc 8)
        then stub_plant1 (add32 epc 8) (stub_plant0 c.targetpc d)
        else stub_plant0 c.targetpc d)
    else stub_plant0 c.targetpc d

-- `step_generic` of the stub
unfoldable pub stub_step_generic : Regs → Bool → Debugger → Debugger
unfolding stub_decode stub_place
stub_step_generic regs skip d = stub_place (stub_decode regs (lw d.mem regs.epc)) regs.epc skip d
