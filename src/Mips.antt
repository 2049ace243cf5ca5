-- ===== src/Mips.antt =====
-- psplink/debug.c: the decision part of `step_generic`, where the instruction at `epc` can send the
-- program counter. The copy in gdbcommon/gdb-stub.c is in Gdb/Decode.antt.
pub mod Isa
use psplink.Base.{
  ℕ, ◌+◌, ◌-◌, ◌*◌, ◌/◌, ◌%◌, ◌^◌, Bool, true, false, ◌||◌, ◌&&◌, List, ◌==◌, if◌then◌else◌, add32,
  bits, get_or,
}

-- The registers that stepping reads: `r[32]` and `epc` of PsplinkRegBlock.
pub record Regs : Type 0 where
  pub r : List ℕ
  pub epc : ℕ

-- The local variables `targetpc`, `branch`, `cond` and `link` behind the switch.
pub record Decoded : Type 0 where
  pub targetpc : ℕ
  pub branch : Bool
  pub cond : Bool
  pub link : Bool

-- `(short) (opcode & 0xffff) * 4`, as a 32-bit word
abbrev pub branch_offset : ℕ → ℕ
branch_offset opcode =
    let ofs = opcode % 2 ^ 16 in if ofs / 2 ^ 15 == 0 then ofs * 4 else ofs * 4 + 2 ^ 32 - 2 ^ 18

-- BEQ, BEQL, BGTZ, BGTZL, BLEZ, BLEZL, BNE, BNEL
abbrev is_branch_opcode : ℕ → Bool
is_branch_opcode op =
    op == 0x4
    || op == 0x14
    || op == 0x7
    || op == 0x17
    || op == 0x6
    || op == 0x16
    || op == 0x5
    || op == 0x15

-- BGEZ, BGEZAL, BGEZALL, BGEZL, BLTZ, BLTZAL, BLTZALL, BLTZL
abbrev is_regimm_branch : ℕ → Bool
is_regimm_branch rt =
    rt == 0x1
    || rt == 0x11
    || rt == 0x13
    || rt == 0x3
    || rt == 0x0
    || rt == 0x10
    || rt == 0x12
    || rt == 0x2

-- BCXF, BCXFL, BCXT, BCXTL
abbrev is_cop_branch : ℕ → Bool
is_cop_branch f = f == 0x100 || f == 0x102 || f == 0x101 || f == 0x103

abbrev conditional : ℕ → ℕ → Decoded
conditional opcode next = record {
  targetpc = add32 next (branch_offset opcode);
  branch = true;
  cond = true;
  link = false;
}

abbrev sequential : ℕ → Decoded
sequential next = record { targetpc = next; branch = false; cond = false; link = false }

-- `(ofs << 2) | (targetpc & 0xf0000000)`, of disjoint bits
abbrev jump : ℕ → ℕ → Bool → Decoded
jump opcode next link = record {
  targetpc = opcode % 2 ^ 26 * 4 + next / 2 ^ 28 % 16 * 2 ^ 28;
  branch = true;
  cond = false;
  link = link;
}

abbrev jump_register : Regs → ℕ → Bool → Decoded
jump_register regs opcode link = record {
  targetpc = get_or regs.r (bits opcode 21 5) 0;
  branch = true;
  cond = false;
  link = link;
}

-- The switch on the opcode, whose case of SYSCALL is a comment.
unfoldable pub decode : Regs → ℕ → Decoded
decode regs opcode =
    let next = add32 regs.epc 4 in
    let op = opcode / 2 ^ 26 in
    if is_branch_opcode op
    then conditional opcode next
    else if op == 0x1
    then (if is_regimm_branch (bits opcode 16 5) then conditional opcode next else sequential next)
    else if op == 0x3
    then jump opcode next true
    else if op == 0x2
    then jump opcode next false
    else if op == 0x0
    then (if opcode % 64 == 0x9
        then jump_register regs opcode true
        else if opcode % 64 == 0x8
        then jump_register regs opcode false
        else sequential next)
    else if op == 0x10 || op == 0x11 || op == 0x12
    then (if is_cop_branch (bits opcode 16 10) then conditional opcode next else sequential next)
    else sequential next
