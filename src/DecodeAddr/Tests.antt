-- ===== src/DecodeAddr/Tests.antt =====
-- Evaluations of expressions, and the theorems at inputs that meet their hypotheses.
use psplink.Base.{
  arith, ◌≡◌, ◌≢◌, ◌<◌, ◌↔◌, refl, false, none, some, codes, replicate, ◌==◌, if◌then◌else◌,
}
use psplink.Base.Memory.{Mem}
use psplink.DecodeAddr.Memory.{Access, MemEntry, memareas, mem_validate, deref_addr, size_left}
use psplink.DecodeAddr.Line.{Env}
use psplink.DecodeAddr.Parse.{value, failed, exhausted, parse_loop, mem_decode}
use psplink.DecodeAddr.Termination.{mem_decode-total}
use psplink.DecodeAddr.Bounds.{IsIn, Holds, mem_validate-Holds, Chain, deref_addr_iff}

abbrev access : Access
access = record { protoff = false; isv1 = false }

abbrev memory : Mem
memory c = if c == 0x08800000 then 0x08800010 else 0x20

abbrev env : Env
env = record {
  access = access;
  mem = memory;
  registers = record { r = replicate 32 5; epc = 0x08900000; fsr = 0 };
  module_addr = λ _. none;
  thread_addr = λ _. none;
  symbol = λ _. none;
}

left_to_right : mem_decode env (codes "1 + 2*(1+2) + $epc") ≡ value 0x08900009
unfolding mem_decode parse_loop
left_to_right = refl

word_read : mem_decode env (codes "*0x8800000") ≡ value 0x08800010
unfolding mem_decode parse_loop size_left
word_read = refl

half_a_line : mem_decode env (codes "1 1") ≡ failed
unfolding mem_decode parse_loop
half_a_line = refl

mem_decode-total_example : mem_decode env (codes "((1)+2)*3") ≢ exhausted
mem_decode-total_example = mem_decode-total env (codes "((1)+2)*3")

some_left : 0 < mem_validate access 0x08800010 1
unfolding mem_validate size_left
some_left = omega arith

mem_validate-Holds_example :
    (e : MemEntry) × IsIn e memareas × Holds access 0x08800010 (mem_validate access 0x08800010 1) e
mem_validate-Holds_example = mem_validate-Holds access 0x08800010 1 refl some_left

deref_addr_iff_example :
    (deref_addr access memory 0x08800000 1 ≡ some 0x08800010)
    ↔ Chain access memory 0x08800000 1 0x08800010
deref_addr_iff_example = deref_addr_iff access memory 0x08800000 1 0x08800010
