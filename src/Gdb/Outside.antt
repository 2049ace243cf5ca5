-- ===== src/Gdb/Outside.antt =====
-- The memory that is not the user's: no command reaches it, but for the break instructions of a step.
use psplink.Base.{
  ℕ, zero, suc, ◌+◌, ◌-◌, ◌*◌, ◌/◌, ◌%◌, ◌^◌, ◌≤◌, ◌<◌, ◌≡◌, refl, sym, ◌∙◌, subst, Bool, true,
  false, ◌==◌, ◌&&◌, not, Text, Bool-cases, Option-cases, inl, inr, arith, add32,
}
use psplink.Base.Memory.{Mem, cell, lw, sw}
use psplink.Mips.{Regs, Decoded, decode}
use psplink.Debug.{
  BreakPoint, Debugger, sw_break_inst, unplant, plant_step0, place_step, step_generic,
  recover_steps,
}
use psplink.Gdb.Hex.{Bytes, allowed, hex_to_int}
use psplink.Gdb.Decode.{stub_step_generic}
use psplink.Gdb.Step.{stub_recover, is_syscall, stub_step_generic_equiv}
use psplink.Gdb.Context.{
  word, write_word, as_words, as_bytes, epc_at, Kernel, Debuggee, Stub, debugger_of, with_debugger,
  regs_of,
}
use psplink.Gdb.Commands.{resumed_at, continue_cmd, step_cmd}
use psplink.Gdb.Stub.{recovered}
use psplink.Gdb.Untouched.{SameOutside}

-- The same four bytes from `b` on.
abbrev pub SameWord : ℕ → Bytes → Bytes → Type 0
SameWord b m m' = (k : ℕ) → k < 4 → m' (b + k) ≡ m (b + k)

abbrev pub HoldsBytes : ℕ → Bytes → Type 0
HoldsBytes b m = (k : ℕ) → k < 4 → m (b + k) < 256

-- No active step breakpoint stands in the word at `b`.
abbrev pub IsSpare : ℕ → BreakPoint → Type 0
IsSpare b p = p.active ≡ true → (cell p.address == b) ≡ false

pub SameWord-trans :
    (b : ℕ) (m₀ m₁ m₂ : Bytes) → SameWord b m₀ m₁ → SameWord b m₁ m₂ → SameWord b m₀ m₂
SameWord-trans b m₀ m₁ m₂ h k = λ i l. k i l ∙ h i l

pub SameOutside-word :
    (b : ℕ) (m m' : Bytes) → b % 4 ≡ 0 → allowed b ≡ false → SameOutside m m' → SameWord b m m'
SameOutside-word b m m' h out same = λ k l. same (b + k) (ground arith)

-- The digits of a number of four bytes.
digit0 : (x y z u : ℕ) → x < 256 → (x + y * 256 + z * 65536 + u * 16777216) / 256 ^ 0 % 256 ≡ x
digit0 x y z u h = omega (arith, div1 (x + y * 256 + z * 65536 + u * 16777216))
  where
    div1 : (n : ℕ) → n / 1 ≡ n
    div1 n = omega arith

digit1 :
    (x y z u : ℕ) → x < 256 → y < 256 → (x + y * 256 + z * 65536 + u * 16777216) / 256 % 256 ≡ y
digit1 x y z u h k = omega arith

digit2 :
    (x y z u : ℕ)
    → x < 256
    → y < 256
    → z < 256
    → (x + y * 256 + z * 65536 + u * 16777216) / 65536 % 256 ≡ z
digit2 x y z u h k l = omega arith

digit3 :
    (x y z u : ℕ)
    → x < 256
    → y < 256
    → z < 256
    → u < 256
    → (x + y * 256 + z * 65536 + u * 16777216) / 16777216 % 256 ≡ u
digit3 x y z u h k l r = omega arith

first_byte : (b : ℕ) (m : Bytes) → HoldsBytes b m → m b < 256
first_byte b m h =
    let start : b + 0 ≡ b = omega arith in subst (λ n. m n < 256) start (h 0 (omega arith))

byte_of_word :
    (b : ℕ) (m : Bytes) (k : ℕ) → HoldsBytes b m → k < 4 → word m b / 256 ^ k % 256 ≡ m (b + k)
byte_of_word b m zero h l =
    let start : b + 0 ≡ b = omega arith in
    rw start (digit0 (m b) (m (b + 1)) (m (b + 2)) (m (b + 3)) (first_byte b m h))
byte_of_word b m (suc zero) h l =
    digit1 (m b) (m (b + 1)) (m (b + 2)) (m (b + 3)) (first_byte b m h) (h 1 (omega arith))
byte_of_word b m (suc (suc zero)) h l =
    digit2 (m b) (m (b + 1)) (m (b + 2)) (m (b + 3)) (first_byte b m h) (h 1 (omega arith))
      (h 2 (omega arith))
byte_of_word b m (suc (suc (suc zero))) h l =
    digit3 (m b) (m (b + 1)) (m (b + 2)) (m (b + 3)) (first_byte b m h) (h 1 (omega arith))
      (h 2 (omega arith)) (h 3 (omega arith))
byte_of_word b m (suc (suc (suc (suc k)))) h l = absurd (omega arith)

as_bytes-word :
    (b : ℕ) (w : Mem) (m : Bytes)
    → b % 4 ≡ 0
    → HoldsBytes b m
    → w b ≡ word m b
    → SameWord b m (as_bytes w)
as_bytes-word b w m h bytes e = λ k l.
    let place : (b + k) % 4 ≡ k = omega arith in
    let start : b + k - k ≡ b = omega arith in rw (place, start, e) (byte_of_word b m k bytes l)

sw-spare : (v a b : ℕ) (w : Mem) → (cell a == b) ≡ false → sw v a w b ≡ w b
sw-spare v a b w h = rw h refl

place_step-spare :
    (c : Decoded) (epc : ℕ) (skip : Bool) (d : Debugger) (b : ℕ)
    → let e = place_step c epc skip d in IsSpare b e.step0 → IsSpare b e.step1 → e.mem b ≡ d.mem b
unfolding place_step
place_step-spare c epc skip d b = elim (Bool-cases (c.link && skip)) [
  | inl t ↦ rw t (λ h k. sw-spare _ _ b d.mem (k refl))
  | inr f ↦ rw f (elim (Bool-cases c.branch) [
    | inr g ↦ rw g (λ h k. sw-spare _ _ b d.mem (h refl))
    | inl t ↦ rw t (elim (Bool-cases (c.cond && not (c.targetpc == add32 epc 8))) [
      | inl u ↦ rw u (λ h k.
          sw-spare _ _ b (plant_step0 c.targetpc d).mem (k refl)
          ∙ sw-spare sw_break_inst c.targetpc b d.mem (h refl))
      | inr g ↦ rw g (λ h k. sw-spare _ _ b d.mem (h refl))
    ])
  ])
]

unplant-spare : (p : BreakPoint) (w : Mem) (b : ℕ) → IsSpare b p → unplant p w b ≡ w b
unplant-spare p w b h = elim (Bool-cases p.active) [
  | inl t ↦ rw (t, unplant) (sw-spare _ _ b w (h t))
  | inr f ↦ rw (f, unplant) refl
]

write_word-Outside :
    (v a : ℕ) (m : Bytes) → 0x08800000 ≤ a → a + 4 ≤ 0x0a000000 → SameOutside m (write_word v a m)
write_word-Outside v a m h k = λ c g. ground arith

stub_step_generic-spare :
    (regs : Regs) (skip : Bool) (d : Debugger) (b : ℕ)
    → let e = stub_step_generic regs skip d in
      IsSpare b e.step0 → IsSpare b e.step1 → e.mem b ≡ d.mem b
unfolding step_generic
stub_step_generic-spare regs skip d b =
    rw (stub_step_generic_equiv regs skip d) (elim (Bool-cases (is_syscall (lw d.mem regs.epc))) [
      | inl t ↦ rw t (λ h k. sw-spare _ _ b d.mem (h refl))
      | inr f ↦ rw f (place_step-spare (decode regs (lw d.mem regs.epc)) regs.epc skip d b)
    ])

module _ {kernel : Kernel} (target : Debuggee) (b : ℕ) (aligned : b % 4 ≡ 0)
    (out : allowed b ≡ false) where
  -- What a change of the stub's state keeps: the word at `b`.
  abbrev pub Keeps : Stub kernel → Stub kernel → Type 0
  Keeps s t = SameWord b s.memory t.memory

  with_debugger-Keeps :
      (s : Stub kernel) (d : Debugger)
      → HoldsBytes b s.memory
      → d.mem b ≡ as_words s.memory b
      → Keeps s (with_debugger d s)
  with_debugger-Keeps s d h e = as_bytes-word b d.mem s.memory aligned h e

  pub recovered-Keeps :
      (s : Stub kernel)
      → HoldsBytes b s.memory
      → IsSpare b s.step0
      → IsSpare b s.step1
      → Keeps s (recovered s)
  unfolding recovered stub_recover
  recovered-Keeps s h p q = with_debugger-Keeps s (recover_steps (debugger_of s)) h (
      unplant-spare s.step1 (unplant s.step0 (as_words s.memory)) b q
      ∙ unplant-spare s.step0 (as_words s.memory) b p)

  module _ (low : 0x08800000 ≤ target.ctx) (high : target.ctx + 916 ≤ 0x0a000000) where
    resumed_at-Keeps : (str : Text) (s : Stub kernel) → Keeps s (resumed_at target str s)
    unfolding resumed_at
    resumed_at-Keeps str s = elim (Option-cases (hex_to_int str)) [
      | inl e ↦ rw (e, resumed_at) (λ k l. refl)
      | inr ((addr, rest), e) ↦
          rw (e, resumed_at)
            (SameOutside-word b s.memory _ aligned out (
              write_word-Outside addr (target.ctx + epc_at) s.memory (omega (arith, low))
                (omega (arith, high))))
    ]

    pub continue_cmd-Keeps : (str : Text) (s : Stub kernel) → Keeps s (continue_cmd target str s)
    unfolding continue_cmd
    continue_cmd-Keeps str s = elim (Bool-cases (not s.started)) [
      | inl t ↦ rw t (λ k l. refl)
      | inr f ↦ rw f (resumed_at-Keeps str s)
    ]

    pub step_cmd-Keeps :
        (str : Text) (s : Stub kernel)
        → HoldsBytes b s.memory
        → IsSpare b (step_cmd target str s).step0
        → IsSpare b (step_cmd target str s).step1
        → Keeps s (step_cmd target str s)
    unfolding step_cmd
    step_cmd-Keeps str s h p q =
        let s' = resumed_at target str s in
        let same = resumed_at-Keeps str s in
        let d = stub_step_generic (regs_of s'.memory target.ctx) false (debugger_of s') in
        SameWord-trans b s.memory s'.memory (with_debugger d s').memory same (
          with_debugger-Keeps s' d (λ k l. subst (λ n. n < 256) (sym (same k l)) (h k l))
            (stub_step_generic-spare (regs_of s'.memory target.ctx) false (debugger_of s') b p q))
