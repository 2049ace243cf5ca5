-- ===== src/Mips/Isa.antt =====
-- The architecture's own account of where an instruction can send the program counter, by the
-- fields of its encoding, against which the stepping code is checked. The VFPU branches are
-- encoded as in the table of psplink/disasm.c (`bvf`, `bvfl`, `bvt`, `bvtl`).
use psplink.Base.{
  ℕ, ◌+◌, ◌*◌, ◌/◌, ◌%◌, ◌^◌, ◌≤◌, ◌≡◌, ◌⊎◌, inl, inr, Bool, true, false, ◌&&◌, ◌||◌, ◌==◌,
  Bool-cases, if◌then◌else◌, arith, add32, bits, get_or,
}
use psplink.Mips.{
  Regs, Decoded, branch_offset, is_branch_opcode, is_regimm_branch, is_cop_branch, sequential,
  decode,
}

-- The fields of an instruction word.
abbrev pub opcode : ℕ → ℕ
opcode w = w / 2 ^ 26

abbrev pub rs : ℕ → ℕ
rs w = bits w 21 5

abbrev pub rt : ℕ → ℕ
rt w = bits w 16 5

abbrev pub funct : ℕ → ℕ
funct w = w % 64

-- Opcodes 4 to 7 and 20 to 23, and the branches of REGIMM.
abbrev pub IsMainBranch : ℕ → Type 0
IsMainBranch w =
    ((4 ≤ opcode w) × (opcode w ≤ 7))
    ⊎ ((20 ≤ opcode w) × (opcode w ≤ 23))
    ⊎ ((opcode w ≡ 1) × (rt w % 16 ≤ 3))

-- A coprocessor's branch on a condition: `rs` is 8, the low two bits of `rt` choose among the
-- four kinds. Only the VFPU (coprocessor 2) has condition codes, in the upper bits of `rt`.
abbrev pub IsCopBranch : ℕ → Type 0
IsCopBranch w = (rs w ≡ 8) × (((16 ≤ opcode w) × (opcode w ≤ 17) × (rt w ≤ 3)) ⊎ (opcode w ≡ 18))

abbrev pub IsBranch : ℕ → Type 0
IsBranch w = IsMainBranch w ⊎ IsCopBranch w

abbrev pub IsJump : ℕ → Type 0
IsJump w = (opcode w ≡ 2) ⊎ (opcode w ≡ 3)

abbrev pub IsRegisterJump : ℕ → Type 0
IsRegisterJump w = (opcode w ≡ 0) × ((funct w ≡ 8) ⊎ (funct w ≡ 9))

-- The instruction `w` at `regs.epc`, with its delay slot, can continue at `pc`.
pub data Goes (regs : Regs) (w pc : ℕ) : Type 0 where
  taken : IsBranch w → pc ≡ add32 (add32 regs.epc 4) (branch_offset w) → Goes regs w pc
  falls : IsBranch w → pc ≡ add32 regs.epc 8 → Goes regs w pc
  jumps : IsJump w → pc ≡ w % 2 ^ 26 * 4 + add32 regs.epc 4 / 2 ^ 28 % 16 * 2 ^ 28 → Goes regs w pc
  returns : IsRegisterJump w → pc ≡ get_or regs.r (rs w) 0 → Goes regs w pc
  follows :
      ¬ (IsBranch w) → ¬ (IsJump w) → ¬ (IsRegisterJump w) → pc ≡ add32 regs.epc 4 → Goes regs w pc

-- A VFPU branch on a condition code other than 0.
abbrev pub IsCodedBranch : ℕ → Type 0
IsCodedBranch w = (opcode w ≡ 18) × (rs w ≡ 8) × (4 ≤ rt w)

-- What the decoding says of a branch, a jump and a return.
pub decode-branch :
    (regs : Regs) (w : ℕ)
    → IsBranch w
    → ¬ (IsCodedBranch w)
    → ((decode regs w).targetpc ≡ add32 (add32 regs.epc 4) (branch_offset w))
      × ((decode regs w).branch ≡ true)
      × ((decode regs w).cond ≡ true)
      × ((decode regs w).link ≡ false)
unfolding decode
decode-branch regs w h c = ground arith

pub decode-jump :
    (regs : Regs) (w : ℕ)
    → IsJump w
    → ((decode regs w).targetpc ≡ w % 2 ^ 26 * 4 + add32 regs.epc 4 / 2 ^ 28 % 16 * 2 ^ 28)
      × ((decode regs w).branch ≡ true)
      × ((decode regs w).cond ≡ false)
unfolding decode
decode-jump regs w h = ground arith

pub decode-register_jump :
    (regs : Regs) (w : ℕ)
    → IsRegisterJump w
    → ((decode regs w).targetpc ≡ get_or regs.r (rs w) 0)
      × ((decode regs w).branch ≡ true)
      × ((decode regs w).cond ≡ false)
unfolding decode
decode-register_jump regs w h = ground arith

main_test : (w : ℕ) → ¬ (IsBranch w) → is_branch_opcode (opcode w) ≡ false
main_test w h = elim (Bool-cases (is_branch_opcode (opcode w))) [
  | inl t ↦ absurd (h (inl (main t)))
  | inr f ↦ f
]
  where
    main : is_branch_opcode (opcode w) ≡ true → IsMainBranch w
    main t = ground arith

regimm_test : (w : ℕ) → ¬ (IsBranch w) → (opcode w == 0x1 && is_regimm_branch (bits w 16 5)) ≡ false
regimm_test w h = elim (Bool-cases (opcode w == 0x1 && is_regimm_branch (bits w 16 5))) [
  | inl t ↦ absurd (h (inl (main t)))
  | inr f ↦ f
]
  where
    main : (opcode w == 0x1 && is_regimm_branch (bits w 16 5)) ≡ true → IsMainBranch w
    main t = ground arith

cop_test :
    (w : ℕ)
    → ¬ (IsBranch w)
    → ((opcode w == 0x10 || opcode w == 0x11 || opcode w == 0x12) && is_cop_branch (bits w 16 10))
      ≡ false
cop_test w h =
    elim (Bool-cases (
      (opcode w == 0x10 || opcode w == 0x11 || opcode w == 0x12) && is_cop_branch (bits w 16 10))) [
        | inl t ↦ absurd (h (inr (main t)))
        | inr f ↦ f
      ]
  where
    main :
        ((opcode w == 0x10 || opcode w == 0x11 || opcode w == 0x12) && is_cop_branch (bits w 16 10))
          ≡ true
        → IsCopBranch w
    main t = ground arith

jump_test : (w : ℕ) → ¬ (IsJump w) → (opcode w == 0x3 || opcode w == 0x2) ≡ false
jump_test w h = ground arith

register_test :
    (w : ℕ) → ¬ (IsRegisterJump w) → (opcode w == 0x0 && (w % 64 == 0x9 || w % 64 == 0x8)) ≡ false
register_test w h = ground arith

-- The ladder of tests in `decode`, over any outcomes of the tests.
ladder :
    (main one regimm jal j special jalr jr cop branch : Bool) (c s l k r t : Decoded)
    → main ≡ false
    → (one && regimm) ≡ false
    → (cop && branch) ≡ false
    → (jal || j) ≡ false
    → (special && (jalr || jr)) ≡ false
    → (if main
        then c
        else if one
        then (if regimm then c else s)
        else if jal
        then l
        else if j
        then k
        else if special
        then (if jalr then r else if jr then t else s)
        else if cop
        then (if branch then c else s)
        else s)
      ≡ s
ladder _ _ _ _ _ _ _ _ _ _ c s l k r t h₁ h₂ h₃ h₄ h₅ = ground arith

-- Whatever is neither branch nor jump continues behind itself.
pub decode-sequential :
    (regs : Regs) (w : ℕ)
    → ¬ (IsBranch w)
    → ¬ (IsJump w)
    → ¬ (IsRegisterJump w)
    → decode regs w ≡ sequential (add32 regs.epc 4)
unfolding decode
decode-sequential regs w b j r =
    ladder (is_branch_opcode (opcode w)) (opcode w == 0x1) (is_regimm_branch (bits w 16 5))
      (opcode w == 0x3) (opcode w == 0x2) (opcode w == 0x0) (w % 64 == 0x9) (w % 64 == 0x8)
      (opcode w == 0x10 || opcode w == 0x11 || opcode w == 0x12) (is_cop_branch (bits w 16 10)) _ _
      _ _ _ _ (main_test w b) (regimm_test w b) (cop_test w b) (jump_test w j) (register_test w r)

-- A VFPU branch on a condition code other than 0 is decoded as if it were no branch.
pub decode-coded_branch :
    (regs : Regs) (w : ℕ)
    → IsCodedBranch w
    → ((decode regs w).targetpc ≡ add32 regs.epc 4)
      × ((decode regs w).branch ≡ false)
      × ((decode regs w).link ≡ false)
unfolding decode
decode-coded_branch regs w h = ground arith

-- Whatever is decoded as conditional is a branch with a 16-bit offset.
pub decode-cond :
    (regs : Regs) (w : ℕ)
    → (decode regs w).cond ≡ true
    → ((decode regs w).branch ≡ true)
      × ((decode regs w).targetpc ≡ add32 (add32 regs.epc 4) (branch_offset w))
unfolding decode
decode-cond regs w h = ground arith
