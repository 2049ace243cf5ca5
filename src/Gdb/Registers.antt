-- ===== src/Gdb/Registers.antt =====
-- The debug registers and the stub's record of them stay in step through the packets `Z` and `z`.
use psplink.Base.{
  ℕ, ◌+◌, ◌*◌, ◌^◌, ◌≡◌, ◌≢◌, refl, Bool, true, false, not, ◌||◌, [], ◌∷◌, Option, none, some,
  arith, ◌==◌, if◌then◌else◌, within, codes, Text, drop, inl, inr, Option-cases, Bool-cases,
}
use psplink.Gdb.Hardware.{
  DebugEnv, Hardware, update_env, address_and_length, instruction_bp, data_bp, hwbp_kind,
  parsed_hwbp, handle_hwbp,
}

-- The registers hold what `g_context` says: the breakpoint on instructions, and the one on data.
abbrev pub Instruction : ℕ → DebugEnv → Type 0
Instruction iaddr e =
    (e.iba ≡ iaddr) × (e.ibam ≡ 0) × (iaddr ≡ 0 → e.ibc ≡ 0) × (iaddr ≢ 0 → e.ibc ≡ 2)

abbrev pub Data : ℕ → ℕ → DebugEnv → Type 0
Data daddr datatype e =
    (e.dba ≡ daddr)
    × (e.dbam ≡ 0)
    × (daddr ≡ 0 → (e.dbc ≡ 0) × (datatype ≡ 0))
    × (daddr ≢ 0 → e.dbc ≡ datatype * 2 ^ 20 + 2)

abbrev EnvInStep : ℕ → ℕ → ℕ → Option DebugEnv → Type 0
EnvInStep iaddr daddr datatype none = Unit {0}
EnvInStep iaddr daddr datatype (some e) = Instruction iaddr e × Data daddr datatype e

abbrev pub InStep : Hardware → Type 0
InStep s = EnvInStep s.iaddr s.daddr s.datatype s.env

-- Writes of one half of the registers that keep the record of it, and leave the other half alone.
update_env-Instruction :
    (o : Option DebugEnv) (i d t : ℕ) (addr ctl : ℕ)
    → (addr ≡ 0 → ctl ≡ 0)
    → (addr ≢ 0 → ctl ≡ 2)
    → EnvInStep i d t o
    → EnvInStep addr d t (update_env (λ e. record e { iba = addr; ibam = 0; ibc = ctl }) o)
update_env-Instruction none i d t addr ctl z n h = tt
update_env-Instruction (some e) i d t addr ctl z n h = ((refl, refl, z, n), h.1)

update_env-Data :
    (o : Option DebugEnv) (i d t : ℕ) (addr datatype ctl : ℕ)
    → (addr ≡ 0 → (ctl ≡ 0) × (datatype ≡ 0))
    → (addr ≢ 0 → ctl ≡ datatype * 2 ^ 20 + 2)
    → EnvInStep i d t o
    → EnvInStep i addr datatype (update_env (λ e. record e { dba = addr; dbam = 0; dbc = ctl }) o)
update_env-Data none i d t addr datatype ctl z n h = tt
update_env-Data (some e) i d t addr datatype ctl z n h = (h.0, (refl, refl, z, n))

pick : (b : Bool) (x y : Hardware) → InStep x → InStep y → InStep (if b then x else y)
pick true x y hx hy = hx
pick false x y hx hy = hy

instruction_bp-InStep :
    (addr : ℕ) (set : Bool) (s : Hardware)
    → addr ≢ 0
    → InStep s
    → InStep (instruction_bp addr set s)
unfolding instruction_bp
instruction_bp-InStep addr true s n h = elim (Bool-cases (s.iaddr == 0)) [
  | inl t ↦ rw t (update_env-Instruction s.env _ _ _ addr 2 (λ z. absurd (n z)) (λ _. refl) h)
  | inr f ↦ rw f h
]
instruction_bp-InStep addr false s n h = elim (Bool-cases (s.iaddr == 0)) [
  | inl t ↦ rw t h
  | inr f ↦ rw f (update_env-Instruction s.env _ _ _ 0 0 (λ _. refl) (λ z. absurd (z refl)) h)
]

data_bp-InStep :
    (datatype addr : ℕ) (set : Bool) (s : Hardware)
    → addr ≢ 0
    → InStep s
    → InStep (data_bp datatype addr set s)
unfolding data_bp
data_bp-InStep datatype addr true s n h = elim (Bool-cases (s.daddr == 0)) [
  | inl t ↦ rw t (
      update_env-Data s.env _ _ _ addr datatype (datatype * 2 ^ 20 + 2) (λ z. absurd (n z))
        (λ _. refl) h)
  | inr f ↦ rw f h
]
data_bp-InStep datatype addr false s n h = elim (Bool-cases (s.daddr == 0)) [
  | inl t ↦ rw t h
  | inr f ↦ rw f (update_env-Data s.env _ _ _ 0 0 0 (λ _. (refl, refl)) (λ z. absurd (z refl)) h)
]

hwbp_kind-InStep :
    (kind addr : ℕ) (set : Bool) (s : Hardware)
    → addr ≢ 0
    → InStep s
    → InStep (hwbp_kind kind addr set s)
unfolding hwbp_kind
hwbp_kind-InStep kind addr set s n h =
    pick (kind == b'1') _ _ (instruction_bp-InStep addr set s n h) (
      pick (kind == b'4') _ _ (data_bp-InStep 3 addr set s n h) (
        pick (kind == b'2') _ _ (data_bp-InStep 2 addr set s n h)
          (pick (kind == b'3') _ _ (data_bp-InStep 1 addr set s n h) h)))

parsed_hwbp-InStep :
    (str : Text) (set : Bool) (s : Hardware)
    → ((addr len : ℕ) → address_and_length (drop 2 str) ≡ some (addr, len) → addr ≢ 0)
    → InStep s
    → InStep (parsed_hwbp str set s)
unfolding parsed_hwbp
parsed_hwbp-InStep [] set s n h = h
parsed_hwbp-InStep (kind ∷ []) set s n h = h
parsed_hwbp-InStep (kind ∷ c ∷ str) set s n h =
    elim (Bool-cases (not (within b'0' b'9' kind) || not (c == b','))) [
      | inl t ↦ rw t h
      | inr f ↦ rw f (elim (Option-cases (address_and_length str)) [
        | inl e ↦ rw e h
        | inr ((addr, len), e) ↦ rw e (hwbp_kind-InStep kind addr set s (n addr len e) h)
      ])
    ]

-- Through any `Z` or `z` packet, well formed or not, whose address, if it has one, is not 0, the
-- debug registers stay those that the stub's record of its two hardware breakpoints asks for.
pub handle_hwbp-InStep :
    (str : Text) (set : Bool) (s : Hardware)
    → ((addr len : ℕ) → address_and_length (drop 2 str) ≡ some (addr, len) → addr ≢ 0)
    → InStep s
    → InStep (handle_hwbp str set s)
unfolding handle_hwbp
handle_hwbp-InStep str set s n h = pick (not s.hw) _ _ h (parsed_hwbp-InStep str set s n h)

-- With the hardware there and no instruction breakpoint set, `Z1` with an address other than 0
-- sets one, and `z1` removes it with any address whatever, since the address of the packet is not
-- compared with the one in the register. Both replies are OK, and the registers are again free.
pub handle_hwbp_set_clear :
    (str str' : Text) (addr len addr' len' : ℕ) (s : Hardware)
    → s.hw ≡ true
    → s.iaddr ≡ 0
    → addr ≢ 0
    → address_and_length str ≡ some (addr, len)
    → address_and_length str' ≡ some (addr', len')
    → let s' = handle_hwbp (b'1' ∷ b',' ∷ str) true s in
      let s'' = handle_hwbp (b'1' ∷ b',' ∷ str') false s' in
      (s'.iaddr ≡ addr)
      × (s'.output ≡ codes "OK")
      × (s''.iaddr ≡ 0)
      × (s''.output ≡ codes "OK")
      × (s''.env ≡ update_env (λ e. record e { iba = 0; ibam = 0; ibc = 0 }) s'.env)
unfolding handle_hwbp parsed_hwbp hwbp_kind instruction_bp
handle_hwbp_set_clear str str' addr len addr' len' s h i n p p' = ground arith
