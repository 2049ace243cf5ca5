-- ===== src/Gdb/Hardware.antt =====
-- gdbcommon/gdb-stub.c: `handle_hwbp`, for the packets `Z` and `z`, with the part of `g_context`
-- that it keeps and the debug registers of psplink/debug.c (`debugGetEnv`, `debugSetEnv`).
use psplink.Base.{
  ℕ, ◌+◌, ◌*◌, ◌^◌, Bool, true, false, not, ◌||◌, [], ◌∷◌, Option, none, some, ◌==◌, if◌then◌else◌,
  within, codes, Text,
}
use psplink.Gdb.Hex.{hex_to_int}

-- `struct DebugEnv`
pub record DebugEnv : Type 0 where
  pub flags : ℕ
  pub drcntl : ℕ
  pub ibc : ℕ
  pub dbc : ℕ
  pub iba : ℕ
  pub ibam : ℕ
  pub dba : ℕ
  pub dbam : ℕ
  pub dbd : ℕ
  pub dbdm : ℕ

-- `hw`, `iaddr`, `daddr` and `datatype` of `g_context`, the reply in `output`, and the debug
-- environment of the kernel: `none` where `debug_get_env` finds none.
pub record Hardware : Type 0 where
  pub hw : Bool
  pub iaddr : ℕ
  pub daddr : ℕ
  pub datatype : ℕ
  pub env : Option DebugEnv
  pub output : Text

-- debugGetEnv(&env); env... = ...; debugSetEnv(&env)
abbrev pub update_env : (DebugEnv → DebugEnv) → Option DebugEnv → Option DebugEnv
update_env f none = none
update_env f (some e) = some (f e)

abbrev pub reply : Text → Hardware → Hardware
reply t s = record s { output = t }

-- hexToInt(&ptr, &addr) && *ptr++ == ',' && hexToInt(&ptr, &len)
unfoldable pub address_and_length : Text → Option (ℕ × ℕ)
address_and_length str = elim (hex_to_int str) [
  | none ↦ none
  | some (addr, []) ↦ none
  | some (addr, c ∷ rest) ↦
      if c == b','
      then elim (hex_to_int rest) [ none ↦ none | some (len, _) ↦ some (addr, len) ]
      else none
]

-- The case '1' of the switch.
unfoldable pub instruction_bp : ℕ → Bool → Hardware → Hardware
instruction_bp addr true s =
    if s.iaddr == 0
    then record s {
      iaddr = addr;
      env = update_env (λ e. record e { iba = addr; ibam = 0; ibc = 2 }) s.env;
      output = codes "OK";
    }
    else reply (codes "E03") s
instruction_bp addr false s =
    if not (s.iaddr == 0)
    then record s {
      iaddr = 0;
      env = update_env (λ e. record e { iba = 0; ibam = 0; ibc = 0 }) s.env;
      output = codes "OK";
    }
    else reply (codes "E03") s

-- The cases '2', '3' and '4'; the shift is of at most 3.
unfoldable pub data_bp : ℕ → ℕ → Bool → Hardware → Hardware
data_bp datatype addr true s =
    if s.daddr == 0
    then record s {
      daddr = addr;
      datatype = datatype;
      env = update_env (λ e. record e { dba = addr; dbam = 0; dbc = datatype * 2 ^ 20 + 2 }) s.env;
      output = codes "OK";
    }
    else reply (codes "E03") s
data_bp datatype addr false s =
    if not (s.daddr == 0)
    then record s {
      daddr = 0;
      datatype = 0;
      env = update_env (λ e. record e { dba = 0; dbam = 0; dbc = 0 }) s.env;
      output = codes "OK";
    }
    else reply (codes "E03") s

-- The switch on the kind of breakpoint.
unfoldable pub hwbp_kind : ℕ → ℕ → Bool → Hardware → Hardware
hwbp_kind kind addr set s =
    if kind == b'1'
    then instruction_bp addr set s
    else if kind == b'4'
    then data_bp 3 addr set s
    else if kind == b'2'
    then data_bp 2 addr set s
    else if kind == b'3'
    then data_bp 1 addr set s
    else s

-- `handle_hwbp`, once the hardware is there.
unfoldable pub parsed_hwbp : Text → Bool → Hardware → Hardware
parsed_hwbp (kind ∷ c ∷ str) set s =
    if not (within b'0' b'9' kind) || not (c == b',')
    then reply (codes "E01") s
    else elim (address_and_length str) [
      | none ↦ reply (codes "E01") s
      | some (addr, _) ↦ hwbp_kind kind addr set s
    ]
parsed_hwbp _ set s = reply (codes "E01") s

unfoldable pub handle_hwbp : Text → Bool → Hardware → Hardware
handle_hwbp str set s = if not s.hw then s else parsed_hwbp str set s
