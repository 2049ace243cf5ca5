-- ===== src/Gdb/Context.antt =====
-- psplink_user/psplink_ex.h: `struct PsplinkContext` in memory; gdbcommon/gdb-common.h:
-- `struct GdbContext`; and the state of gdbcommon/gdb-stub.c. The program that is debugged and the
-- stub live in user memory, which is the same in all its mirrors.
use psplink.Base.{ℕ, zero, suc, ◌+◌, ◌-◌, ◌*◌, ◌/◌, ◌%◌, ◌^◌, Bool, List, [], ◌∷◌, Text}
use psplink.Base.Memory.{Mem}
use psplink.Mips.{Regs}
use psplink.Debug.{BreakPoint, Debugger}
use psplink.Gdb.Hex.{Bytes, write_byte}
use psplink.Gdb.Hardware.{Hardware}

-- The word that stands at an address, and one written there, the lowest byte first.
abbrev pub word : Bytes → ℕ → ℕ
word m a = m a + m (a + 1) * 256 + m (a + 2) * 65536 + m (a + 3) * 16777216

abbrev pub write_word : ℕ → ℕ → Bytes → Bytes
write_word v a m = write_byte (v / 16777216 % 256) (a + 3) (
    write_byte (v / 65536 % 256) (a + 2)
      (write_byte (v / 256 % 256) (a + 1) (write_byte (v % 256) a m)))

abbrev pub words_from : Bytes → ℕ → ℕ → List ℕ
words_from m a zero = []
words_from m a (suc n) = word m a ∷ words_from m (a + 4) n

-- The bytes as the words that `_lw` and `_sw` reach, and back.
abbrev pub as_words : Bytes → Mem
as_words m c = word m c

abbrev pub as_bytes : Mem → Bytes
as_bytes m a = m (a - a % 4) / 256 ^ (a % 4) % 256

-- The places of the registers, from the start of the context on.
abbrev pub r_at : ℕ
r_at = 32

abbrev pub status_at : ℕ
status_at = 160

abbrev pub cause_at : ℕ
cause_at = 176

abbrev pub epc_at : ℕ
epc_at = 180

abbrev pub fpr_at : ℕ
fpr_at = 184

abbrev pub fsr_at : ℕ
fsr_at = 312

abbrev pub frame_ptr_at : ℕ
frame_ptr_at = 320

abbrev pub index_at : ℕ
index_at = 328

abbrev pub type_at : ℕ
type_at = 392

abbrev pub thid_at : ℕ
thid_at = 908

abbrev pub drcntl_at : ℕ
drcntl_at = 912

-- The numbers of signal.h that the stub uses.
pub data Signal : Type 0 where
  sighup sigill sigtrap sigfpe sigbus sigsegv : Signal

-- What `sceKernelReferThreadStatus` says of a thread: an error, or its entry and its name.
pub data ThreadStatus : Type 0 where
  failed : ℕ → ThreadStatus
  running : ℕ → Text → ThreadStatus

-- The kernel, as the stub calls it; `thread_list` is empty where the call fails.
pub record Kernel : Type 1 where
  pub World : Type 0
  pub signo : Signal → ℕ
  pub thread_list : World → List ℕ
  pub thread_status : ℕ → World → ThreadStatus
  pub start_module : World → World
  pub exit_game : World → World

-- What does not change in `g_context`: where its `ctx` stands, and the module.
pub record Debuggee : Type 0 where
  pub ctx : ℕ
  pub text_addr : ℕ
  pub text_size : ℕ
  pub data_size : ℕ
  pub segmentaddr : List ℕ
  pub elf : Bool

-- The variables of the stub: memory, `g_stepbp`, the rest of `g_context`, the input buffer, the static
-- variables of `handle_query`, what the link still brings, and what was written to it, in order.
-- `output` is that of `hardware`.
pub record Stub (kernel : Kernel) : Type 0 where
  pub world : kernel.World
  pub memory : Bytes
  pub step0 : BreakPoint
  pub step1 : BreakPoint
  pub hardware : Hardware
  pub started : Bool
  pub input : Text
  pub threads : List ℕ
  pub thread_loc : ℕ
  pub link : Text
  pub wrote : List Text

-- What the stepping code works on.
abbrev pub debugger_of : {kernel : Kernel} → Stub kernel → Debugger
debugger_of s = record { bps = []; step0 = s.step0; step1 = s.step1; mem = as_words s.memory }

abbrev pub with_debugger : {kernel : Kernel} → Debugger → Stub kernel → Stub kernel
with_debugger d s = record s { step0 = d.step0; step1 = d.step1; memory = as_bytes d.mem }

abbrev pub regs_of : Bytes → ℕ → Regs
regs_of m ctx = record { r = words_from m (ctx + r_at) 32; epc = word m (ctx + epc_at) }

-- `strcpy(output, t)`
abbrev pub with_output : {kernel : Kernel} → Text → Stub kernel → Stub kernel
with_output t s = record s { hardware = record s.hardware { output = t } }
