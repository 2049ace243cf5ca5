-- ===== src/Gdb/Commands.antt =====
-- gdbcommon/gdb-stub.c: `computeSignal`, `build_trap_cmd`, and the commands of `GdbHandleException`.
use psplink.Base.{
  ℕ, ◌+◌, ◌/◌, ◌%◌, ◌^◌, Bool, true, false, [], ◌∷◌, ◌++◌, Option, none, some, ◌==◌, ◌&&◌, not,
  if◌then◌else◌, Text, codes,
}
use psplink.Gdb.Hex.{
  Bytes, digits_of_byte, mem2hex, Written, done, refused, overrun, hex2mem, hex_to_int,
}
use psplink.Gdb.Decode.{stub_step_generic}
use psplink.Gdb.Hardware.{handle_hwbp}
use psplink.Gdb.Context.{
  word, write_word, r_at, cause_at, epc_at, type_at, thid_at, drcntl_at, Signal, sigtrap, Kernel,
  Debuggee, Stub, debugger_of, with_debugger, regs_of, with_output,
}
use psplink.Gdb.Queries.{lower_hex, handle_query}
use psplink.Gdb.Ranges.{
  compute_signal, beside, mem2hex_all, watched, register_ranges, hex2mem_all, range_of, as_count,
}

-- How a command ends: the reply stands in `output`, the program goes on, or the source has left the
-- input buffer, written through a null pointer, or put digits before what an earlier reply has left
-- in `output`.
pub data Outcome (kernel : Kernel) : Type 0 where
  answered : Stub kernel → Outcome kernel
  restart : Stub kernel → Outcome kernel
  crashed : Outcome kernel

unfoldable pub signal_of : Debuggee → Bytes → Signal
unfolding compute_signal
signal_of target m =
    if word m (target.ctx + type_at) == 1
    then sigtrap
    else compute_signal (word m (target.ctx + cause_at) % 128 / 4)

module _ {kernel : Kernel} (target : Debuggee) where
  -- Whether the exception is one of the data breakpoint: bit 12 of `drcntl`.
  unfoldable pub is_data_bp : Stub kernel → Bool
  is_data_bp s =
      word s.memory (target.ctx + type_at) == 1
      && not (s.hardware.daddr == 0)
      && word s.memory (target.ctx + drcntl_at) / 2 ^ 12 % 2 == 1

  unfoldable pub build_trap_cmd : ℕ → Stub kernel → Option Text
  unfolding watched is_data_bp
  build_trap_cmd sigval s = beside (some (b'T' ∷ (digits_of_byte sigval ++ codes "25:"))) (
      beside (mem2hex s.memory (target.ctx + epc_at) 4) (
        beside (some (codes ";1e:")) (
          beside (mem2hex s.memory (target.ctx + r_at + 120) 4) (
            beside (some (codes ";1d:")) (
              beside (mem2hex s.memory (target.ctx + r_at + 116) 4) (
                some (
                  codes ";thread:"
                  ++ (lower_hex (word s.memory (target.ctx + thid_at))
                      ++ (codes ";" ++ watched (is_data_bp s) s.hardware)))))))))

  -- What was printed as the reply.
  abbrev pub replied : Option Text → Stub kernel → Outcome kernel
  replied none s = crashed
  replied (some t) s = answered (with_output t s)

  -- `?`
  unfoldable pub last_signal : ℕ → Stub kernel → Outcome kernel
  unfolding build_trap_cmd
  last_signal sigval s = replied (build_trap_cmd sigval s) s

  -- `c` and `s` with an address to go on at.
  unfoldable pub resumed_at : Text → Stub kernel → Stub kernel
  resumed_at str s = elim (hex_to_int str) [
    | none ↦ s
    | some (addr, _) ↦ record s { memory = write_word addr (target.ctx + epc_at) s.memory }
  ]

  unfoldable pub continue_cmd : Text → Stub kernel → Stub kernel
  unfolding resumed_at
  continue_cmd str s =
      if not s.started
      then record s { world = kernel.start_module s.world; started = true }
      else resumed_at str s

  unfoldable pub step_cmd : Text → Stub kernel → Stub kernel
  unfolding resumed_at
  step_cmd str s =
      let s' = resumed_at str s in
      with_debugger (stub_step_generic (regs_of s'.memory target.ctx) false (debugger_of s')) s'

  -- `g` and `G`
  unfoldable pub read_registers : Stub kernel → Outcome kernel
  unfolding mem2hex_all
  read_registers s = replied (mem2hex_all s.memory (register_ranges target.ctx)) s

  unfoldable pub write_registers : Text → Stub kernel → Outcome kernel
  unfolding hex2mem_all
  write_registers str s = elim (hex2mem_all str (register_ranges target.ctx) s.memory) [
    | none ↦ crashed
    | some m ↦ answered (with_output (codes "OK") (record s { memory = m }))
  ]

  -- `m`
  unfoldable pub read_memory : Text → Stub kernel → Stub kernel
  unfolding range_of
  read_memory str s = elim (range_of str) [
    | none ↦ with_output (codes "E01") s
    | some (addr, len, _) ↦ elim (mem2hex s.memory addr (as_count len)) [
      | none ↦ with_output (codes "E03") s
      | some t ↦ with_output t s
    ]
  ]

  -- `M` and `X`, behind their `:`. Where all is written `hex2mem` returns the address behind it, which
  -- is taken for an error if it is 0.
  unfoldable pub stored : ℕ → Written → Stub kernel → Outcome kernel
  stored end (done m) s =
      answered
        (with_output (if end == 0 then codes "E03" else codes "OK") (record s { memory = m }))
  stored end (refused m) s = answered (with_output (codes "E03") (record s { memory = m }))
  stored end (overrun m) s = crashed

  unfoldable pub write_memory : Text → Bool → Stub kernel → Outcome kernel
  unfolding range_of stored
  write_memory str bflag s = elim (range_of str) [
    | none ↦ answered (with_output (codes "E02") s)
    | some (addr, len, []) ↦ answered (with_output (codes "E02") s)
    | some (addr, len, c ∷ buf) ↦
        if c == b':'
        then stored (addr + as_count len) (hex2mem buf s.memory addr (as_count len) bflag) s
        else answered (with_output (codes "E02") s)
  ]

  abbrev pub with_hwbp : Text → Bool → Stub kernel → Stub kernel
  with_hwbp str set s = record s { hardware = handle_hwbp str set s.hardware }

  -- The switch on the first character of the packet; `D` is among what ends the loop.
  unfoldable pub command : ℕ → ℕ → Text → Stub kernel → Outcome kernel
  unfolding last_signal continue_cmd read_registers write_registers read_memory write_memory
      step_cmd
  command sigval c str s =
      if c == b'?'
      then last_signal sigval s
      else if c == b'c'
      then restart (continue_cmd str s)
      else if c == b'g'
      then read_registers s
      else if c == b'G'
      then write_registers str s
      else if c == b'm'
      then answered (read_memory str s)
      else if c == b'X'
      then write_memory str true s
      else if c == b'M'
      then write_memory str false s
      else if c == b's'
      then restart (step_cmd str s)
      else if c == b'q'
      then answered (handle_query target str s)
      else if c == b'Z'
      then answered (with_hwbp str true s)
      else if c == b'z'
      then answered (with_hwbp str false s)
      else if c == b'k'
      then answered (record s { world = kernel.exit_game s.world })
      else if c == b'r'
      then answered (record s { world = kernel.exit_game s.world })
      else answered s
