-- ===== src/Gdb/Stub.antt =====
-- gdbcommon/gdb-stub.c: `GdbHandleException`. The flushes of the caches and the variable `attached`,
-- which nothing reads, are left out.
use psplink.Base.{
  ℕ, zero, suc, Bool, true, false, [], ◌∷◌, ◌++◌, Option, none, some, ◌==◌, if◌then◌else◌, get_or,
  length, drop,
}
use psplink.Gdb.Packet.{putpacket, Got, getpacket}
use psplink.Gdb.Step.{stub_recover}
use psplink.Gdb.Context.{Kernel, Debuggee, Stub, debugger_of, with_debugger, with_output}
use psplink.Gdb.Commands.{Outcome, answered, restart, crashed, signal_of, build_trap_cmd, command}

-- How `GdbHandleException` ends: it returns, or it has crashed; `unfinished` is the end of the fuel.
pub data Ended (kernel : Kernel) : Type 0 where
  returned : Bool → Stub kernel → Ended kernel
  broken : Ended kernel
  unfinished : Ended kernel

-- One round of its loop.
pub data Turn (kernel : Kernel) : Type 0 where
  goes_on : Stub kernel → Turn kernel
  ends : Bool → Stub kernel → Turn kernel
  fails : Turn kernel

module _ {kernel : Kernel} where
  -- `putpacket(output)`
  unfoldable pub send_output : Stub kernel → Stub kernel
  send_output s =
      let p = putpacket s.hardware.output s.link in
      record s { link = p.left; wrote = s.wrote ++ p.writes }

  -- `getpacket(input)`
  unfoldable pub received : Got → Stub kernel → Stub kernel
  received g s = record s { input = g.buffer; link = g.left; wrote = s.wrote ++ (g.replies ∷ []) }

  -- The step breakpoints are taken out.
  unfoldable pub recovered : Stub kernel → Stub kernel
  recovered s = with_debugger (stub_recover (debugger_of s)) s

  unfoldable pub turn_of : Outcome kernel → Turn kernel
  unfolding send_output
  turn_of (answered s) = goes_on (send_output s)
  turn_of (restart s) = ends true s
  turn_of crashed = fails

module _ {kernel : Kernel} (target : Debuggee) where
  -- The rest of a round, with a packet in the input buffer.
  unfoldable pub on_packet : ℕ → Stub kernel → Turn kernel
  unfolding turn_of send_output
  on_packet sigval s =
      let s' = with_output [] s in
      if get_or s.input 0 0 == b'D'
      then ends true (send_output s')
      else turn_of (command target sigval (get_or s.input 0 0) (drop 1 s.input) s')

  unfoldable pub turn : ℕ → Got → Stub kernel → Turn kernel
  unfolding on_packet received
  turn sigval g s =
      if g.returned then on_packet sigval (received g s) else ends false (received g s)

  unfoldable pub serve : ℕ → ℕ → Stub kernel → Ended kernel
  unfolding turn
  serve zero sigval s = unfinished
  serve (suc fuel) sigval s = elim (getpacket s.input s.link) [
    | none ↦ unfinished
    | some g ↦ elim (turn sigval g s) [
      | goes_on s' ↦ serve fuel sigval s'
      | ends b s' ↦ returned b s'
      | fails ↦ broken
    ]
  ]

  -- The report of the exception, to a program that was started.
  unfoldable pub report : ℕ → Stub kernel → Option (Stub kernel)
  unfolding send_output
  report sigval s =
      if s.started
      then elim (build_trap_cmd target sigval s) [
        | none ↦ none
        | some t ↦ some (send_output (with_output t s))
      ]
      else some s

  -- A round takes a byte of the link at least.
  unfoldable pub gdb_handle_exception : Stub kernel → Ended kernel
  unfolding report recovered serve
  gdb_handle_exception s =
      let sigval = kernel.signo (signal_of target s.memory) in
      elim (report sigval (recovered s)) [
        | none ↦ broken
        | some s' ↦ serve (suc (length s'.link)) sigval s'
      ]
