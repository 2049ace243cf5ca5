-- ===== src/Gdb/Tests.antt =====
-- Runs of the stub at small packets, and the theorems at inputs that meet their hypotheses.
use psplink.Base.Texts.{cstr}
use psplink.Base.{
  ℕ, zero, suc, ◌≡◌, ◌≢◌, refl, true, false, [], ◌∷◌, ◌++◌, some, arith, ◌==◌, if◌then◌else◌, Text,
  codes, length, replicate, get_or,
}
use psplink.Mips.{Regs}
use psplink.Debug.{BreakPoint, Debugger, step_generic, plant_step0}
use psplink.Debug.Table.{IsIdle}
use psplink.Base.Memory.{lw}
use psplink.Gdb.Hex.{Bytes, byte_of_digits, hex, hex_to_int, strtohex, done, hex2mem, mem2hex}
use psplink.Gdb.Packet.{checksum, frame, Got, getpacket, putpacket}
use psplink.Gdb.Framing.{Without, IsBody, getpacket-frame}
use psplink.Gdb.Resend.{getpacket_resent, putpacket_refused, copies, last_write}
use psplink.Gdb.Transfer.{mem2hex-load, hex2mem-mem2hex}
use psplink.Gdb.Decode.{stub_step_generic}
use psplink.Gdb.Step.{stub_recover, is_syscall, stub_step_generic_equiv, stub_step_round_trip}
use psplink.Gdb.Hardware.{DebugEnv, Hardware, address_and_length, handle_hwbp}
use psplink.Gdb.Registers.{InStep, handle_hwbp-InStep}

abbrev empty_buffer : Text
empty_buffer = replicate 8 0

name_in_hex : strtohex (codes "Az") ≡ codes "417a"
unfolding strtohex
name_in_hex = refl

ok_frame : frame (codes "OK") ≡ codes "$OK#9a"
unfolding frame checksum
ok_frame = refl

ok-IsBody : IsBody (codes "OK")
ok-IsBody = record { no_hash = (refl, (refl, tt)); no_nul = (refl, (refl, tt)); fits = omega arith }

g-IsBody : IsBody (codes "g")
g-IsBody = record { no_hash = (refl, tt); no_nul = (refl, tt); fits = omega arith }

getpacket-frame_example :
    (g : Got) × (getpacket empty_buffer (codes "++" ++ (frame (codes "OK") ++ codes "+")) ≡ some g)
    × (g.returned ≡ true)
    × (cstr g.buffer ≡ codes "OK")
    × (g.replies ≡ b'+' ∷ [])
    × (g.left ≡ codes "+")
getpacket-frame_example =
    getpacket-frame (codes "++") (codes "OK") (codes "+") empty_buffer (refl, (refl, tt)) ok-IsBody
      refl

wrong_digits : byte_of_digits (b'0') (b'0') ≢ checksum 0 (codes "g")
unfolding checksum hex
wrong_digits = omega arith

getpacket_resent_example :
    (g : Got) × (getpacket empty_buffer
        (b'$' ∷ (codes "g" ++ (b'#' ∷ b'0' ∷ b'0' ∷ (frame (codes "OK") ++ []))))
      ≡ some g)
    × (g.returned ≡ true)
    × (cstr g.buffer ≡ codes "OK")
    × (g.replies ≡ b'-' ∷ b'+' ∷ [])
    × (g.left ≡ [])
getpacket_resent_example =
    getpacket_resent (codes "g") (codes "OK") [] empty_buffer b'0' b'0' g-IsBody ok-IsBody
      wrong_digits refl

-- 2047 times `a` and a backquote, which add up to 255
abbrev long_text : Text
long_text = replicate 2047 b'a' ++ b'`' ∷ []

long-Without : (n : ℕ) → Without b'#' (replicate n b'a' ++ b'`' ∷ [])
long-Without zero = (refl, tt)
long-Without (suc n) = (refl, long-Without n)

long_sum : checksum 0 long_text ≡ 255
unfolding checksum
long_sum = refl

putpacket_refused_example :
    let s = putpacket (codes "OK") (codes "--" ++ (b'+' ∷ [])) in
    (s.acknowledged ≡ true)
    × (s.left ≡ [])
    × (length s.writes ≡ 3)
    × (last_write s.writes ≡ copies 3 (frame (codes "OK")))
putpacket_refused_example = putpacket_refused (codes "OK") (codes "--") [] (refl, (refl, tt))

abbrev bytes : Bytes
bytes a = if a == 0x08800001 then 0x23 else 7

two_bytes : mem2hex bytes 0x08800000 2 ≡ some (codes "0723")
two_bytes = mem2hex-load bytes 0x08800000 2

hex2mem-mem2hex_example :
    (t : Text) × (mem2hex bytes 0x08800000 2 ≡ some t)
    × (hex2mem (t ++ []) bytes 0x08800000 2 false ≡ done bytes)
hex2mem-mem2hex_example =
    hex2mem-mem2hex bytes 0x08800000 2 [] (omega arith, omega arith)
      (omega arith, (omega arith, tt))

abbrev unused : BreakPoint
unused = record { address = 0; oldinst = 0; active = false }

-- `syscall 0` at 0x08800000, and nothing else
abbrev caller : Debugger
caller = record {
  bps = [];
  step0 = unused;
  step1 = unused;
  mem = λ c. if c == 0x08800000 then 0xc else 0;
}

abbrev at_syscall : Regs
at_syscall = record { r = replicate 31 0 ++ 0x08800400 ∷ []; epc = 0x08800000 }

stub_step_generic_equiv_example : stub_step_generic at_syscall false caller ≡ (
    if is_syscall (lw caller.mem at_syscall.epc)
    then plant_step0 (get_or at_syscall.r 31 0) caller
    else step_generic at_syscall false caller)
stub_step_generic_equiv_example = stub_step_generic_equiv at_syscall false caller

stub_step_round_trip_example :
    let e = stub_recover (stub_step_generic at_syscall false caller) in
    (e.mem ≡ caller.mem) × IsIdle e
stub_step_round_trip_example =
    stub_step_round_trip at_syscall false (omega arith) (record { idle0 = refl; idle1 = refl })

abbrev clear_env : DebugEnv
clear_env = record {
  flags = 0;
  drcntl = 0;
  ibc = 0;
  dbc = 0;
  iba = 0;
  ibam = 0;
  dba = 0;
  dbam = 0;
  dbd = 0;
  dbdm = 0;
}

abbrev hardware : Hardware
hardware = record {
  hw = true;
  iaddr = 0;
  daddr = 0;
  datatype = 0;
  env = some clear_env;
  output = [];
}

hardware-InStep : InStep hardware
hardware-InStep = (
  (refl, refl, λ _. refl, λ n. absurd (n refl)),
  (refl, refl, λ _. (refl, refl), λ n. absurd (n refl)),
)

address_read : address_and_length (codes "8800000,4") ≡ some (0x08800000, 4)
unfolding address_and_length hex_to_int hex
address_read = refl

other_read : address_and_length (codes "9000000,4") ≡ some (0x09000000, 4)
unfolding address_and_length hex_to_int hex
other_read = refl

handle_hwbp-InStep_example : InStep (handle_hwbp (codes "2,8800000,4") true hardware)
handle_hwbp-InStep_example =
    handle_hwbp-InStep (codes "2,8800000,4") true hardware
      (λ addr len e. ground (arith, address_read)) hardware-InStep
