-- ===== src/Gdb/StubTests.antt =====
-- Runs of the stub, and the theorems about its sessions at them.
use psplink.Base.{
  ℕ, ◌+◌, ◌-◌, ◌*◌, ◌≡◌, ◌≢◌, refl, false, [], ◌∷◌, ◌++◌, none, Text, codes, replicate, arith,
}
use psplink.Gdb.Hex.{Bytes, write_byte, mem2hex}
use psplink.Gdb.Packet.{frame}
use psplink.Gdb.Transfer.{store, hexed}
use psplink.Gdb.Context.{running, Kernel, Debuggee, Stub, with_output}
use psplink.Gdb.Queries.{handle_query, valid_threads, first_thread, is_ours, digits}
use psplink.Gdb.Commands.{answered, read_registers, write_registers}
use psplink.Gdb.Stub.{Ended, returned, broken, unfinished, serve, gdb_handle_exception}
use psplink.Gdb.Rounds.{gdb_handle_exception-finishes}
use psplink.Gdb.Safety.{IsClear, gdb_handle_exception-Outside}
use psplink.Gdb.Exchange.{serve-write_read}
use psplink.Gdb.Requests.{write_packet, read_packet}
use psplink.Gdb.Contexts.{write_registers-read}

-- A kernel with two threads, of which the second one belongs to the application.
abbrev small_kernel : Kernel
small_kernel = record {
  World = ℕ;
  signo = λ c. 5;
  thread_list = λ w. 0x11 ∷ 0x22 ∷ [];
  thread_status = λ t w. running (0x08800000 + t * 16 - 0x110) (codes "main");
  start_module = λ w. w + 1;
  exit_game = λ w. 0;
}

abbrev target : Debuggee
target = record {
  ctx = 0x08900000;
  text_addr = 0x08800100;
  text_size = 0x1000;
  data_size = 0x100;
  segmentaddr = [];
  elf = false;
}

abbrev stopped : Text → Stub small_kernel
stopped link = record {
  world = 0;
  memory = λ a. 0;
  step0 = record { address = 0; oldinst = 0; active = false };
  step1 = record { address = 0; oldinst = 0; active = false };
  hardware = record { hw = false; iaddr = 0; daddr = 0; datatype = 0; env = none; output = [] };
  started = false;
  input = replicate 2048 0;
  threads = [];
  thread_loc = 0;
  link = link;
  wrote = [];
}

ours_listed :
    (handle_query target (codes "fThreadInfo") (stopped [])).hardware.output ≡ codes "m00000022"
unfolding handle_query valid_threads first_thread is_ours digits psplink.Util.Path.matches
ours_listed = refl

gdb_handle_exception-finishes_example :
    gdb_handle_exception target (stopped (codes "$?#3f")) ≢ unfinished
gdb_handle_exception-finishes_example =
    gdb_handle_exception-finishes target (stopped (codes "$?#3f"))

serve-write_read_example :
    (t : Stub small_kernel) × (serve target 2 5 (
        stopped (
          frame (write_packet 0x08800010 (codes "AB"))
          ++ (b'+' ∷ (frame (read_packet 0x08800010 2) ++ (b'+' ∷ [])))))
      ≡ serve target 0 5 t)
    × (t.memory ≡ store (codes "AB") 0x08800010 (λ a. 0))
    × (t.link ≡ [])
    × (t.wrote ≡ codes "+" ∷ frame (codes "OK") ∷ codes "+" ∷ frame (hexed (codes "AB")) ∷ [])
serve-write_read_example =
    serve-write_read target 0 5 0x08800010 (codes "AB") []
      (stopped (
        frame (write_packet 0x08800010 (codes "AB"))
        ++ (b'+' ∷ (frame (read_packet 0x08800010 2) ++ (b'+' ∷ [])))))
      (omega arith, omega arith) (omega arith, (omega arith, tt)) (omega arith) refl

write_registers-read_example :
    (t : Text) × (read_registers target (stopped []) ≡ answered (with_output t (stopped [])))
    × (write_registers target (t ++ (0 ∷ [])) (stopped [])
        ≡ answered (with_output (codes "OK") (stopped [])))
write_registers-read_example =
    write_registers-read target (0 ∷ []) (stopped []) (omega arith) (omega arith) (λ c. omega arith)

-- A byte is written, and the link is closed.
abbrev one_write : Stub small_kernel
one_write = stopped (codes "$M8800010,1:41#aa+")

abbrev state_of : Ended small_kernel → Stub small_kernel
state_of (returned r t) = t
state_of broken = stopped []
state_of unfinished = stopped []

abbrev afterwards : Stub small_kernel
afterwards = state_of (gdb_handle_exception target one_write)

one_write-returned : gdb_handle_exception target one_write ≡ returned false afterwards
unfolding gdb_handle_exception psplink.Gdb.Packet.getpacket psplink.Gdb.Packet.read_body
    psplink.Gdb.Hex.hex psplink.Gdb.Commands.command psplink.Gdb.Hex.hex_to_int
    psplink.Gdb.Hex.hex2mem psplink.Gdb.Hex.undigit psplink.Gdb.Hex.gdb_write_byte
    psplink.Gdb.Packet.putpacket
one_write-returned = refl

one_write-stored : afterwards.memory 0x08800010 ≡ 0x41
unfolding gdb_handle_exception psplink.Gdb.Packet.getpacket psplink.Gdb.Packet.read_body
    psplink.Gdb.Hex.hex psplink.Gdb.Commands.command psplink.Gdb.Hex.hex_to_int
    psplink.Gdb.Hex.hex2mem psplink.Gdb.Hex.undigit psplink.Gdb.Hex.gdb_write_byte
    psplink.Gdb.Packet.putpacket
one_write-stored = refl

one_write-IsClear : IsClear 0x08700002 afterwards
unfolding gdb_handle_exception psplink.Gdb.Packet.getpacket psplink.Gdb.Packet.read_body
    psplink.Gdb.Step.stub_recover psplink.Gdb.Hex.hex psplink.Gdb.Commands.command
    psplink.Gdb.Hex.hex_to_int psplink.Gdb.Hex.hex2mem psplink.Gdb.Hex.undigit
    psplink.Gdb.Hex.gdb_write_byte psplink.Gdb.Packet.putpacket
one_write-IsClear = ((λ e. refl), (λ e. refl))

gdb_handle_exception-Outside_example : afterwards.memory 0x08700002 ≡ 0
gdb_handle_exception-Outside_example =
    gdb_handle_exception-Outside target one_write afterwards false 0x08700002 (omega arith)
      (omega arith) (λ c. omega arith) one_write-returned refl
      ((λ e. absurd (cc)), (λ e. absurd (cc))) one_write-IsClear
