-- ===== src/Tty/Tests.antt =====
-- Runs of the ring buffer, and the theorems at a ring about to wrap round.
use psplink.Base.{◌≡◌, refl, [], ◌∷◌, ◌++◌, some, arith, codes, replicate}
use psplink.Tty.{Tty, write_loop, tty_add_input_data, read_loop, input_handler}
use psplink.Tty.Session.{start, Reached, begins, adds, reads, Reached-queue}
use psplink.Tty.Queue.{queue, IsValid}

-- One character waits, in the last place but one, and thread 7 waits too.
abbrev near_end : Tty
near_end = record {
  stdinbuf = replicate 4094 0 ++ b'a' ∷ 0 ∷ [];
  stdinreadpos = 4094;
  stdinwritepos = 4095;
  stdinsize = 1;
  stdinwaitth = some 7;
}

near_end-IsValid : IsValid near_end
near_end-IsValid = record { room = refl; size = omega arith; reading = omega arith; writing = refl }

wrapped : queue (tty_add_input_data (codes "bcd") near_end).0 ≡ codes "abcd"
unfolding tty_add_input_data write_loop
wrapped = refl

read_back : (input_handler 3 2 (tty_add_input_data (codes "bcd") near_end).0).0 ≡ codes "ab"
unfolding tty_add_input_data write_loop input_handler read_loop
read_back = refl

-- three characters added, two of them read
abbrev added : Tty
added = (tty_add_input_data (codes "abc") start).0

one_read : Reached (codes "abc") (input_handler 3 2 added).0 (input_handler 3 2 added).1
one_read = reads 3 2 (adds (codes "abc") begins)

Reached-queue_example :
    ((input_handler 3 2 added).0 ++ queue (input_handler 3 2 added).1 ≡ codes "abc")
    × IsValid (input_handler 3 2 added).1
Reached-queue_example = Reached-queue one_read
