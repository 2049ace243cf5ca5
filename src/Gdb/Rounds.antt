-- ===== src/Gdb/Rounds.antt =====
-- The end of `GdbHandleException`: each round takes a byte of the link at least.
use psplink.Base.{
  ℕ, zero, suc, ◌≤◌, ◌<◌, ◌≡◌, ◌≢◌, refl, ap, subst, Bool, true, false, [], ◌∷◌, ◌++◌, some, ◌==◌,
  if◌then◌else◌, Text, get_or, drop, length, Bool-cases, Option-cases, inl, inr, arith,
}
use psplink.Gdb.Packet.{frame, putpacket_loop, putpacket, Got, getpacket}
use psplink.Gdb.Termination.{getpacket-total, LessLeft, getpacket-LessLeft}
use psplink.Gdb.Context.{Kernel, Debuggee, Stub, with_output}
use psplink.Gdb.Commands.{Outcome, answered, restart, crashed, continue_cmd, step_cmd, signal_of}
use psplink.Gdb.Stub.{
  Ended, returned, broken, unfinished, Turn, goes_on, ends, fails, send_output, received, recovered,
  turn_of, on_packet, turn, serve, report, gdb_handle_exception,
}
use psplink.Gdb.Kept.{Kept, Answers, command-Answers}

putpacket_loop-left :
    (p buffer input : Text) → length (putpacket_loop p buffer input).left ≤ length input
unfolding putpacket_loop
putpacket_loop-left p buffer [] = omega arith
putpacket_loop-left p buffer (ch ∷ input) =
    ground (arith, putpacket_loop-left p (buffer ++ frame p) input)

module _ {kernel : Kernel} where
  -- What a round that goes on keeps of the state it began with, where so much of the link was left.
  pub record GoesOn (s : Stub kernel) (n : ℕ) (t : Stub kernel) : Type 0 where
    pub shorter : length t.link < n
    pub kept :
        (u : Stub kernel) × (Kept s u)
        × (t.memory ≡ u.memory)
        × (t.step0 ≡ u.step0)
        × (t.step1 ≡ u.step1)

  -- The same of a round, with what is asked of a state that it ends in.
  abbrev pub Turned : (Stub kernel → Type 0) → Stub kernel → ℕ → Turn kernel → Type 0
  Turned R s n (goes_on t) = GoesOn s n t
  Turned R s n (ends b t) = R t
  Turned R s n fails = Unit {0}

  turn_of-Turned :
      (R : Stub kernel → Type 0) (s : Stub kernel) (n : ℕ) (o : Outcome kernel)
      → length s.link < n
      → Answers R s o
      → Turned R s n (turn_of o)
  unfolding turn_of send_output putpacket
  turn_of-Turned R s n (answered t) h k = record {
    shorter = omega (arith, h, ap length k.link, putpacket_loop-left t.hardware.output [] t.link);
    kept = (t, k, refl, refl, refl);
  }
  turn_of-Turned R s n (restart t) h k = k
  turn_of-Turned R s n crashed h k = tt

  if-Turned :
      (R : Stub kernel → Type 0) (s : Stub kernel) (n : ℕ) (b : Bool) (x y : Turn kernel)
      → Turned R s n x
      → Turned R s n y
      → Turned R s n (if b then x else y)
  if-Turned R s n true x y h k = h
  if-Turned R s n false x y h k = k

module _ {kernel : Kernel} (target : Debuggee) where
  on_packet-Turned :
      (R : Stub kernel → Type 0) (sigval : ℕ) (s : Stub kernel) (n : ℕ)
      → length s.link < n
      → R (send_output (with_output [] s))
      → ((str : Text) → R (continue_cmd target str (with_output [] s)))
      → ((str : Text) → R (step_cmd target str (with_output [] s)))
      → Turned R (with_output [] s) n (on_packet target sigval s)
  unfolding on_packet
  on_packet-Turned R sigval s n h detached go_on step =
      if-Turned R (with_output [] s) n (get_or s.input 0 0 == b'D') _ _ detached (
        turn_of-Turned R (with_output [] s) n _ h (
          command-Answers target R sigval (get_or s.input 0 0) (drop 1 s.input) (with_output [] s)
            (go_on (drop 1 s.input)) (step (drop 1 s.input))))

  -- A round, by what holds of the states that it can end in: with the link lost, after `D`, `c` and `s`.
  pub turn-Turned :
      (R : Stub kernel → Type 0) (sigval : ℕ) (g : Got) (s : Stub kernel) (n : ℕ)
      → (g.returned ≡ true → length g.left < n)
      → let t = with_output [] (received g s) in
        R (received g s)
        → R (send_output t)
        → ((str : Text) → R (continue_cmd target str t))
        → ((str : Text) → R (step_cmd target str t))
        → Turned R t n (turn target sigval g s)
  unfolding turn received
  turn-Turned R sigval g s n h lost detached go_on step = elim (Bool-cases g.returned) [
    | inl t ↦ rw (t, turn) (on_packet-Turned R sigval (received g s) n (h t) detached go_on step)
    | inr f ↦ rw (f, turn) lost
  ]

  -- What follows a round.
  abbrev pub follow : ℕ → ℕ → Turn kernel → Ended kernel
  follow fuel sigval r = elim r [
    | goes_on t ↦ serve target fuel sigval t
    | ends b t ↦ returned b t
    | fails ↦ broken
  ]

  follow-finishes :
      (fuel sigval n : ℕ) (s : Stub kernel) (r : Turn kernel)
      → n ≤ fuel
      → Turned (λ t. Unit {0}) s n r
      → ((t : Stub kernel) → length t.link < fuel → serve target fuel sigval t ≢ unfinished)
      → follow fuel sigval r ≢ unfinished
  follow-finishes fuel sigval n s (goes_on t) h k ih = ih t (omega (arith, k.shorter))
  follow-finishes fuel sigval n s (ends b t) h k ih = λ e. cc
  follow-finishes fuel sigval n s fails h k ih = λ e. cc

  serve-finishes :
      (fuel sigval : ℕ) (s : Stub kernel)
      → length s.link < fuel
      → serve target fuel sigval s ≢ unfinished
  unfolding serve
  serve-finishes zero sigval s h = absurd (omega arith)
  serve-finishes (suc fuel) sigval s h = elim (Option-cases (getpacket s.input s.link)) [
    | inl e ↦ absurd (getpacket-total s.input s.link e)
    | inr (g, e) ↦
        let less : LessLeft (some g) (length s.link) =
          subst (λ o. LessLeft o (length s.link)) e (getpacket-LessLeft s.input s.link) in
        rw (e, serve)
          (follow-finishes fuel sigval (length s.link) (with_output [] (received g s))
            (turn target sigval g s) (omega arith)
            (turn-Turned (λ t. Unit {0}) sigval g s (length s.link) less tt tt (λ x. tt) (λ x. tt))
            (serve-finishes fuel sigval))
  ]

  -- `GdbHandleException` comes to an end on every link that does, whatever it brings: the rounds that
  -- its loop is given are enough.
  pub gdb_handle_exception-finishes : (s : Stub kernel) → gdb_handle_exception target s ≢ unfinished
  unfolding gdb_handle_exception
  gdb_handle_exception-finishes s =
      let sigval : ℕ = kernel.signo (signal_of target s.memory) in
      elim (Option-cases (report target sigval (recovered s))) [
        | inl e ↦ rw (e, gdb_handle_exception) (λ x. cc)
        | inr (t, e) ↦
            rw (e, gdb_handle_exception)
              (serve-finishes (suc (length t.link)) sigval t (omega arith))
      ]
