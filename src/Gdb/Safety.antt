-- ===== src/Gdb/Safety.antt =====
-- A whole call of `GdbHandleException`, for the memory that is not the user's.
use psplink.Base.{
  ℕ, zero, suc, ◌+◌, ◌-◌, ◌%◌, ◌≤◌, ◌<◌, ◌≡◌, refl, sym, subst, Bool, false, [], some, length,
  Bool-cases, Option-cases, inl, inr, arith,
}
use psplink.Gdb.Hex.{Bytes, allowed}
use psplink.Gdb.Packet.{getpacket}
use psplink.Gdb.Termination.{LessLeft, getpacket-LessLeft}
use psplink.Gdb.Context.{Kernel, Debuggee, Stub, with_output}
use psplink.Gdb.Commands.{signal_of, build_trap_cmd}
use psplink.Gdb.Stub.{
  returned, Turn, goes_on, ends, fails, send_output, received, recovered, turn, serve, report,
  gdb_handle_exception,
}
use psplink.Gdb.Rounds.{Turned, turn-Turned, follow}
use psplink.Gdb.Outside.{
  SameWord, HoldsBytes, IsSpare, SameWord-trans, SameOutside-word, recovered-Keeps,
  continue_cmd-Keeps, step_cmd-Keeps,
}

HoldsBytes-same : (b : ℕ) (m m' : Bytes) → HoldsBytes b m → SameWord b m m' → HoldsBytes b m'
HoldsBytes-same b m m' h same = λ k l. subst (λ n. n < 256) (sym (same k l)) (h k l)

module _ {kernel : Kernel} (target : Debuggee) (low : 0x08800000 ≤ target.ctx)
    (high : target.ctx + 916 ≤ 0x0a000000) (b : ℕ) (aligned : b % 4 ≡ 0)
    (out : allowed b ≡ false) where
  -- The word at `b` is the same, if no step breakpoint is left in it.
  abbrev pub Back : Bytes → Stub kernel → Type 0
  Back m t = IsSpare b t.step0 → IsSpare b t.step1 → SameWord b m t.memory

  injected :
      (r r' : Bool) (t t' : Stub kernel) (m : Bytes)
      → Back m t'
      → returned r' t' ≡ returned r t
      → Back m t
  injected r r' t t' m h e = let same : t' ≡ t = cc in subst (Back m) same h

  follow-Back :
      (fuel sigval n : ℕ) (m : Bytes) (s t : Stub kernel) (r : Bool) (u : Turn kernel)
      → HoldsBytes b m
      → SameWord b m s.memory
      → Turned (Back m) s n u
      → ((v : Stub kernel)
          → HoldsBytes b v.memory
          → serve target fuel sigval v ≡ returned r t
          → Back v.memory t)
      → follow target fuel sigval u ≡ returned r t
      → Back m t
  follow-Back fuel sigval n m s t r (goes_on v) h same k ih e =
      let (w, kept, mem, _, _) = k.kept in
      let here : SameWord b m v.memory = SameWord-trans b m s.memory v.memory same (
        subst (SameWord b s.memory) (sym mem)
          (SameOutside-word b s.memory w.memory aligned out kept.outside)) in
      λ p q.
        SameWord-trans b m v.memory t.memory here (ih v (HoldsBytes-same b m v.memory h here) e p q)
  follow-Back fuel sigval n m s t r (ends r' t') h same k ih e = injected r r' t t' m k e
  follow-Back fuel sigval n m s t r fails h same k ih e = absurd (cc)

  serve-Back :
      (fuel sigval : ℕ) (s t : Stub kernel) (r : Bool)
      → HoldsBytes b s.memory
      → serve target fuel sigval s ≡ returned r t
      → Back s.memory t
  unfolding serve received send_output
  serve-Back zero sigval s t r h e = absurd (cc)
  serve-Back (suc fuel) sigval s t r h e = elim (Option-cases (getpacket s.input s.link)) [
    | inl f ↦ absurd (cc)
    | inr (g, f) ↦
        let less : LessLeft (some g) (length s.link) =
          subst (λ o. LessLeft o (length s.link)) f (getpacket-LessLeft s.input s.link) in
        let u : Stub kernel = with_output [] (received g s) in
        follow-Back fuel sigval (length s.link) s.memory u t r (turn target sigval g s) h
          (λ k l. refl)
          (turn-Turned target (Back s.memory) sigval g s (length s.link) less (λ p q k l. refl)
            (λ p q k l. refl) (λ str p q. continue_cmd-Keeps target b aligned out low high str u)
            (λ str. step_cmd-Keeps target b aligned out low high str u h))
          (λ v k x. serve-Back fuel sigval v t r k x) (rw (f, serve) at e)
  ]

  -- The report of the exception leaves the memory and the step breakpoints alone.
  report-memory :
      (sigval : ℕ) (s t : Stub kernel) → report target sigval s ≡ some t → t.memory ≡ s.memory
  unfolding report send_output
  report-memory sigval s t e = elim (Bool-cases s.started) [
    | inr f ↦ ground arith
    | inl h ↦ elim (Option-cases (build_trap_cmd target sigval s)) [
      | inl g ↦ ground arith
      | inr (o, g) ↦ ground arith
    ]
  ]

  handled-Back :
      (s t : Stub kernel) (r : Bool)
      → HoldsBytes b s.memory
      → IsSpare b s.step0
      → IsSpare b s.step1
      → gdb_handle_exception target s ≡ returned r t
      → Back s.memory t
  unfolding gdb_handle_exception
  handled-Back s t r h x y e =
      let sigval : ℕ = kernel.signo (signal_of target s.memory) in
      let same : SameWord b s.memory (recovered s).memory =
        recovered-Keeps target b aligned out s h x y in
      elim (Option-cases (report target sigval (recovered s))) [
        | inl f ↦ absurd (cc)
        | inr (u, f) ↦
            let here : SameWord b s.memory u.memory =
              subst (SameWord b s.memory) (sym (report-memory sigval (recovered s) u f)) same in
            λ p q. SameWord-trans b s.memory u.memory t.memory here (
              serve-Back (suc (length u.link)) sigval u t r
                (HoldsBytes-same b s.memory u.memory h here) (rw (f, gdb_handle_exception) at e) p
                q)
      ]

-- No active step breakpoint stands in the word of an address.
abbrev pub IsClear : {kernel : Kernel} → ℕ → Stub kernel → Type 0
IsClear a s = IsSpare (a - a % 4) s.step0 × IsSpare (a - a % 4) s.step1

module _ {kernel : Kernel} (target : Debuggee) where
  -- Whatever packets arrive while the stub handles an exception: a byte that is not in user memory is
  -- the same when it returns, if no step breakpoint that was pending before or is planted at the end
  -- stands in its word. The stub's own context lies in user memory, and memory holds bytes.
  pub gdb_handle_exception-Outside :
      (s t : Stub kernel) (r : Bool) (a : ℕ)
      → 0x08800000 ≤ target.ctx
      → target.ctx + 916 ≤ 0x0a000000
      → ((c : ℕ) → s.memory c < 256)
      → gdb_handle_exception target s ≡ returned r t
      → allowed a ≡ false
      → IsClear a s
      → IsClear a t
      → t.memory a ≡ s.memory a
  gdb_handle_exception-Outside s t r a low high bytes e out (x, y) (p, q) =
      let b : ℕ = a - a % 4 in
      let there : b + a % 4 ≡ a = omega arith in
      subst (λ c. t.memory c ≡ s.memory c) there
        (handled-Back target low high b (omega arith) (ground arith) s t r (λ k l. bytes (b + k)) x
          y e p q (a % 4) (omega arith))
