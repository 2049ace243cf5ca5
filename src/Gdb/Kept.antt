-- ===== src/Gdb/Kept.antt =====
-- What the commands of the stub leave alone: the link, the step breakpoints, and all memory that is
-- not the user's.
use psplink.Base.{
  ℕ, ◌*◌, ◌≡◌, refl, ◌∙◌, Bool, true, false, List, [], ◌∷◌, Option, none, some, ◌==◌, ltb,
  if◌then◌else◌, Text, codes, drop, length, Option-cases, inl, inr,
}
use psplink.Util.Path.{matches}
use psplink.Gdb.Hex.{Bytes, Written, done, refused, overrun, hex2mem, hex_to_int}
use psplink.Gdb.Context.{Kernel, Debuggee, Stub, with_output}
use psplink.Gdb.Queries.{valid_threads, first_thread, next_thread, thread_extra, handle_query}
use psplink.Gdb.Commands.{
  Outcome, answered, restart, crashed, command, continue_cmd, step_cmd, with_hwbp, replied,
  build_trap_cmd, last_signal, read_registers, write_registers, read_memory, stored, write_memory,
}
use psplink.Gdb.Ranges.{kept, hex2mem_all, range_of, as_count, register_ranges, mem2hex_all}
use psplink.Gdb.Hex.{mem2hex}
use psplink.Gdb.Untouched.{SameOutside, written, hex2mem-SameOutside}

module _ {kernel : Kernel} where
  -- What a command that is answered keeps.
  pub record Kept (s t : Stub kernel) : Type 0 where
    pub link : t.link ≡ s.link
    pub outside : SameOutside s.memory t.memory
    pub step0 : t.step0 ≡ s.step0
    pub step1 : t.step1 ≡ s.step1

  pub Kept-refl : (s : Stub kernel) → Kept s s
  Kept-refl s = record { link = refl; outside = λ c g. refl; step0 = refl; step1 = refl }

  -- The same of an outcome, with what is asked of a program that goes on.
  abbrev pub Answers : (Stub kernel → Type 0) → Stub kernel → Outcome kernel → Type 0
  Answers R s (answered t) = Kept s t
  Answers R s (restart t) = R t
  Answers R s crashed = Unit {0}

  pub if-Answers :
      (R : Stub kernel → Type 0) (s : Stub kernel) (b : Bool) (x y : Outcome kernel)
      → Answers R s x
      → Answers R s y
      → Answers R s (if b then x else y)
  if-Answers R s true x y h k = h
  if-Answers R s false x y h k = k

  pub with_memory-Kept :
      (s : Stub kernel) (m : Bytes) (t : Text)
      → SameOutside s.memory m
      → Kept s (with_output t (record s { memory = m }))
  with_memory-Kept s m t h = record { link = refl; outside = h; step0 = refl; step1 = refl }

  pub with_output-Kept : (t : Text) (s : Stub kernel) → Kept s (with_output t s)
  with_output-Kept t s = record { link = refl; outside = λ c g. refl; step0 = refl; step1 = refl }

  pub replied-Answers :
      (R : Stub kernel → Type 0) (target : Debuggee) (o : Option Text) (s : Stub kernel)
      → Answers R s (replied target o s)
  replied-Answers R target none s = tt
  replied-Answers R target (some t) s = with_output-Kept t s

  pub stored-Answers :
      (R : Stub kernel → Type 0) (target : Debuggee) (end : ℕ) (w : Written) (s : Stub kernel)
      → SameOutside s.memory (written w)
      → Answers R s (stored target end w s)
  unfolding stored
  stored-Answers R target end (done m) s h = with_memory-Kept s m _ h
  stored-Answers R target end (refused m) s h = with_memory-Kept s m _ h
  stored-Answers R target end (overrun m) s h = tt

hex2mem_all-SameOutside :
    (buf : Text) (ranges : List (ℕ × ℕ)) (m m' : Bytes)
    → hex2mem_all buf ranges m ≡ some m'
    → SameOutside m m'
unfolding hex2mem_all
hex2mem_all-SameOutside buf [] m m' e = λ c g. cc
hex2mem_all-SameOutside buf ((a, count) ∷ ranges) m m' e =
    go (hex2mem buf m a count false) (hex2mem-SameOutside buf m a count false)
      (λ m₁. hex2mem_all-SameOutside (drop (2 * count) buf) ranges m₁ m') e
  where
    go :
        (w : Written)
        → SameOutside m (written w)
        → ((m₁ : Bytes)
            → hex2mem_all (drop (2 * count) buf) ranges m₁ ≡ some m'
            → SameOutside m₁ m')
        → (elim (kept w) as (λ _. Option Bytes) [
          | none ↦ none
          | some m₁ ↦ hex2mem_all (drop (2 * count) buf) ranges m₁
        ])
          ≡ some m'
        → SameOutside m m'
    go (done m₁) h ih e₁ = λ c g. ih m₁ e₁ c g ∙ h c g
    go (refused m₁) h ih e₁ = λ c g. ih m₁ e₁ c g ∙ h c g
    go (overrun m₁) h ih e₁ = absurd (cc)

module _ {kernel : Kernel} (target : Debuggee) where
  first_thread-Kept : (ts : List ℕ) (s : Stub kernel) → Kept s (first_thread target ts s)
  unfolding first_thread
  first_thread-Kept [] s = record { link = refl; outside = λ c g. refl; step0 = refl; step1 = refl }
  first_thread-Kept (t ∷ ts) s = record {
    link = refl;
    outside = λ c g. refl;
    step0 = refl;
    step1 = refl;
  }

  if-Kept :
      (s : Stub kernel) (b : Bool) (x y : Stub kernel)
      → Kept s x
      → Kept s y
      → Kept s (if b then x else y)
  if-Kept s true x y h k = h
  if-Kept s false x y h k = k

  next_thread-Kept : (s : Stub kernel) → Kept s (next_thread target s)
  unfolding next_thread
  next_thread-Kept s =
      if-Kept s (ltb s.thread_loc (length s.threads)) _ _
        (record { link = refl; outside = λ c g. refl; step0 = refl; step1 = refl })
        (with_output-Kept _ s)

  thread_extra-Kept : (str : Text) (s : Stub kernel) → Kept s (thread_extra target str s)
  unfolding thread_extra
  thread_extra-Kept str s = elim (Option-cases (hex_to_int str)) [
    | inl e ↦ rw (e, thread_extra) (Kept-refl s)
    | inr ((thid, rest), e) ↦ rw (e, thread_extra) (with_output-Kept _ s)
  ]

  handle_query-Kept : (str : Text) (s : Stub kernel) → Kept s (handle_query target str s)
  unfolding handle_query
  handle_query-Kept str s = if-Kept s (matches (codes "C") str) _ _ (with_output-Kept _ s) (
      if-Kept s (matches (codes "fThreadInfo") str) _ _
        (first_thread-Kept
          (valid_threads target (λ t. kernel.thread_status t s.world) (kernel.thread_list s.world))
          s)
        (if-Kept s (matches (codes "sThreadInfo") str) _ _ (next_thread-Kept s) (
          if-Kept s (matches (codes "ThreadExtraInfo,") str) _ _ (thread_extra-Kept (drop 16 str) s)
            (if-Kept s (matches (codes "Offsets") str) _ _
              (if-Kept s target.elf _ _ (Kept-refl s) (with_output-Kept _ s)) (Kept-refl s)))))

  read_memory-Kept : (str : Text) (s : Stub kernel) → Kept s (read_memory target str s)
  unfolding read_memory
  read_memory-Kept str s = elim (Option-cases (range_of str)) [
    | inl e ↦ rw (e, read_memory) (with_output-Kept _ s)
    | inr ((addr, len, more), e) ↦ elim (Option-cases (mem2hex s.memory addr (as_count len))) [
      | inl f ↦ rw (e, f, read_memory) (with_output-Kept _ s)
      | inr (t, f) ↦ rw (e, f, read_memory) (with_output-Kept t s)
    ]
  ]

  write_registers-Answers :
      (R : Stub kernel → Type 0) (str : Text) (s : Stub kernel)
      → Answers R s (write_registers target str s)
  unfolding write_registers
  write_registers-Answers R str s =
      elim (Option-cases (hex2mem_all str (register_ranges target.ctx) s.memory)) [
        | inl e ↦ rw (e, write_registers) tt
        | inr (m, e) ↦
            rw (e, write_registers)
              (with_memory-Kept s m _
                (hex2mem_all-SameOutside str (register_ranges target.ctx) _ m e))
      ]

  write_memory-Answers :
      (R : Stub kernel → Type 0) (str : Text) (bflag : Bool) (s : Stub kernel)
      → Answers R s (write_memory target str bflag s)
  unfolding write_memory
  write_memory-Answers R str bflag s = elim (Option-cases (range_of str)) [
    | inl e ↦ rw (e, write_memory) (with_output-Kept _ s)
    | inr ((addr, len, []), e) ↦ rw (e, write_memory) (with_output-Kept _ s)
    | inr ((addr, len, c ∷ buf), e) ↦
        rw (e, write_memory)
          (if-Answers R s (c == b':') _ _
            (stored-Answers R target _ _ s
              (hex2mem-SameOutside buf s.memory addr (as_count len) bflag))
            (with_output-Kept _ s))
  ]

  -- No command that is answered touches the link, the step breakpoints, or memory that is not the user's.
  pub command-Answers :
      (R : Stub kernel → Type 0) (sigval c : ℕ) (str : Text) (s : Stub kernel)
      → R (continue_cmd target str s)
      → R (step_cmd target str s)
      → Answers R s (command target sigval c str s)
  unfolding command last_signal read_registers
  command-Answers R sigval c str s go_on step =
      if-Answers R s (c == b'?') _ _ (replied-Answers R target (build_trap_cmd target sigval s) s) (
        if-Answers R s (c == b'c') _ _ go_on (
          if-Answers R s (c == b'g') _ _
            (replied-Answers R target (mem2hex_all s.memory (register_ranges target.ctx)) s)
            (if-Answers R s (c == b'G') _ _ (write_registers-Answers R str s) (
              if-Answers R s (c == b'm') _ _ (read_memory-Kept str s) (
                if-Answers R s (c == b'X') _ _ (write_memory-Answers R str true s) (
                  if-Answers R s (c == b'M') _ _ (write_memory-Answers R str false s) (
                    if-Answers R s (c == b's') _ _ step (
                      if-Answers R s (c == b'q') _ _ (handle_query-Kept str s) (
                        if-Answers R s (c == b'Z') _ _ (hwbp true) (
                          if-Answers R s (c == b'z') _ _ (hwbp false) (
                            if-Answers R s (c == b'k') _ _ killed
                              (if-Answers R s (c == b'r') _ _ killed (Kept-refl s)))))))))))))
    where
      hwbp : (b : Bool) → Kept s (with_hwbp target str b s)
      hwbp b = record { link = refl; outside = λ c g. refl; step0 = refl; step1 = refl }

      killed : Kept s (record s { world = kernel.exit_game s.world })
      killed = record { link = refl; outside = λ c g. refl; step0 = refl; step1 = refl }
