-- ===== src/Tty.antt =====
-- psplink/tty.c: the ring buffer of standard input, between the thread that receives lines and the
-- one that reads. Each operation is one section with interrupts disabled, and so one step.
pub mod Queue
pub mod Session
mod Tests
use psplink.Base.{
  ℕ, zero, suc, ◌+◌, ◌-◌, ◌%◌, [], ◌∷◌, Option, none, some, ◌==◌, if◌then◌else◌, Text, set, get_or,
  take, min,
}

abbrev pub stdin_bufsize : ℕ
stdin_bufsize = 4096

-- `g_stdinbuf`, its positions and fill, and the thread that waits, if any.
pub record Tty : Type 0 where
  pub stdinbuf : Text
  pub stdinreadpos : ℕ
  pub stdinwritepos : ℕ
  pub stdinsize : ℕ
  pub stdinwaitth : Option ℕ

-- The loop of `ttyAddInputData`, over the characters that fit.
unfoldable pub write_loop : Text → Tty → Tty
write_loop [] t = t
write_loop (c ∷ chars) t = write_loop chars (record t {
  stdinbuf = set t.stdinbuf t.stdinwritepos c;
  stdinwritepos = (t.stdinwritepos + 1) % stdin_bufsize;
  stdinsize = t.stdinsize + 1;
})

-- `ttyAddInputData`, with the thread that it wakes up.
unfoldable pub tty_add_input_data : Text → Tty → Tty × Option ℕ
tty_add_input_data chars t = (
  record (write_loop (take (stdin_bufsize - t.stdinsize) chars) t) { stdinwaitth = none },
  t.stdinwaitth,
)

-- The loop of `inputHandler`, which reads `sizeread` characters.
unfoldable pub read_loop : ℕ → Tty → Text × Tty
read_loop zero t = ([], t)
read_loop (suc sizeread) t =
    let c = get_or t.stdinbuf t.stdinreadpos 0 in
    let (chars, t') = read_loop sizeread (record t {
      stdinreadpos = (t.stdinreadpos + 1) % stdin_bufsize;
      stdinsize = t.stdinsize - 1;
    }) in
    (c ∷ chars, t')

-- One round of `inputHandler` in a thread: what is read, and the state. With nothing read the thread
-- waits, and the round is repeated when it is woken up.
unfoldable pub input_handler : ℕ → ℕ → Tty → Text × Tty
input_handler thread size t =
    let sizeread = min size t.stdinsize in
    let (chars, t') = read_loop sizeread t in
    if sizeread == 0 then (chars, record t' { stdinwaitth = some thread }) else (chars, t')
