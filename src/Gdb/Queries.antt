-- ===== src/Gdb/Queries.antt =====
-- gdbcommon/gdb-stub.c: `handle_query`, the packets `q`.
use psplink.Base.{
  ℕ, zero, suc, ◌+◌, ◌/◌, ◌%◌, ◌^◌, Bool, false, List, [], ◌∷◌, ◌++◌, none, some, ltb, leb, ◌&&◌,
  if◌then◌else◌, Text, codes, get_or, length, drop,
}
use psplink.Util.Path.{matches}
use psplink.Gdb.Hex.{hexchar, hex_to_int, strtohex}
use psplink.Gdb.Context.{
  word, thid_at, ThreadStatus, failed, running, Kernel, Debuggee, Stub, with_output,
}

-- One digit of `%08X`
abbrev pub upper_digit : ℕ → ℕ
upper_digit k = get_or (codes "0123456789ABCDEF") k 0

-- `n` hex digits of a number, by what prints a digit.
unfoldable pub digits : (ℕ → ℕ) → ℕ → ℕ → Text
digits digit zero v = []
digits digit (suc n) v = digit (v / 16 ^ n % 16) ∷ digits digit n v

-- `%08X` and `%08x`
abbrev pub upper_hex : ℕ → Text
upper_hex = digits upper_digit 8

abbrev pub lower_hex : ℕ → Text
lower_hex = digits hexchar 8

unfoldable pub status_text : ThreadStatus → Text
status_text (failed code) = strtohex (codes "Error: 0x" ++ upper_hex code)
status_text (running entry name) = strtohex name

module _ (target : Debuggee) where
  -- Whether a thread is one of the application that is debugged.
  unfoldable pub is_ours : ThreadStatus → Bool
  is_ours (failed code) = false
  is_ours (running entry name) =
      leb target.text_addr entry && ltb entry ((target.text_addr + target.text_size) % 2 ^ 32)

  unfoldable pub valid_threads : (ℕ → ThreadStatus) → List ℕ → List ℕ
  unfolding is_ours
  valid_threads status [] = []
  valid_threads status (t ∷ ts) =
      let rest = valid_threads status ts in if is_ours (status t) then t ∷ rest else rest

  -- The start of the data, and the reply to `qOffsets`.
  unfoldable pub data_start : ℕ
  data_start =
      if ltb 1 (length target.segmentaddr)
      then get_or target.segmentaddr 1 0
      else (target.text_addr + target.text_size) % 2 ^ 32

  unfoldable pub offsets : Text
  unfolding data_start
  offsets =
      codes "Text="
      ++ (upper_hex target.text_addr
          ++ (codes ";Data="
              ++ (upper_hex data_start
                  ++ (codes ";Bss=" ++ upper_hex ((data_start + target.data_size) % 2 ^ 32)))))

module _ {kernel : Kernel} (target : Debuggee) where
  -- The reply to the start of a listing: the first thread.
  unfoldable pub first_thread : List ℕ → Stub kernel → Stub kernel
  first_thread [] s = record s { threads = [] }
  first_thread (t ∷ ts) s =
      with_output (b'm' ∷ upper_hex t) (record s { threads = t ∷ ts; thread_loc = 1 })

  unfoldable pub next_thread : Stub kernel → Stub kernel
  next_thread s =
      if ltb s.thread_loc (length s.threads)
      then with_output (b'm' ∷ upper_hex (get_or s.threads s.thread_loc 0))
          (record s { thread_loc = s.thread_loc + 1 })
      else with_output (codes "l") s

  unfoldable pub thread_extra : Text → Stub kernel → Stub kernel
  unfolding status_text
  thread_extra str s = elim (hex_to_int str) [
    | none ↦ s
    | some (thid, _) ↦ with_output (status_text (kernel.thread_status thid s.world)) s
  ]

  unfoldable pub handle_query : Text → Stub kernel → Stub kernel
  unfolding valid_threads first_thread next_thread thread_extra offsets
  handle_query str s =
      if matches (codes "C") str
      then with_output (codes "QC" ++ upper_hex (word s.memory (target.ctx + thid_at))) s
      else if matches (codes "fThreadInfo") str
      then first_thread
          (valid_threads target (λ t. kernel.thread_status t s.world) (kernel.thread_list s.world))
          s
      else if matches (codes "sThreadInfo") str
      then next_thread s
      else if matches (codes "ThreadExtraInfo,") str
      then thread_extra (drop 16 str) s
      else if matches (codes "Offsets") str
      then (if target.elf then s else with_output (offsets target) s)
      else s
