-- ===== src/Gdb/Exchange.antt =====
-- A conversation of the debugger with the stub: a range of memory is written, and then read.
use psplink.Base.{
  ◌+◌, ◌==◌, if◌then◌else◌, ℕ, suc, ◌^◌, ◌≤◌, ◌≡◌, refl, ap, ◌∙◌, true, false, List, [], ◌∷◌, ◌++◌,
  append_assoc, some, ◌==◌, ltb, Text, codes, drop, length, lt→ltb, arith,
}
use psplink.Gdb.Hex.{hex}
use psplink.Gdb.Packet.{frame, over, putpacket, putpacket_loop, getpacket}
use psplink.Gdb.Framing.{IsBody, IsPlain, got, getpacket-got}
use psplink.Gdb.Transfer.{
  InUser, AreBytes, store, load, hexed, mem2hex-ok, hex2mem-hexed, load-store,
}
use psplink.Gdb.Context.{Kernel, Debuggee, Stub, with_output}
use psplink.Gdb.Queries.{lower_hex}
use psplink.Gdb.Commands.{answered, read_memory, stored, write_memory, command}
use psplink.Gdb.Stub.{goes_on, send_output, received, turn_of, on_packet, turn, serve}
use psplink.Gdb.Requests.{
  write_packet, read_packet, range_of-printed, write_packet-IsBody, read_packet-IsBody,
  write_packet-IsPlain, read_packet-IsPlain,
}

append-four :
    (w : List Text) (x y z v : Text)
    → (((w ++ (x ∷ [])) ++ (y ∷ [])) ++ (z ∷ [])) ++ (v ∷ []) ≡ w ++ (x ∷ y ∷ z ∷ v ∷ [])
append-four w x y z v =
    append_assoc ((w ++ (x ∷ [])) ++ (y ∷ [])) (z ∷ []) (v ∷ [])
    ∙ append_assoc (w ++ (x ∷ [])) (y ∷ []) (z ∷ v ∷ [])
    ∙ append_assoc w (x ∷ []) (y ∷ z ∷ v ∷ [])

module _ {kernel : Kernel} (target : Debuggee) where
  -- The state in which the command of a packet is carried out.
  abbrev pub taken : Text → Text → Stub kernel → Stub kernel
  taken p rest s = with_output [] (received (got p rest s.input) s)

  -- The state behind its reply, acknowledged.
  abbrev pub replied_to : Text → Stub kernel → Stub kernel
  replied_to rest u = record u { link = rest; wrote = u.wrote ++ (frame u.hardware.output ∷ []) }

  send_output-acknowledged :
      (u : Stub kernel) (rest : Text) → u.link ≡ b'+' ∷ rest → send_output u ≡ replied_to rest u
  unfolding send_output putpacket putpacket_loop
  send_output-acknowledged u rest e = rw e refl

  -- A round with a packet that is answered.
  serve-answered :
      (fuel sigval c : ℕ) (q rest : Text) (s u : Stub kernel)
      → IsBody (c ∷ q)
      → IsPlain (c ∷ q) s.input
      → (c == b'D') ≡ false
      → s.link ≡ frame (c ∷ q) ++ (b'+' ∷ rest)
      → command target sigval c
          (drop 1 (over ((c ∷ q) ++ (0 ∷ [])) s.input))
          (taken (c ∷ q) (b'+' ∷ rest) s)
        ≡ answered u
      → u.link ≡ b'+' ∷ rest
      → serve target (suc fuel) sigval s ≡ serve target fuel sigval (replied_to rest u)
  unfolding serve turn on_packet received turn_of
  serve-answered fuel sigval c q rest s u body plain other e cmd l =
      rw (packet, serve)
        (rw (round, serve) (ap (serve target fuel sigval) (send_output-acknowledged u rest l)))
    where
      packet : getpacket s.input s.link ≡ some (got (c ∷ q) (b'+' ∷ rest) s.input)
      packet =
          ap (getpacket s.input) e ∙ getpacket-got [] (c ∷ q) (b'+' ∷ rest) s.input tt body plain

      round : turn target sigval (got (c ∷ q) (b'+' ∷ rest) s.input) s ≡ goes_on (send_output u)
      round = rw (other, turn) (rw (cmd, turn_of) refl)

  read_memory-load :
      (a n : ℕ) (tail : Text) (s : Stub kernel)
      → InUser a n
      → read_memory target (lower_hex a ++ (b',' ∷ (lower_hex n ++ (0 ∷ tail)))) s
        ≡ with_output (hexed (load s.memory a n)) s
  unfolding read_memory hex
  read_memory-load a n tail s u =
      let small : ltb n (2 ^ 31) ≡ true = lt→ltb n (2 ^ 31) (omega arith) in
      rw (range_of-printed a n 0 tail (omega arith) (omega arith) refl, read_memory)
        (rw (small, read_memory) (rw (mem2hex-ok s.memory a n u, read_memory) refl))

  write_memory-store :
      (a : ℕ) (bs tail : Text) (s : Stub kernel)
      → InUser a (length bs)
      → AreBytes bs
      → write_memory target
          (lower_hex a ++ (b',' ∷ (lower_hex (length bs) ++ (b':' ∷ (hexed bs ++ tail)))))
          false
          s
        ≡ answered (with_output (codes "OK") (record s { memory = store bs a s.memory }))
  unfolding write_memory stored hex
  write_memory-store a bs tail s u bytes =
      let n : ℕ = length bs in
      let small : ltb n (2 ^ 31) ≡ true = lt→ltb n (2 ^ 31) (omega arith) in
      let behind : (a + n == 0) ≡ false = ground arith in
      rw
        (
          range_of-printed a n b':' (hexed bs ++ tail) (omega arith) (omega arith) refl,
          write_memory,
        )
        (rw (small, write_memory)
          (rw (hex2mem-hexed bs tail s.memory a bytes u, write_memory)
            (ap
              (λ b. answered (
                with_output (if b then codes "E03" else codes "OK")
                  (record s { memory = store bs a s.memory })))
              behind)))

  command-write :
      (sigval a : ℕ) (bs buffer : Text) (s : Stub kernel)
      → InUser a (length bs)
      → AreBytes bs
      → command target sigval b'M' (drop 1 (over (write_packet a bs ++ (0 ∷ [])) buffer)) s
        ≡ answered (with_output (codes "OK") (record s { memory = store bs a s.memory }))
  unfolding command
  command-write sigval a bs buffer s u bytes =
      let tail : Text = drop (length (write_packet a bs ++ (0 ∷ []))) buffer in
      let end : Text = b':' ∷ hexed bs in
      ap (λ t. write_memory target t false s)
        (append_assoc (lower_hex a ++ (b',' ∷ (lower_hex (length bs) ++ end))) (0 ∷ []) tail
          ∙ append_assoc (lower_hex a) (b',' ∷ (lower_hex (length bs) ++ end)) (0 ∷ tail)
          ∙ ap (λ t. lower_hex a ++ (b',' ∷ t))
              (append_assoc (lower_hex (length bs)) end (0 ∷ tail)))
      ∙ write_memory-store a bs (0 ∷ tail) s u bytes

  command-read :
      (sigval a n : ℕ) (buffer : Text) (s : Stub kernel)
      → InUser a n
      → command target sigval b'm' (drop 1 (over (read_packet a n ++ (0 ∷ [])) buffer)) s
        ≡ answered (with_output (hexed (load s.memory a n)) s)
  unfolding command
  command-read sigval a n buffer s u =
      let tail : Text = drop (length (read_packet a n ++ (0 ∷ []))) buffer in
      ap (λ t. answered (read_memory target t s))
        (append_assoc (lower_hex a ++ (b',' ∷ lower_hex n)) (0 ∷ []) tail
          ∙ append_assoc (lower_hex a) (b',' ∷ lower_hex n) (0 ∷ tail))
      ∙ ap answered (read_memory-load a n tail s u)

  -- Bytes that the debugger writes to user memory and then reads there come back: the two packets are
  -- acknowledged, answered with `OK` and with the digits of the bytes, the bytes stand in memory and
  -- nothing else there has changed, and the stub goes on with what the link brings next. The other side
  -- acknowledges both replies, and the bytes fit in one packet.
  pub serve-write_read :
      (fuel sigval a : ℕ) (bs rest : Text) (s : Stub kernel)
      → InUser a (length bs)
      → AreBytes bs
      → length bs ≤ 1000
      → s.link
        ≡ frame (write_packet a bs) ++ (b'+' ∷ (frame (read_packet a (length bs)) ++ (b'+' ∷ rest)))
      → (t : Stub kernel) × (serve target (suc (suc fuel)) sigval s ≡ serve target fuel sigval t)
        × (t.memory ≡ store bs a s.memory)
        × (t.link ≡ rest)
        × (t.wrote
            ≡ s.wrote ++ (codes "+" ∷ frame (codes "OK") ∷ codes "+" ∷ frame (hexed bs) ∷ []))
  unfolding received
  serve-write_read fuel sigval a bs rest s u bytes short e = (
    t2,
    first ∙ second,
    refl,
    refl,
    append-four s.wrote (codes "+") (frame (codes "OK")) (codes "+") _
        ∙ ap (λ t. s.wrote ++ (codes "+" ∷ frame (codes "OK") ∷ codes "+" ∷ frame (hexed t) ∷ []))
            (load-store bs s.memory a),
  )
    where
      asked : Text
      asked = frame (read_packet a (length bs)) ++ (b'+' ∷ rest)

      t0 : Stub kernel
      t0 = taken (write_packet a bs) (b'+' ∷ asked) s

      t1 : Stub kernel
      t1 = replied_to asked (with_output (codes "OK") (record t0 { memory = store bs a s.memory }))

      t2 : Stub kernel
      t2 = replied_to rest (
          with_output (hexed (load t1.memory a (length bs)))
            (taken (read_packet a (length bs)) (b'+' ∷ rest) t1))

      first : serve target (suc (suc fuel)) sigval s ≡ serve target (suc fuel) sigval t1
      first =
          serve-answered (suc fuel) sigval b'M' _ asked s
            (with_output (codes "OK") (record t0 { memory = store bs a s.memory }))
            (write_packet-IsBody a bs short) (write_packet-IsPlain a bs s.input) refl e
            (command-write sigval a bs s.input t0 u bytes) refl

      second : serve target (suc fuel) sigval t1 ≡ serve target fuel sigval t2
      second =
          serve-answered fuel sigval b'm' _ rest t1 _ (read_packet-IsBody a (length bs))
            (read_packet-IsPlain a (length bs) t1.input) refl refl
            (command-read sigval a (length bs) t1.input
              (taken (read_packet a (length bs)) (b'+' ∷ rest) t1) u)
            refl
