-- ===== src/Device/Reading.antt =====
-- A file of the host, read on the device.
use psplink.Base.{
  ℕ, ◌+◌, ◌≡◌, ◌≤◌, ◌<◌, ◌^◌, refl, ap, ap₂, ◌∙◌, true, [], ◌∷◌, ◌++◌, some, ltb, ◌&&◌,
  if◌then◌else◌, Text, length, take, drop, arith, lt→ltb,
}
use psplink.HostFs.Host.{Os}
use psplink.HostFs.Server.{
  Server, Serve, max_files, response, payload, bytes, minus_one, pure, ◌>>=◌, gets, send,
}
use psplink.HostFs.Wire.{hostfs_cmd, is_positive, answer, answer_with}
use psplink.HostFs.Transfer.{fixed_read}
use psplink.HostFs.Dispatch.{command, handle, do_hostfs}
use psplink.HostFs.Files.{is_open, read_extralen, read_file, handle_read}
use psplink.HostFs.Replies.Silent.{fixed_read-Silent}
use psplink.HostFs.Safety.Contents.{Reads, fixed_read-Done}
use psplink.HostFs.Session.{hostfs_magic}
use psplink.Base.Slices.{take-all, length-take_bound}
use psplink.Device.Commands.{words, read_cmd}
use psplink.Device.Usb.{command_xchg}
use psplink.Device.Link.{Far, wired, stream, output_bytes, payload_bytes}
use psplink.Device.Served.{Room, link, heard, exchange-served}
use psplink.Device.Requests.{word_lem, given, heard-do_hostfs}
use psplink.Device.Driver.{Progress, overlay, ask_host, read_block}
use psplink.Device.Blockwise.{fixed_read-files, on_cable, block_end, block_end_lem}

module _ (os : Os) (fd : ℕ) (in_range : fd < max_files) where
  -- What the server sends for what it has read.
  abbrev having_read : Server (wired os) → Text → Server (wired os)
  having_read s got = record s {
    sent =
        (if ltb 0 (length got) then payload (bytes got) ∷ [] else [])
        ++ response (hostfs_cmd 4) (length got) (length got) ∷ [];
  }

  abbrev sends : ℕ → ℕ → Text → Serve (wired os) Unit
  sends res extralen block = answer_with (hostfs_cmd 4) extralen res (bytes (take extralen block))

  sends_read :
      (s : Server (wired os)) (got : Text)
      → s.sent ≡ []
      → (answer_with (hostfs_cmd 4) (length got) (length got) (bytes got) s).1 ≡ having_read s got
  unfolding answer_with send ◌>>=◌ pure
  sends_read s [] none_yet =
      ap (λ xs. record s { sent = response (hostfs_cmd 4) 0 0 ∷ xs }) none_yet
  sends_read s (c ∷ got) none_yet =
      let n : ℕ = length (c ∷ got) in
      rw (lt→ltb 0 n (omega arith)) (
        ap (λ xs. record s { sent = payload (bytes (c ∷ got)) ∷ response (hostfs_cmd 4) n n ∷ xs })
          none_yet)

  read_file_lem :
      (size : ℕ) (s s' : Server (wired os)) (got : Text)
      → fixed_read fd size s ≡ ((length got, got), s')
      → s'.sent ≡ []
      → length got < 2 ^ 31
      → (read_file fd size s).1 ≡ having_read s' got
  unfolding read_file ◌>>=◌
  read_file_lem size s s' got e none_yet small =
      ap (λ (r : (ℕ × Text) × Server (wired os)). (sends r.0.0 (read_extralen r.0.0) r.0.1 r.1).1) e
      ∙ ap (λ n. (sends (length got) n got s').1) (rw (lt→ltb (length got) (2 ^ 31) small) refl)
      ∙ ap
          (λ t.
            (answer_with {os = wired os} (hostfs_cmd 4) (length got) (length got) (bytes t) s').1)
          (take-all (length got) got (omega arith))
      ∙ sends_read s' got none_yet

  do_read :
      (size : ℕ) (s : Server (wired os))
      → 0 < size
      → size < 2 ^ 31
      → is_open fd s.open_files ≡ true
      → (do_hostfs (read_cmd fd size) (given os s [])).1 ≡ (read_file fd size (given os s [])).1
  unfolding do_hostfs command handle handle_read gets ◌>>=◌
  do_read size s some_wanted small open_there =
      ap₂ (λ k n. (read_at k n (given os s [])).1) (word_lem fd (omega (arith, in_range)))
        (word_lem size (omega arith))
      ∙ wanted
    where
      read_at : ℕ → ℕ → Serve (wired os) Unit
      read_at k n =
          if is_positive n
          then (do
            files ← gets (λ s. s.open_files)
            if ltb k max_files && is_open k files
                then read_file k n
                else answer (hostfs_cmd 4) minus_one)
          else pure tt

      wanted : (read_at fd size (given os s [])).1 ≡ (read_file fd size (given os s [])).1
      wanted =
          rw
            (
              lt→ltb 0 size some_wanted,
              lt→ltb size (2 ^ 31) small,
              lt→ltb fd max_files in_range,
              open_there,
            )
            refl

  module _ {left : os.World → Text} (file : Reads os fd left) where
    -- The bytes that a READ of this size brings, and the server behind it.
    abbrev brought : ℕ → Server (wired os) → Text
    brought size s = take size (left s.world.0)

    unfoldable pub behind_read : ℕ → Server (wired os) → Server (wired os)
    behind_read size s = having_read (fixed_read fd size (given os s [])).1 (brought size s)

    length-brought : (size : ℕ) (s : Server (wired os)) → length (brought size s) ≤ size
    length-brought size s = length-take_bound size (left s.world.0)

    fixed_read_lem :
        (size : ℕ) (s : Server (wired os))
        → fixed_read fd size (given os s []) ≡ (
          (length (brought size s), brought size s),
          (fixed_read {os = wired os} fd size (given os s [])).1,
        )
    fixed_read_lem size s =
        let (got, count, _) = fixed_read-Done (on_cable file) size (given os s []) in
        ap₂ (λ n t. ((n, t), (fixed_read fd size (given os s [])).1)) (count ∙ ap length got) got

    pub behind_read-files :
        (size : ℕ) (s : Server (wired os)) → (behind_read size s).open_files ≡ s.open_files
    unfolding behind_read
    behind_read-files size s =
        (fixed_read-files {os = wired os} s.open_files fd size).at (given os s []) refl

    pub behind_read-left :
        (size : ℕ) (s : Server (wired os))
        → left (behind_read size s).world.0 ≡ drop size (left s.world.0)
    unfolding behind_read
    behind_read-left size s = (fixed_read-Done (on_cable file) size (given os s [])).2

    stream_read :
        (s : Server (wired os)) (got : Text)
        → stream (having_read s got).sent
          ≡ words (hostfs_magic ∷ hostfs_cmd 4 ∷ length got ∷ length got ∷ []) ++ got
    unfolding stream output_bytes payload_bytes
    stream_read s [] = refl
    stream_read s (c ∷ got) = rw (lt→ltb 0 (length (c ∷ got)) (omega arith)) refl

    room : (size : ℕ) (got : Text) → 0 < size → Room got size
    room size [] h = tt
    room size (c ∷ got) h = h

    read_xchg :
        (size : ℕ) (s : Server (wired os))
        → 0 < size
        → size < 2 ^ 31
        → is_open fd s.open_files ≡ true
        → let n = length (brought size s) in
          command_xchg (read_cmd fd size) 16 [] size (link {os = os} true s) ≡ (
            some (words (hostfs_magic ∷ hostfs_cmd 4 ∷ n ∷ n ∷ []), brought size s),
            link true (behind_read size s),
          )
    unfolding behind_read
    read_xchg size s some_wanted small open_there =
        exchange-served true s (read_cmd fd size) [] resp (brought size s) size (omega arith)
          (omega arith) (omega arith)
          (ap (λ (u : Far os). u.incoming) h
            ∙ stream_read (fixed_read fd size (given os s [])).1 (brought size s))
          (omega arith) refl (word_lem n (omega (arith, length-brought size s)))
          (omega (arith, length-brought size s)) (room size (brought size s) some_wanted)
        ∙ ap (λ (u : Far os). (some (resp, brought size s), link {os = os} true u.server)) h
      where
        n : ℕ
        n = length (brought size s)

        bound : n ≤ size
        bound = length-brought size s

        resp : Text
        resp = words (hostfs_magic ∷ hostfs_cmd 4 ∷ n ∷ n ∷ [])

        served_it :
            (do_hostfs (read_cmd fd size) (given os s [])).1
            ≡ having_read (fixed_read fd size (given os s [])).1 (brought size s)
        served_it =
            do_read size s some_wanted small open_there
            ∙ read_file_lem size (given os s []) (fixed_read fd size (given os s [])).1
                (brought size s) (fixed_read_lem size s)
                ((fixed_read-Silent fd size).at (given os s [])) (omega (arith, bound))

        h : heard {os = os} s (read_cmd fd size) [] ≡ (
            let s' = having_read (fixed_read fd size (given os s [])).1 (brought size s) in
            record { server = s'; pending = []; incoming = stream s'.sent })
        h =
            heard-do_hostfs os s (read_cmd fd size) [] (omega arith) refl
            ∙ ap
                (λ (u : Server (wired os)). record {
                  server = u;
                  pending = [];
                  incoming = stream u.sent;
                })
                served_it

    abbrev pub filled : ℕ → Progress → Server (wired os) → Progress
    filled size p s = record {
      ret = p.ret + length (brought size s);
      buf = overlay p.ret (brought size s) p.buf;
    }

    -- One block of a read.
    pub read_block-served :
        (size : ℕ) (p : Progress) (s : Server (wired os))
        → 0 < size
        → size < 2 ^ 31
        → is_open fd s.open_files ≡ true
        → p.ret + size < 2 ^ 32
        → read_block fd size p (link {os = os} true s)
          ≡ ((ltb 0 (length (brought size s)), filled size p s), link true (behind_read size s))
    unfolding read_block ask_host
    read_block-served size p s some_wanted small open_there bound =
        rw (read_xchg size s some_wanted small open_there) (
          ap (λ e. (e, link {os = os} true (behind_read size s)))
            (ap (block_end p (brought size s))
                (word_lem (length (brought size s)) (omega (arith, length-brought size s)))
              ∙ block_end_lem p (brought size s) (omega (arith, length-brought size s))
                  (omega (arith, length-brought size s))))
