-- ===== src/Device/Served.antt =====
-- A whole exchange with the server.
use psplink.Base.{
  ℕ, suc, ◌≡◌, ◌≤◌, ◌<◌, ◌^◌, refl, sym, ap, ◌∙◌, Bool, true, List, [], ◌∷◌, ◌++◌, append-nil, some,
  ==_iff, Text, length, min, arith, lt→ltb,
}
use psplink.HostFs.Host.{Os}
use psplink.HostFs.Server.{Server}
use psplink.HostFs.Wire.{extralen_of}
use psplink.Device.Usb.{
  Usb, Device, done, ◌>>=◌, check, call, read_loop, read_data, write_all, read_all, read_extra,
  exchange, exclusively, command_xchg, is_expected, tx_size,
}
use psplink.Device.Link.{
  Far, wired, served, far_end, deliver, after_wait, receive_from, woken, far_receive,
}
use psplink.Device.Exchange.{at, not_zero, write_all-sent, read_loop-incoming}

module _ {usb : Usb} where
  read_loop-world :
      (fuel left : ℕ) (got : Text) (d : Device usb) (w : usb.World)
      → 0 < left
      → ((n : ℕ) → usb.receive n d.world ≡ usb.receive n w)
      → read_loop (suc fuel) left got d ≡ read_loop (suc fuel) left got (record d { world = w })
  unfolding read_loop call ◌>>=◌
  read_loop-world fuel left got d w some_left e =
      rw (read_loop, not_zero left some_left, e (min left tx_size)) refl

-- Room for the data behind a response, if there are some.
abbrev pub Room : Text → ℕ → Type 0
Room [] inlen = Unit
Room (c ∷ extra) inlen = 0 < inlen

-- The transfers behind a command.
abbrev pub behind_cmd : Text → List Text
behind_cmd [] = []
behind_cmd (c ∷ block) = (c ∷ block) ∷ []

module _ {os : Os} where
  far_receive-woken :
      (n : ℕ) (h : Far os) (packet : Text) (rest : List Text) (c : ℕ) (chars : Text)
      → h.incoming ≡ []
      → h.pending ≡ packet ∷ rest
      → (far_end h packet rest).incoming ≡ c ∷ chars
      → far_receive n h ≡ far_receive n (far_end h packet rest)
  unfolding far_receive receive_from after_wait deliver woken
  far_receive-woken n h packet rest c chars empty e f =
      ap (receive_from n h) empty
      ∙ ap (λ ts. after_wait n (woken ts h)) e
      ∙ ap (deliver n (far_end h packet rest)) f
      ∙ sym (ap (receive_from n (far_end h packet rest)) f)

  -- The first bytes that the server answers.
  read_loop-woken :
      (want extra packet : Text) (rest : List Text) (d : Device (served os))
      → 0 < length want
      → d.world.incoming ≡ []
      → d.world.pending ≡ packet ∷ rest
      → (far_end d.world packet rest).incoming ≡ want ++ extra
      → read_loop (length want) (length want) [] d
        ≡ (some want, at d (record (far_end d.world packet rest) { incoming = extra }))
  read_loop-woken [] extra packet rest d some_there empty e f = absurd (omega arith)
  read_loop-woken (c ∷ want) extra packet rest d some_there empty e f =
      read_loop-world (length want) (length (c ∷ want)) [] d (far_end d.world packet rest)
        (omega arith) (λ n. far_receive-woken n d.world packet rest c (want ++ extra) empty e f)
      ∙ read_loop-incoming (length (c ∷ want)) (c ∷ want) extra []
          (at d (far_end d.world packet rest)) f (omega arith)

  read_all-woken :
      (want extra packet : Text) (rest : List Text) (d : Device (served os))
      → 0 < length want
      → d.world.incoming ≡ []
      → d.world.pending ≡ packet ∷ rest
      → (far_end d.world packet rest).incoming ≡ want ++ extra
      → read_all (length want) (length want) d
        ≡ (some want, at d (record (far_end d.world packet rest) { incoming = extra }))
  unfolding read_all read_data ◌>>=◌ check done
  read_all-woken want extra packet rest d some_there empty e f =
      rw
        (
          read_all,
          read_loop-woken want extra packet rest d some_there empty e f,
          (==_iff (length want) (length want)).1 refl,
        )
        refl

  read_all-incoming :
      (want : Text) (d : Device (served os))
      → d.world.incoming ≡ want
      → read_all (length want) (length want) d
        ≡ (some want, at d (record d.world { incoming = [] }))
  unfolding read_all read_data ◌>>=◌ check done
  read_all-incoming want d e =
      rw
        (
          read_all,
          read_loop-incoming (length want) want [] [] d (e ∙ sym (append-nil want)) (omega arith),
          (==_iff (length want) (length want)).1 refl,
        )
        refl

  -- The data behind the response.
  read_extra-incoming :
      (resp extra : Text) (inlen : ℕ) (d : Device (served os))
      → d.world.incoming ≡ extra
      → extralen_of resp ≡ length extra
      → length extra < 2 ^ 31
      → Room extra inlen
      → read_extra resp inlen d ≡ (some extra, at d (record d.world { incoming = [] }))
  unfolding read_extra done
  read_extra-incoming resp [] inlen d e len small room = rw (read_extra, len) rw (← e) refl
  read_extra-incoming resp (c ∷ extra) inlen d e len small room =
      rw
        (
          read_extra,
          len,
          lt→ltb 0 (length (c ∷ extra)) (omega arith),
          lt→ltb 0 inlen room,
          lt→ltb (length (c ∷ extra)) (2 ^ 31) small,
        )
        (read_all-incoming (c ∷ extra) d e)

  abbrev pub carrying : Bool → Server (wired os) → List Text → Text → Device (served os)
  carrying connected s pending incoming = record {
    world = record { server = s; pending = pending; incoming = incoming };
    connected = connected;
  }

  -- Nothing is on its way.
  abbrev pub link : Bool → Server (wired os) → Device (served os)
  link connected s = carrying connected s [] []

  -- The server behind a packet.
  abbrev pub heard : Server (wired os) → Text → Text → Far os
  heard s cmd block =
      far_end (record { server = s; pending = []; incoming = [] }) cmd (behind_cmd block)

  sent_both :
      (b : Bool) (s : Server (wired os)) (cmd block : Text)
      → length block ≤ tx_size
      → write_all block (carrying b s (cmd ∷ []) [])
        ≡ (some tt, carrying b s (cmd ∷ behind_cmd block) [])
  unfolding write_all done
  sent_both b s cmd [] fits = refl
  sent_both b s cmd (c ∷ block) fits =
      write_all-sent (c ∷ block) (carrying b s (cmd ∷ []) []) (omega arith) fits

  -- What the server writes for a command comes to the device, and nothing is left on the way.
  pub exchange-served :
      (b : Bool) (s : Server (wired os)) (cmd block resp extra : Text) (inlen : ℕ)
      → 0 < length cmd
      → length cmd ≤ tx_size
      → length block ≤ tx_size
      → (heard s cmd block).incoming ≡ resp ++ extra
      → 0 < length resp
      → is_expected cmd resp ≡ true
      → extralen_of resp ≡ length extra
      → length extra < 2 ^ 31
      → Room extra inlen
      → command_xchg cmd (length resp) block inlen (link b s)
        ≡ (some (resp, extra), link b (heard s cmd block).server)
  unfolding command_xchg exclusively exchange ◌>>=◌ check done far_end
  exchange-served b s cmd block resp extra inlen some_cmd cmd_fits block_fits answer some_resp right
        len small room =
      rw
        (
          command_xchg,
          write_all-sent cmd (link b s) some_cmd cmd_fits,
          sent_both b s cmd block block_fits,
          read_all-woken resp extra cmd (behind_cmd block)
              (carrying b s (cmd ∷ behind_cmd block) []) some_resp refl refl answer,
          right,
          read_extra-incoming resp extra inlen (carrying b (heard s cmd block).server [] extra) refl
              len small room,
        )
        refl
