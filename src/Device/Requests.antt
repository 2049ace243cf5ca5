-- ===== src/Device/Requests.antt =====
-- Requests of the driver to the server: the arguments arrive, and so does the result.
use psplink.Base.{
  ℕ, ◌+◌, ◌≡◌, ◌≤◌, ◌<◌, ◌^◌, refl, ap, ◌∙◌, Bool, true, false, List, [], ◌∷◌, ◌++◌, some, ltb, leb,
  ◌==◌, ==_iff, Text, length, length-append, All, arith,
}
use psplink.Base.Texts.{cstr}
use psplink.HostFs.Host.{Os}
use psplink.HostFs.Server.{Server, Serve, response, pure, ◌>>=◌, system, send}
use psplink.HostFs.Wire.{u32_at, extralen_of, hostfs_cmd, read_data, with_data, answer}
use psplink.HostFs.Dispatch.{command, handle, do_hostfs}
use psplink.HostFs.Files.{open_file, handle_open}
use psplink.HostFs.Replies.Silent.{Silent, open_file-Silent}
use psplink.HostFs.Session.{hostfs_magic, serve_packet}
use psplink.Device.Commands.{u32_bytes, words, open_cmd}
use psplink.Device.Usb.{command_xchg, tx_size}
use psplink.Device.Link.{Far, wired, far_end, stream, output_bytes}
use psplink.Device.Exchange.{not_zero}
use psplink.Device.Served.{behind_cmd, link, heard, exchange-served}
use psplink.Device.Driver.{named, opened, ask_host, io_open}

-- A word comes back from its bytes.
pub word_lem : (n : ℕ) → n < 2 ^ 32 → u32_at (u32_bytes n) 0 ≡ n
word_lem n h = omega arith

-- A name has no NUL, which ends it.
abbrev pub IsName : Text → Type 0
IsName name = All (λ c. (c == 0) ≡ false) name

pub cstr-named : (name : Text) → IsName name → cstr (named name) ≡ name
unfolding cstr
cstr-named [] h = refl
cstr-named (c ∷ name) (e, h) = rw (cstr, e) (ap (λ t. c ∷ t) (cstr-named name h))

eq_refl : (n : ℕ) → (n == n) ≡ true
eq_refl n = (==_iff n n).1 refl

leb_refl : (n : ℕ) → leb n n ≡ true
leb_refl n = ground arith

not_short : (n k : ℕ) → k ≤ n → ltb n k ≡ false
not_short n k h = ground arith

module _ (os : Os) where
  -- The server at the start of a command, with what stands behind the command.
  abbrev pub given : Server (wired os) → List Text → Server (wired os)
  given s rest = record s { world = (s.world.0, rest); sent = [] }

  -- A packet with the magic of the commands is one.
  serve_packet-do_hostfs :
      (cmd : Text) (s : Server (wired os))
      → 12 ≤ length cmd
      → u32_at cmd 0 ≡ hostfs_magic
      → (serve_packet cmd s).1 ≡ (do_hostfs cmd s).1
  unfolding serve_packet ◌>>=◌ pure
  serve_packet-do_hostfs cmd s h e =
      rw (serve_packet, not_short (length cmd) 4 (omega arith), e, not_short (length cmd) 12 h) refl

  pub heard-do_hostfs :
      (s : Server (wired os)) (cmd block : Text)
      → 12 ≤ length cmd
      → u32_at cmd 0 ≡ hostfs_magic
      → heard {os = os} s cmd block ≡ (
          let s' = (do_hostfs cmd (given s (behind_cmd block))).1 in
          record { server = s'; pending = []; incoming = stream s'.sent })
  unfolding far_end
  heard-do_hostfs s cmd block h e =
      ap
        (λ (s' : Server (wired os)). record {
          server = s';
          pending = [];
          incoming = stream s'.sent;
        })
        (serve_packet-do_hostfs cmd (given s (behind_cmd block)) h e)

  -- The data behind a command are there.
  with_data-there :
      (size : ℕ) (cmd : Text) (c : ℕ) (block : Text) (rest : Text → Serve (wired os) Unit)
      (s : Server (wired os))
      → length cmd ≡ size
      → extralen_of cmd ≡ length (c ∷ block)
      → with_data size cmd rest (given s ((c ∷ block) ∷ [])) ≡ rest (c ∷ block) (given s [])
  unfolding with_data read_data system ◌>>=◌
  with_data-there size cmd c block rest s e f =
      rw
        (
          with_data,
          (==_iff (length cmd) size).1 e,
          f,
          not_zero (length (c ∷ block)) (omega arith),
          leb_refl (length (c ∷ block)),
          eq_refl (length (c ∷ block)),
        )
        refl

  abbrev pub having_sent : Server (wired os) → ℕ → ℕ → Server (wired os)
  having_sent s c res = record s { sent = response c 0 res ∷ [] }

  -- A command that the server answers with a response alone.
  pub answered-xchg :
      (b : Bool) (s s' : Server (wired os)) (cmd block : Text) (c res : ℕ)
      → 12 ≤ length cmd
      → length cmd ≤ tx_size
      → length block ≤ tx_size
      → u32_at cmd 0 ≡ hostfs_magic
      → (do_hostfs cmd (given s (behind_cmd block))).1 ≡ having_sent s' c res
      → command_xchg cmd 16 block 0 (link {os = os} b s)
        ≡ (some (words (hostfs_magic ∷ c ∷ 0 ∷ res ∷ []), []), link b (having_sent s' c res))
  unfolding stream output_bytes
  answered-xchg b s s' cmd block c res long short small e f =
      let resp : Text = words (hostfs_magic ∷ c ∷ 0 ∷ res ∷ []) in
      let h =
        heard-do_hostfs s cmd block long e
        ∙ ap
            (λ (u : Server (wired os)). record {
              server = u;
              pending = [];
              incoming = stream u.sent;
            })
            f in
      exchange-served b s cmd block resp [] 0 (omega arith) short small
        (ap (λ (u : Far os). u.incoming) h) (omega arith) refl refl (omega arith) tt
      ∙ ap (λ (u : Far os). (some (resp, []), link {os = os} b u.server)) h

  -- A result, and the response with it.
  reply_lem :
      (m : Serve (wired os) ℕ) (c : ℕ) (s : Server (wired os))
      → Silent m
      → s.sent ≡ []
      → ((do res ← m; answer c res) s).1 ≡ having_sent (m s).1 c (m s).0
  unfolding ◌>>=◌ answer send pure
  reply_lem m c s quiet none_yet =
      ap (λ xs. record (m s).1 { sent = response c 0 (m s).0 ∷ xs }) (quiet.at s ∙ none_yet)

  -- What the server makes of OPEN.
  do_open :
      (c : ℕ) (file : Text) (mode mask fs_num : ℕ) (s : Server (wired os))
      → IsName (c ∷ file)
      → length (named (c ∷ file)) < 2 ^ 32
      → mode < 2 ^ 32
      → mask < 2 ^ 32
      → fs_num < 2 ^ 32
      → let (res, s') = open_file fs_num (c ∷ file) mode mask (given s []) in
        (do_hostfs
          (open_cmd (length (c ∷ file) + 1) mode mask fs_num)
          (given s (named (c ∷ file) ∷ []))).1
        ≡ having_sent s' (hostfs_cmd 2) res
  unfolding do_hostfs command handle handle_open
  do_open c file mode mask fs_num s name len small small' small'' =
      ap (λ r. r.1)
        (with_data-there 24 cmd c (file ++ 0 ∷ []) _ s refl
          (omega (arith, length-append file (0 ∷ []))))
      ∙ ap (λ (m : Serve (wired os) ℕ). ((do res ← m; answer (hostfs_cmd 2) res) (given s [])).1)
          arguments
      ∙ reply_lem (open_file fs_num (c ∷ file) mode mask) (hostfs_cmd 2) (given s [])
          (open_file-Silent fs_num (c ∷ file) mode mask) refl
    where
      cmd : Text
      cmd = open_cmd (length (c ∷ file) + 1) mode mask fs_num

      arguments :
          open_file {os = wired os}
            (u32_at cmd 20)
            (cstr (named (c ∷ file)))
            (u32_at cmd 12)
            (u32_at cmd 16)
          ≡ open_file fs_num (c ∷ file) mode mask
      arguments =
          ap (λ k. open_file k (cstr (named (c ∷ file))) (u32_at cmd 12) (u32_at cmd 16))
            (word_lem fs_num small'')
          ∙ ap (λ t. open_file fs_num t (u32_at cmd 12) (u32_at cmd 16))
              (cstr-named (c ∷ file) name)
          ∙ ap (λ k. open_file fs_num (c ∷ file) k (u32_at cmd 16)) (word_lem mode small)
          ∙ ap (λ k. open_file fs_num (c ∷ file) mode k) (word_lem mask small')

  -- With the server at the other end of the cable and the device connected, `io_open` does what the
  -- server's `open_file` does with the name and the modes: it returns that result, where it is a number
  -- as 0 and the number, and leaves the server as `open_file` does, with one response sent. The name is
  -- not empty, has no terminator in it and fits in one transfer with its own; the other arguments are words.
  pub io_open-served :
      (c : ℕ) (file : Text) (mode mask fs_num : ℕ) (s : Server (wired os))
      → IsName (c ∷ file)
      → length (named (c ∷ file)) ≤ tx_size
      → mode < 2 ^ 32
      → mask < 2 ^ 32
      → fs_num < 2 ^ 32
      → let (res, s') = open_file fs_num (c ∷ file) mode mask (given s []) in
        io_open fs_num (some (c ∷ file)) mode mask (link {os = os} true s) ≡ (
          opened (words (hostfs_magic ∷ hostfs_cmd 2 ∷ 0 ∷ res ∷ [])),
          link true (having_sent s' (hostfs_cmd 2) res),
        )
  unfolding io_open ask_host
  io_open-served c file mode mask fs_num s name len small small' small'' =
      rw
        (answered-xchg true s (open_file fs_num (c ∷ file) mode mask (given s [])).1
          (open_cmd (length (c ∷ file) + 1) mode mask fs_num) (named (c ∷ file)) (hostfs_cmd 2)
          (open_file fs_num (c ∷ file) mode mask (given s [])).0 (omega arith) (omega arith) len
          refl (do_open c file mode mask fs_num s name (omega arith) small small' small''))
        refl
