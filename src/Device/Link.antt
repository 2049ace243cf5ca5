-- ===== src/Device/Link.antt =====
-- usbhostfs/main.c against usbhostfs_pc/main.c: the device with the server at the other end of the
-- cable. What the device sends waits for the server, transfer by transfer; when the device reads and
-- nothing is there, the server takes the first transfer as a packet, and the others are the data that
-- it reads.
use psplink.Base.{
  ℕ, true, List, [], ◌∷◌, ◌++◌, Option, none, some, leb, if◌then◌else◌, Text, length, take, drop,
  replicate,
}
use psplink.HostFs.Host.{Os, DateTime}
use psplink.HostFs.Server.{
  Server, SceIoStat, Payload, bytes, status, entry, drive_info, Output, hello_response, response,
  position, payload,
}
use psplink.HostFs.Session.{hostfs_magic, serve_packet}
use psplink.Device.Commands.{u32_bytes, u64_bytes, header, words, time_bytes}
use psplink.Device.Usb.{Usb}

-- The server's calls, with the transfers that wait for it. Each of them is read by one call, which
-- has room for it or fails.
abbrev pub first_transfer : ℕ → List Text → Option Text × List Text
first_transfer n [] = (none, [])
first_transfer n (t ∷ ts) = if leb (length t) n then (some t, ts) else (none, ts)

abbrev pub alongside : {A B C : Type 0} → A × B → C → A × (B × C)
alongside (a, w) q = (a, (w, q))

abbrev pub wired : Os → Os
wired os = record {
  World = os.World × List Text;
  stat = λ path w. os.stat path w.0;
  names = λ path w. os.names path w.0;
  scandir = λ path w. os.scandir path w.0;
  open_fd = λ path flags mask w. alongside (os.open_fd path flags mask w.0) w.1;
  close_fd = λ fd w. alongside (os.close_fd fd w.0) w.1;
  read_fd = λ fd n w. alongside (os.read_fd fd n w.0) w.1;
  write_fd = λ fd t w. alongside (os.write_fd fd t w.0) w.1;
  lseek = λ fd ofs whence w. alongside (os.lseek fd ofs whence w.0) w.1;
  unlink = λ path w. alongside (os.unlink path w.0) w.1;
  rmdir = λ path w. alongside (os.rmdir path w.0) w.1;
  mkdir = λ path mode w. alongside (os.mkdir path mode w.0) w.1;
  rename = λ old new w. alongside (os.rename old new w.0) w.1;
  chmod = λ path mode w. alongside (os.chmod path mode w.0) w.1;
  utime = λ path atime mtime w. alongside (os.utime path atime mtime w.0) w.1;
  localtime = os.localtime;
  mktime = os.mktime;
  statvfs = λ path w. os.statvfs path w.0;
  bulk_read = λ n w. let (r, q) = first_transfer n w.1 in (r, (w.0, q));
  bulk_write = λ n w. (true, w);
  send_socket = λ sock t w. (os.send_socket sock t w.0, w.1);
}

-- The structures as the bytes that the server writes.
abbrev pub stamp_bytes : DateTime → Text
stamp_bytes t = time_bytes t ++ u32_bytes 0

unfoldable pub stat_bytes : SceIoStat → Text
stat_bytes st =
    words (st.mode ∷ st.attr ∷ [])
    ++ (u64_bytes st.size
        ++ (stamp_bytes st.ctime
            ++ (stamp_bytes st.atime ++ (stamp_bytes st.mtime ++ replicate 24 0))))

unfoldable pub name_bytes : Text → Text
name_bytes name = take 256 (name ++ replicate 256 0)

unfoldable pub payload_bytes : Payload → Text
unfolding stat_bytes name_bytes
payload_bytes (bytes t) = t
payload_bytes (status st) = stat_bytes st
payload_bytes (entry e) = stat_bytes e.stat ++ (name_bytes e.name ++ replicate 8 0)
payload_bytes (drive_info info) =
    words (info.btotal ∷ info.bfree ∷ info.unk ∷ info.ssize ∷ info.sects ∷ [])

unfoldable pub output_bytes : Output → Text
unfolding payload_bytes
output_bytes hello_response = header 0 0
output_bytes (response command extralen res) = words (hostfs_magic ∷ command ∷ extralen ∷ res ∷ [])
output_bytes (position res ofs) = header 6 0 ++ (words (res ∷ []) ++ u64_bytes ofs)
output_bytes (payload p) = payload_bytes p

-- What was written, the newest first, as it comes to the device.
unfoldable pub stream : List Output → Text
unfolding output_bytes
stream [] = []
stream (x ∷ xs) = stream xs ++ output_bytes x

-- The server at the far end, what was sent to it, and what it has sent.
pub record Far (os : Os) : Type 0 where
  pub server : Server (wired os)
  pub pending : List Text
  pub incoming : Text

module _ {os : Os} where
  -- The server takes a packet; its ghost begins anew, to tell what it writes.
  unfoldable pub far_end : Far os → Text → List Text → Far os
  far_end h packet rest =
      let s : Server (wired os) = record h.server { world = (h.server.world.0, rest); sent = [] } in
      let (_, s') = serve_packet packet s in
      record { server = s'; pending = []; incoming = stream s'.sent }

  -- The device reads from what has come; there is nothing where it would wait for ever.
  unfoldable pub deliver : ℕ → Far os → Text → Option Text × Far os
  deliver n h [] = (none, h)
  deliver n h (c ∷ chars) = (some (take n (c ∷ chars)), record h { incoming = drop n (c ∷ chars) })

  unfoldable pub woken : List Text → Far os → Far os
  woken [] h = h
  woken (packet ∷ rest) h = far_end h packet rest

  unfoldable pub after_wait : ℕ → Far os → Option Text × Far os
  after_wait n h = deliver n h h.incoming

  unfoldable pub receive_from : ℕ → Far os → Text → Option Text × Far os
  receive_from n h [] = after_wait n (woken h.pending h)
  receive_from n h (c ∷ chars) = deliver n h (c ∷ chars)

  unfoldable pub far_receive : ℕ → Far os → Option Text × Far os
  far_receive n h = receive_from n h h.incoming

  unfoldable pub far_transmit : Text → Far os → Option ℕ × Far os
  far_transmit t h = (some (length t), record h { pending = h.pending ++ t ∷ [] })

abbrev pub served : Os → Usb
served os = record {
  World = Far os;
  wait_sema = λ h. (true, h);
  signal_sema = λ h. h;
  receive = far_receive;
  transmit = far_transmit;
}
