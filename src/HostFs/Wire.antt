-- ===== src/HostFs/Wire.antt =====
-- usbhostfs_pc/main.c and usbhostfs/usbhostfs.h: the commands as the device sends them, on a
-- little-endian host, and what the handlers have in common: the data behind a command and the
-- payload behind a response.
use psplink.Base.{
  ℕ, ◌+◌, ◌*◌, ◌^◌, Bool, Option, none, some, ltb, ◌==◌, ◌&&◌, if◌then◌else◌, Text, length, get_or,
}
use psplink.HostFs.Host.{DateTime, Os}
use psplink.HostFs.Server.{Serve, Payload, response, payload, pure, ◌>>=◌, ◌>>◌, system, send}

abbrev pub u16_at : Text → ℕ → ℕ
u16_at cmd i = get_or cmd i 0 + 2 ^ 8 * get_or cmd (i + 1) 0

abbrev pub u32_at : Text → ℕ → ℕ
u32_at cmd i = u16_at cmd i + 2 ^ 16 * u16_at cmd (i + 2)

abbrev pub u64_at : Text → ℕ → ℕ
u64_at cmd i = u32_at cmd i + 2 ^ 32 * u32_at cmd (i + 4)

-- `struct HostFsTimeStamp`
abbrev pub time_at : Text → ℕ → DateTime
time_at cmd i = record {
  year = u16_at cmd i;
  month = u16_at cmd (i + 2);
  day = u16_at cmd (i + 4);
  hour = u16_at cmd (i + 6);
  minute = u16_at cmd (i + 8);
  second = u16_at cmd (i + 10);
}

-- `struct HostFsCmd`
abbrev pub command_of : Text → ℕ
command_of cmd = u32_at cmd 4

abbrev pub extralen_of : Text → ℕ
extralen_of cmd = u32_at cmd 8

-- The commands of `enum HostFsCommands`, from HELLO on.
abbrev pub hostfs_cmd : ℕ → ℕ
hostfs_cmd n = 0x8FFC0000 + n

-- A signed number of 32 bits is greater than 0.
abbrev pub is_positive : ℕ → Bool
is_positive n = ltb 0 n && ltb n (2 ^ 31)

module _ {os : Os} where
  -- `ret != cmd->extralen`: the handler goes on only with all the data.
  abbrev pub received : Option Text → ℕ → (Text → Serve os Unit) → Serve os Unit
  received none len rest = pure tt
  received (some data_read) len rest = if length data_read == len then rest data_read else pure tt

  -- The transfer of the data behind a command.
  unfoldable pub read_data : ℕ → (Text → Serve os Unit) → Serve os Unit
  read_data len rest = do got ← system (os.bulk_read len); received got len rest

  -- The start of every handler whose command has data behind it: `size` is the size of the command.
  -- The data are taken whole, also where the source's buffer for them ends before.
  unfoldable pub with_data : ℕ → Text → (Text → Serve os Unit) → Serve os Unit
  with_data size cmd rest =
      if length cmd == size
      then (if extralen_of cmd == 0 then pure tt else read_data (extralen_of cmd) rest)
      else pure tt

  -- The start of `handle_ioctl` and `handle_devctl`, where the data may be missing.
  unfoldable pub with_input : ℕ → Text → Serve os Unit → Serve os Unit
  with_input size cmd rest =
      if length cmd == size
      then (if is_positive (extralen_of cmd) then read_data (extralen_of cmd) (λ _. rest) else rest)
      else pure tt

  -- The end of the handlers: the response, and the payload where `extralen` announces one and the
  -- response could be sent.
  unfoldable pub answer : ℕ → ℕ → Serve os Unit
  answer command res = do send (response command 0 res); pure tt

  unfoldable pub answer_with : ℕ → ℕ → ℕ → Payload → Serve os Unit
  answer_with command extralen res p = do
    okay ← send (response command extralen res)
    if okay && ltb 0 extralen then (do send (payload p); pure tt) else pure tt
