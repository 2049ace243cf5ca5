-- ===== src/HostFs/Transfer.antt =====
-- usbhostfs_pc/main.c: `fixed_read` and `fixed_write`, the loops round `read` and `write`.
use psplink.Base.{ℕ, zero, suc, ◌+◌, ◌-◌, [], ◌++◌, ◌==◌, if◌then◌else◌, Text, length, drop}
use psplink.HostFs.Host.{Sys, Attempts, interrupted, answered, Os}
use psplink.HostFs.Server.{Serve, get_error, pure, ◌>>=◌, system, case_sys}

-- The result of a call that signals do not end.
abbrev pub settle : {A : Type 0} → Attempts A → Sys A
settle (interrupted a) = settle a
settle (answered r) = r

module _ {os : Os} where
  -- The loop of `fixed_read`, by the bytes that are still wanted: each round that does not end it
  -- reads one at least. The result and the bytes in the buffer.
  unfoldable pub fixed_read_loop : ℕ → ℕ → ℕ → Text → Serve os (ℕ × Text)
  fixed_read_loop zero fid left block = pure (length block, block)
  fixed_read_loop (suc fuel) fid left block = if left == 0 then pure (length block, block) else do
    got ← system (os.read_fd fid left)
    case_sys (settle got) (λ e. pure (get_error e, block))
        λ chunk.
          if length chunk == 0
          then pure (length block, block)
          else fixed_read_loop fuel fid (left - length chunk) (block ++ chunk)

  unfoldable pub fixed_read : ℕ → ℕ → Serve os (ℕ × Text)
  fixed_read fid len = fixed_read_loop len fid len []

  -- The loop of `fixed_write`, by the bytes that are still to be written.
  unfoldable pub fixed_write_loop : ℕ → ℕ → Text → ℕ → Serve os ℕ
  fixed_write_loop zero fid left byteswrite = pure byteswrite
  fixed_write_loop (suc fuel) fid left byteswrite = if length left == 0 then pure byteswrite else do
    wrote ← system (os.write_fd fid left)
    case_sys (settle wrote) (λ e. pure (get_error e))
        λ n.
          if n == 0
          then pure byteswrite
          else fixed_write_loop fuel fid (drop n left) (byteswrite + n)

  unfoldable pub fixed_write : ℕ → Text → Serve os ℕ
  fixed_write fid data_left = fixed_write_loop (length data_left) fid data_left 0
