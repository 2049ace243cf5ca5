-- ===== src/HostFs/Replies/Outcomes.antt =====
-- The answer of each handler.
use psplink.Base.{ℕ, refl, [], ◌∷◌, Option, Text, length, ◌==◌, inl, inr, Bool-cases}
use psplink.HostFs.Host.{Sys, Os}
use psplink.HostFs.Server.{
  Server, status, entry, position, hello_response, pure, ◌>>=◌, ◌>>◌, send, DevctlGetInfo,
  SceIoStat, drive_info,
}
use psplink.HostFs.Wire.{u32_at, u64_at, hostfs_cmd, is_positive}
use psplink.HostFs.Files.{
  read_extralen, read_file, handle_open, handle_close, handle_read, handle_write, handle_lseek,
}
use psplink.HostFs.Dirs.{read_entry, handle_dopen, handle_dread, handle_dclose}
use psplink.HostFs.Entries.{
  answer_stat, handle_remove, handle_rmdir, handle_mkdir, handle_getstat, handle_chstat,
  handle_rename, handle_chdir,
}
use psplink.HostFs.Dispatch.{answer_info, handle_hello, handle_ioctl, handle_devctl}
use psplink.HostFs.Replies.Silent.{
  Silent-next_entry, open_file-Silent, fixed_read-Silent, fixed_write-Silent, on_file-Silent,
  close_file-Silent, seek_file-Silent, fill_stat-Silent, dir_open-Silent, dir_close-Silent,
  on_name-Silent, call_on-Silent, psp_chstat-Silent, rename_paths-Silent, change_dir-Silent,
  get_drive_info-Silent,
}
use psplink.HostFs.Replies.Reads.{IsCount, fixed_read-IsCount, length-read}
use psplink.HostFs.Replies.Answers.{
  Answers, moved, greeted, Outcome, Answers-answer, Answers-answer_with, Answers-bind,
  Answers-Returns, Answers-case_option, with_data-Outcome, with_input-Outcome, sized-Outcome,
  answer_rules,
}
use psplink.HostFs.Replies.Shapes.{is_complete, sized, counted, with_name, with_buffer}

ruleset handler_rules = (
  answer_rules, open_file-Silent, fixed_write-Silent, on_file-Silent, close_file-Silent,
  fill_stat-Silent, dir_open-Silent, dir_close-Silent, on_name-Silent, call_on-Silent,
  psp_chstat-Silent, rename_paths-Silent, change_dir-Silent, get_drive_info-Silent,
)

module _ {os : Os} where
  position-Answers :
      (res ofs : ℕ) → Answers {os = os} (hostfs_cmd 6) (do send (position res ofs); pure tt)
  unfolding ◌>>=◌ send pure
  position-Answers res ofs = record { at = λ s. (position res ofs ∷ [], refl, moved res ofs) }

  pub hello-Answers : Answers {os = os} (hostfs_cmd 0) handle_hello
  unfolding handle_hello ◌>>=◌ send pure
  hello-Answers = record { at = λ s. (hello_response ∷ [], refl, greeted) }

  answer_stat-Answers : (r : Sys SceIoStat) → Answers {os = os} (hostfs_cmd 13) (answer_stat r)
  unfolding answer_stat
  answer_stat-Answers r = search (
    answer_rules,
    λ (st : SceIoStat). Answers-answer_with {os = os} {c = hostfs_cmd 13} 88 0 (status st) refl,
  )

  answer_info-Answers :
      (o : Option DevctlGetInfo) → Answers {os = os} (hostfs_cmd 18) (answer_info o)
  unfolding answer_info
  answer_info-Answers o = search (
    answer_rules,
    λ (i : DevctlGetInfo).
        Answers-answer_with {os = os} {c = hostfs_cmd 18} 20 0 (drive_info i) refl,
  )

  read_entry-Answers : (did : ℕ) → Answers {os = os} (hostfs_cmd 4) (read_entry did)
  unfolding read_entry
  read_entry-Answers did = Answers-bind _ _ (Silent-next_entry did) λ next.
      Answers-case_option next _ _ (Answers-answer 0)
        λ (e, res). Answers-answer_with 352 res (entry e) refl

  read_file-Answers : (fid len : ℕ) → Answers {os = os} (hostfs_cmd 4) (read_file fid len)
  unfolding read_file
  read_file-Answers fid len =
      Answers-Returns IsCount _ _ (fixed_read-Silent fid len) (fixed_read-IsCount fid len)
        λ (res, block) h. Answers-answer_with (read_extralen res) res _ (length-read res block h)

  pub handle_read-Outcome :
      (cmd : Text) (s : Server os)
      → Outcome (is_complete counted cmd s) (hostfs_cmd 4) s (handle_read cmd s).1
  unfolding handle_read pure
  handle_read-Outcome cmd s = elim (Bool-cases (length cmd == 20)) [
    | inr wrong ↦ rw wrong refl
    | inl right ↦ rw right (
        sized-Outcome (is_positive (u32_at cmd 16)) _ s
          (search (answer_rules, read_file-Answers) depth 8))
  ]

  pub handle_lseek-Outcome :
      (cmd : Text) (s : Server os)
      → Outcome (is_complete (sized 28) cmd s) (hostfs_cmd 6) s (handle_lseek cmd s).1
  unfolding handle_lseek
  handle_lseek-Outcome cmd s = sized-Outcome (length cmd == 28) _ s (
      Answers-bind _ _ (seek_file-Silent (u32_at cmd 12) (u64_at cmd 16) (u32_at cmd 24))
        λ (res, ofs). position-Answers res ofs)

  pub handle_open-Outcome :
      (cmd : Text) (s : Server os)
      → Outcome (is_complete (with_name 24) cmd s) (hostfs_cmd 2) s (handle_open cmd s).1
  unfolding handle_open
  handle_open-Outcome cmd s = with_data-Outcome 24 cmd _ s (λ path. search handler_rules depth 12)

  pub handle_close-Outcome :
      (cmd : Text) (s : Server os)
      → Outcome (is_complete (sized 16) cmd s) (hostfs_cmd 3) s (handle_close cmd s).1
  unfolding handle_close
  handle_close-Outcome cmd s = sized-Outcome (length cmd == 16) _ s (search handler_rules depth 12)

  pub handle_write-Outcome :
      (cmd : Text) (s : Server os)
      → Outcome (is_complete (with_name 16) cmd s) (hostfs_cmd 5) s (handle_write cmd s).1
  unfolding handle_write
  handle_write-Outcome cmd s = with_data-Outcome 16 cmd _ s (λ path. search handler_rules depth 12)

  pub handle_remove-Outcome :
      (cmd : Text) (s : Server os)
      → Outcome (is_complete (with_name 16) cmd s) (hostfs_cmd 7) s (handle_remove cmd s).1
  unfolding handle_remove
  handle_remove-Outcome cmd s = with_data-Outcome 16 cmd _ s (λ path. search handler_rules depth 12)

  pub handle_mkdir-Outcome :
      (cmd : Text) (s : Server os)
      → Outcome (is_complete (with_name 20) cmd s) (hostfs_cmd 8) s (handle_mkdir cmd s).1
  unfolding handle_mkdir
  handle_mkdir-Outcome cmd s = with_data-Outcome 20 cmd _ s (λ path. search handler_rules depth 12)

  pub handle_rmdir-Outcome :
      (cmd : Text) (s : Server os)
      → Outcome (is_complete (with_name 16) cmd s) (hostfs_cmd 9) s (handle_rmdir cmd s).1
  unfolding handle_rmdir
  handle_rmdir-Outcome cmd s = with_data-Outcome 16 cmd _ s (λ path. search handler_rules depth 12)

  pub handle_dopen-Outcome :
      (cmd : Text) (s : Server os)
      → Outcome (is_complete (with_name 16) cmd s) (hostfs_cmd 10) s (handle_dopen cmd s).1
  unfolding handle_dopen
  handle_dopen-Outcome cmd s = with_data-Outcome 16 cmd _ s (λ path. search handler_rules depth 12)

  pub handle_dclose-Outcome :
      (cmd : Text) (s : Server os)
      → Outcome (is_complete (sized 16) cmd s) (hostfs_cmd 12) s (handle_dclose cmd s).1
  unfolding handle_dclose
  handle_dclose-Outcome cmd s = sized-Outcome (length cmd == 16) _ s (search handler_rules depth 12)

  pub handle_getstat-Outcome :
      (cmd : Text) (s : Server os)
      → Outcome (is_complete (with_name 16) cmd s) (hostfs_cmd 13) s (handle_getstat cmd s).1
  unfolding handle_getstat
  handle_getstat-Outcome cmd s =
      with_data-Outcome 16 cmd _ s (λ path. search (handler_rules, answer_stat-Answers) depth 12)

  pub handle_chstat-Outcome :
      (cmd : Text) (s : Server os)
      → Outcome (is_complete (with_name 56) cmd s) (hostfs_cmd 14) s (handle_chstat cmd s).1
  unfolding handle_chstat
  handle_chstat-Outcome cmd s = with_data-Outcome 56 cmd _ s (λ path. search handler_rules depth 12)

  pub handle_rename-Outcome :
      (cmd : Text) (s : Server os)
      → Outcome (is_complete (with_name 16) cmd s) (hostfs_cmd 15) s (handle_rename cmd s).1
  unfolding handle_rename
  handle_rename-Outcome cmd s = with_data-Outcome 16 cmd _ s (λ path. search handler_rules depth 12)

  pub handle_chdir-Outcome :
      (cmd : Text) (s : Server os)
      → Outcome (is_complete (with_name 16) cmd s) (hostfs_cmd 16) s (handle_chdir cmd s).1
  unfolding handle_chdir
  handle_chdir-Outcome cmd s = with_data-Outcome 16 cmd _ s (λ path. search handler_rules depth 12)

  pub handle_ioctl-Outcome :
      (cmd : Text) (s : Server os)
      → Outcome (is_complete (with_buffer 24) cmd s) (hostfs_cmd 17) s (handle_ioctl cmd s).1
  unfolding handle_ioctl
  handle_ioctl-Outcome cmd s = with_input-Outcome 24 cmd _ s (search handler_rules depth 12)

  pub handle_devctl-Outcome :
      (cmd : Text) (s : Server os)
      → Outcome (is_complete (with_buffer 24) cmd s) (hostfs_cmd 18) s (handle_devctl cmd s).1
  unfolding handle_devctl
  handle_devctl-Outcome cmd s =
      with_input-Outcome 24 cmd _ s (search (handler_rules, answer_info-Answers) depth 12)

  pub handle_dread-Outcome :
      (cmd : Text) (s : Server os)
      → Outcome (is_complete (sized 16) cmd s) (hostfs_cmd 4) s (handle_dread cmd s).1
  unfolding handle_dread
  handle_dread-Outcome cmd s =
      sized-Outcome (length cmd == 16) _ s (search (handler_rules, read_entry-Answers) depth 12)
