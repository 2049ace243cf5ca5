-- ===== src/HostFs/Safety/Calls.antt =====
-- What the handlers of the commands are made of keeps an invariant.
use psplink.Base.{
  ◌≡◌, refl, some, get_elem?, All, ℕ, zero, suc, List, [], ◌∷◌, Option, none, Text, length, ltb,
}
use psplink.HostFs.Host.{Sys, done, failed, DateTime, Os}
use psplink.HostFs.Paths.Resolve.{max_hostdrives}
use psplink.HostFs.Server.{
  get_error, pure, ask, case_sys, ◌>>=◌, Server, Serve, SceIoDirent, Payload, minus_one,
}
use psplink.HostFs.Wire.{read_data, with_data, with_input, answer, answer_with}
use psplink.HostFs.Transfer.{fixed_read_loop, fixed_read, fixed_write_loop, fixed_write}
use psplink.HostFs.Files.{is_dir, record_file, open_path}
use psplink.HostFs.Dirs.{fill_stat, fill_entry, fill_entries, store_listing, list_dir}
use psplink.HostFs.Entries.{
  Which, call_on, set_time, psp_settime, change_time, change_mode, psp_chstat, rename_paths,
  change_dir,
}
use psplink.HostFs.Safety.Keeps.{Keeps, Keeps-pure, Keeps-bind, Keeps-if, Keeps-case_sys}
use psplink.HostFs.Safety.Invariant.{Maybe, IsEntry, IsInvariant, invariant_rules}

All-entries :
    {P : Text → Type 0} (names : List Text)
    → ((i : ℕ) (name : Text) → get_elem? names i ≡ some name → P name)
    → All P names
All-entries [] h = tt
All-entries (name ∷ names) h = (h 0 name refl, All-entries names (λ i. h (suc i)))

-- What follows a question may use the answer that the world gives.
Keeps-asked :
    {os : Os} {A B : Type 0} {P : Server os → Type 0} (f : os.World → A) (k : A → Serve os B)
    → ((w : os.World) → Keeps P (k (f w)))
    → Keeps P (ask f >>= k)
unfolding ask ◌>>=◌
Keeps-asked f k h = record { at = λ s before. (h s.world).at s before }

module _ {os : Os} {granted : Text → Type 0} {P : Server os → Type 0}
    (inv : IsInvariant granted P) where
  pub fixed_read_loop-Keeps :
      (fuel fid left : ℕ) (block : Text) → Keeps {os = os} P (fixed_read_loop fuel fid left block)
  unfolding fixed_read_loop
  fixed_read_loop-Keeps zero fid left block = search invariant_rules
  fixed_read_loop-Keeps (suc fuel) fid left block =
      search (invariant_rules, fixed_read_loop-Keeps fuel) depth 12

  pub fixed_write_loop-Keeps :
      (fuel fid : ℕ) (left : Text) (n : ℕ) → Keeps {os = os} P (fixed_write_loop fuel fid left n)
  unfolding fixed_write_loop
  fixed_write_loop-Keeps zero fid left n = search invariant_rules
  fixed_write_loop-Keeps (suc fuel) fid left n =
      search (invariant_rules, fixed_write_loop-Keeps fuel) depth 12

  pub record_file-Keeps :
      (path : Text) (mode : ℕ) (fd : Sys ℕ) → Keeps {os = os} P (record_file path mode fd)
  unfolding record_file
  record_file-Keeps path mode fd = search invariant_rules depth 12

  pub open_path-Keeps :
      (path : Text) (mode mask : ℕ) → granted path → Keeps {os = os} P (open_path path mode mask)
  unfolding open_path is_dir
  open_path-Keeps path mode mask h = search (invariant_rules, record_file-Keeps) depth 12

  pub fill_entry-Keeps :
      (dirname name : Text)
      → granted dirname
      → IsEntry os dirname name
      → Keeps {os = os} P (fill_entry dirname name)
  unfolding fill_entry
  fill_entry-Keeps dirname name h listed = search invariant_rules depth 12

  pub fill_entries-Keeps :
      (dirname : Text) (names : List Text)
      → granted dirname
      → All (IsEntry os dirname) names
      → Keeps {os = os} P (fill_entries dirname names)
  unfolding fill_entries
  fill_entries-Keeps dirname [] h listed = search invariant_rules
  fill_entries-Keeps dirname (name ∷ names) h (listed, all_listed) =
      Keeps-bind (fill_entry dirname name) _ (fill_entry-Keeps dirname name h listed) λ st.
        Keeps-case_sys st _ _ (λ e. Keeps-pure none)
          λ st.
            Keeps-bind (fill_entries dirname names) _
              (fill_entries-Keeps dirname names h all_listed) λ rest. Keeps-pure _

  pub store_listing-Keeps :
      (did : ℕ) (listing : Option (List SceIoDirent))
      → Keeps {os = os} P (store_listing did listing)
  unfolding store_listing
  store_listing-Keeps did listing = search invariant_rules depth 12

  pub list_dir-Keeps :
      (did : ℕ) (path : Text) → granted path → Keeps {os = os} P (list_dir did path)
  unfolding list_dir case_sys
  list_dir-Keeps did path h = Keeps-bind _ _ (inv.keeps_clear did) λ _.
      Keeps-bind _ _ (inv.keeps_call path h)
        λ _. Keeps-asked (os.scandir path) _ λ w. go w (os.scandir path w) refl
    where
      go :
          (w : os.World) (names : Sys (Text × List Text))
          → os.scandir path w ≡ names
          → Keeps {os = os} P (
              case_sys names
                (λ e. pure (get_error e))
                λ (name, names). do
                  entries ← fill_entries path (name ∷ names)
                  store_listing did entries)
      go w (failed e) scanned = Keeps-pure (get_error e)
      go w (done (first, rest)) scanned =
          Keeps-bind _ _
            (fill_entries-Keeps path (first ∷ rest) h
              (All-entries (first ∷ rest) λ i name e. (w, first, rest, scanned, i, e)))
            λ entries. store_listing-Keeps did entries

  pub call_on-Keeps :
      (path : Text) (f : Text → os.World → Sys Unit × os.World)
      → granted path
      → Keeps {os = os} P (call_on path f)
  unfolding call_on
  call_on-Keeps path f h = search invariant_rules

  pub fill_stat-Keeps : (path : Text) → granted path → Keeps {os = os} P (fill_stat path)
  unfolding fill_stat
  fill_stat-Keeps path h = search invariant_rules depth 8

  pub psp_settime-Keeps :
      (path : Text) (ts : DateTime) (which : Which)
      → granted path
      → Keeps {os = os} P (psp_settime path ts which)
  unfolding psp_settime set_time
  psp_settime-Keeps path ts which h = search (invariant_rules, call_on-Keeps) depth 12

  pub psp_chstat-Keeps : (cmd path : Text) → granted path → Keeps {os = os} P (psp_chstat cmd path)
  unfolding psp_chstat change_mode change_time
  psp_chstat-Keeps cmd path h = search (invariant_rules, call_on-Keeps, psp_settime-Keeps) depth 12

  pub rename_paths-Keeps :
      (old new : Option Text)
      → Maybe granted old
      → Maybe granted new
      → Keeps {os = os} P (rename_paths old new)
  unfolding rename_paths
  rename_paths-Keeps old new h k = search invariant_rules depth 12

  pub change_dir-Keeps : (fsnum : ℕ) (path : Text) → Keeps {os = os} P (change_dir fsnum path)
  unfolding change_dir
  change_dir-Keeps fsnum path =
      Keeps-if (ltb fsnum max_hostdrives) _ _
        (λ _. Keeps-bind _ _ (inv.keeps_drive fsnum path) λ _. Keeps-pure 0)
        (λ _. Keeps-pure minus_one)

  pub answer-Keeps : (command res : ℕ) → Keeps {os = os} P (answer command res)
  unfolding answer
  answer-Keeps command res = search invariant_rules

  pub answer_with-Keeps :
      (command extralen res : ℕ) (p : Payload)
      → Keeps {os = os} P (answer_with command extralen res p)
  unfolding answer_with
  answer_with-Keeps command extralen res p = search invariant_rules depth 12

  pub with_data-Keeps :
      (size : ℕ) (cmd : Text) (rest : Text → Serve os Unit)
      → ((t : Text) → Keeps P (rest t))
      → Keeps P (with_data size cmd rest)
  unfolding with_data read_data
  with_data-Keeps size cmd rest k = search (invariant_rules, k) depth 12

  pub with_input-Keeps :
      (size : ℕ) (cmd : Text) (rest : Serve os Unit)
      → Keeps P rest
      → Keeps P (with_input size cmd rest)
  unfolding with_input read_data
  with_input-Keeps size cmd rest k = search invariant_rules depth 12

  pub fixed_read-Keeps : (fid len : ℕ) → Keeps {os = os} P (fixed_read fid len)
  unfolding fixed_read
  fixed_read-Keeps fid len = fixed_read_loop-Keeps len fid len []

  pub fixed_write-Keeps : (fid : ℕ) (t : Text) → Keeps {os = os} P (fixed_write fid t)
  unfolding fixed_write
  fixed_write-Keeps fid t = fixed_write_loop-Keeps (length t) fid t 0

pub ruleset call_rules = (
  open_path-Keeps, list_dir-Keeps, call_on-Keeps, fill_stat-Keeps, psp_chstat-Keeps,
  rename_paths-Keeps, change_dir-Keeps, answer-Keeps, answer_with-Keeps, with_data-Keeps,
  with_input-Keeps, fixed_read-Keeps, fixed_write-Keeps,
)
