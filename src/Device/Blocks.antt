-- ===== src/Device/Blocks.antt =====
-- The full blocks of a transfer, over a server at the far end.
use psplink.Base.{
  ℕ, zero, suc, ◌+◌, ◌-◌, ◌*◌, ◌≡◌, ◌≤◌, ◌<◌, ◌^◌, refl, sym, ap, ap₂, subst, ◌∙◌, Bool, true,
  false, [], ◌++◌, append-nil, append_assoc, ltb, Text, length, length-append, take, drop, ◌⊎◌,
  arith, Bool-cases, inl, inr,
}
use psplink.HostFs.Host.{Os}
use psplink.HostFs.Server.{Server, max_files}
use psplink.HostFs.Files.{is_open}
use psplink.HostFs.Dispatch.{hostfs_max_block}
use psplink.HostFs.Safety.Contents.{Reads, take-more, drop-nil, take-nil}
use psplink.Base.Slices.{length-take_bound}
use psplink.Device.Usb.{Device}
use psplink.Device.Link.{wired, served}
use psplink.Device.Served.{link}
use psplink.Device.Driver.{Progress, read_block, blocks_loop}
use psplink.Device.Reading.{
  behind_read, behind_read-files, behind_read-left, filled, read_block-served,
}
use psplink.Device.Spread.{so_far, overlay-spread, empty_take, drop-drop}

module _ (os : Os) (fd : ℕ) (in_range : fd < max_files) {left : os.World → Text}
    (file : Reads os fd left) (buf : Text) where
  filled-so_far :
      (size : ℕ) (done : Text) (s : Server (wired os))
      → filled os fd in_range file size (so_far done buf) s
        ≡ so_far (done ++ take size (left s.world.0)) buf
  filled-so_far size done s =
      let got : Text = take size (left s.world.0) in
      ap₂ (λ n t. record { ret = n; buf = t }) (sym (length-append done got))
        (overlay-spread done got buf)

  -- Where the blocks lead to.
  pub record Led (size : ℕ) (done : Text) (s : Server (wired os))
      (r : (Bool × Progress) × Device (served os)) : Type 0 where
    pub server : Server (wired os)
    pub goes_on : Bool
    pub result :
        r ≡ ((goes_on, so_far (done ++ take size (left s.world.0)) buf), link {os = os} true server)
    pub files : server.open_files ≡ s.open_files
    pub moved : left server.world.0 ≡ drop size (left s.world.0)
    pub over : (goes_on ≡ true) ⊎ (left server.world.0 ≡ [])

  pub one_block :
      (size : ℕ) (done : Text) (s : Server (wired os))
      → 0 < size
      → size < 2 ^ 31
      → is_open fd s.open_files ≡ true
      → length done + size < 2 ^ 32
      → Led size done s (read_block fd size (so_far done buf) (link {os = os} true s))
  one_block size done s some_wanted small open_there fits = record {
    server = behind_read os fd in_range file size s;
    goes_on = ltb 0 (length (take size (left s.world.0)));
    result =
        read_block-served os fd in_range file size (so_far done buf) s some_wanted small open_there
          fits
        ∙ ap
            (λ p. (
              (ltb 0 (length (take size (left s.world.0))), p),
              link {os = os} true (behind_read os fd in_range file size s),
            ))
            (filled-so_far size done s);
    files = behind_read-files os fd in_range file size s;
    moved = behind_read-left os fd in_range file size s;
    over = elim (Bool-cases (ltb 0 (length (take size (left s.world.0))))) [
      | inl more ↦ inl more
      | inr none_came ↦ inr (
          behind_read-left os fd in_range file size s
          ∙ ap (drop size) (empty_take size (left s.world.0) some_wanted none_came)
          ∙ drop-nil size)
    ];
  }

  -- Nothing more comes behind the end of the file.
  pub Led-over :
      (size more : ℕ) (done : Text) (s : Server (wired os))
      (r : (Bool × Progress) × Device (served os)) (led : Led size done s r)
      → left led.server.world.0 ≡ []
      → Led (size + more) done s ((false, r.0.1), r.1)
  Led-over size more done s r led e = record {
    server = led.server;
    goes_on = false;
    result =
        ap (λ (q : (Bool × Progress) × Device (served os)). ((false, q.0.1), q.1)) led.result
        ∙ ap (λ t. ((false, so_far (done ++ t) buf), link {os = os} true led.server)) all;
    files = led.files;
    moved =
        e
        ∙ sym (
            sym (drop-drop size more (left s.world.0))
            ∙ ap (drop more) (sym led.moved ∙ e)
            ∙ drop-nil more);
    over = inr e;
  }
    where
      all : take size (left s.world.0) ≡ take (size + more) (left s.world.0)
      all = sym (
          take-more size (size + more) (left s.world.0) (omega arith)
          ∙ ap (λ t. take size (left s.world.0) ++ take (size + more - size) t) (sym led.moved ∙ e)
          ∙ ap (λ t. take size (left s.world.0) ++ t) (take-nil (size + more - size))
          ∙ append-nil (take size (left s.world.0)))

  -- Blocks behind blocks.
  pub Led-trans :
      (size more : ℕ) (done : Text) (s : Server (wired os))
      (r q : (Bool × Progress) × Device (served os)) (led : Led size done s r)
      → Led more (done ++ take size (left s.world.0)) led.server q
      → Led (size + more) done s q
  Led-trans size more done s r q led next = record {
    server = next.server;
    goes_on = next.goes_on;
    result =
        next.result ∙ ap (λ t. ((next.goes_on, so_far t buf), link {os = os} true next.server)) all;
    files = next.files ∙ led.files;
    moved = next.moved ∙ ap (drop more) led.moved ∙ drop-drop size more (left s.world.0);
    over = next.over;
  }
    where
      rest : size + more - size ≡ more
      rest = omega arith

      all :
          (done ++ take size (left s.world.0)) ++ take more (left led.server.world.0)
          ≡ done ++ take (size + more) (left s.world.0)
      all =
          append_assoc done (take size (left s.world.0)) (take more (left led.server.world.0))
          ∙ ap (λ t. done ++ (take size (left s.world.0) ++ take more t)) led.moved
          ∙ ap (λ n. done ++ (take size (left s.world.0) ++ take n (drop size (left s.world.0))))
              (sym rest)
          ∙ ap (λ t. done ++ t) (sym (take-more size (size + more) (left s.world.0) (omega arith)))

  length-done :
      (done : Text) (size : ℕ) (t : Text) → length (done ++ take size t) ≤ length done + size
  length-done done size t =
      omega (arith, length-append done (take size t), length-take_bound size t)

  abbrev after_block :
      ℕ → Bool → Progress → Device (served os) → (Bool × Progress) × Device (served os)
  after_block n goes_on p d = elim goes_on [
    | true ↦ blocks_loop (read_block fd hostfs_max_block) n p d
    | false ↦ ((false, p), d)
  ]

  after_block-Led :
      (n size more : ℕ) (done : Text) (s : Server (wired os))
      (r : (Bool × Progress) × Device (served os)) (led : Led size done s r)
      → Led more (done ++ take size (left s.world.0)) led.server (
          blocks_loop
            (read_block fd hostfs_max_block)
            n
            (so_far (done ++ take size (left s.world.0)) buf)
            (link {os = os} true led.server))
      → (b : Bool) → led.goes_on ≡ b
      → Led (size + more) done s (after_block n r.0.0 r.0.1 r.1)
  after_block-Led n size more done s r led next true e =
      subst (λ q. Led (size + more) done s (after_block n q.0.0 q.0.1 q.1))
        (sym (
          led.result
          ∙ ap
              (λ b. (
                (b, so_far (done ++ take size (left s.world.0)) buf),
                link {os = os} true led.server,
              ))
              e))
        (Led-trans size more done s r _ led next)
  after_block-Led n size more done s r led next false e =
      subst (λ b. Led (size + more) done s (after_block n b r.0.1 r.1))
        (sym (ap (λ q. q.0.0) led.result ∙ e)) (Led-over size more done s r led (at_end led.over))
    where
      at_end : (led.goes_on ≡ true) ⊎ (left led.server.world.0 ≡ []) → left led.server.world.0 ≡ []
      at_end (inl goes) = absurd (cc)
      at_end (inr empty) = empty

  pub blocks_loop-Led :
      (n : ℕ) (done : Text) (s : Server (wired os))
      → is_open fd s.open_files ≡ true
      → length done + n * hostfs_max_block < 2 ^ 31
      → Led
          (n * hostfs_max_block)
          done
          s
          (blocks_loop (read_block fd hostfs_max_block) n (so_far done buf) (link {os = os} true s))
  unfolding blocks_loop
  blocks_loop-Led zero done s open_there fits = record {
    server = s;
    goes_on = true;
    result = ap (λ t. ((true, so_far t buf), link {os = os} true s)) (sym (append-nil done));
    files = refl;
    moved = refl;
    over = inl refl;
  }
  blocks_loop-Led (suc n) done s open_there fits =
      let led =
        one_block hostfs_max_block done s (omega arith) (omega arith) open_there
          (omega (arith, fits)) in
      let still_open : is_open fd led.server.open_files ≡ true =
        ap (is_open fd) led.files ∙ open_there in
      let next =
        blocks_loop-Led n (done ++ take hostfs_max_block (left s.world.0)) led.server still_open
          (omega (arith, fits, length-done done hostfs_max_block (left s.world.0))) in
      subst
        (λ k. Led k done s (
          blocks_loop (read_block fd hostfs_max_block) (suc n) (so_far done buf)
            (link {os = os} true s)))
        (omega arith)
        (after_block-Led n hostfs_max_block (n * hostfs_max_block) done s _ led next led.goes_on
          refl)
