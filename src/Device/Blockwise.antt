-- ===== src/Device/Blockwise.antt =====
-- A read of the server leaves its tables alone, and what a block makes of the progress.
use psplink.Base.{
  ℕ, zero, suc, ◌+◌, ◌-◌, ◌≡◌, ◌<◌, ◌^◌, ap, Bool, true, false, List, [], ◌∷◌, ◌++◌, ltb, ◌==◌,
  if◌then◌else◌, Text, length, arith, lt→ltb, add32,
}
use psplink.HostFs.Host.{Os}
use psplink.HostFs.Server.{Server, FileHandle, system}
use psplink.HostFs.Transfer.{settle, fixed_read_loop, fixed_read}
use psplink.HostFs.Safety.Keeps.{Keeps, Keeps-pure, Keeps-bind, Keeps-if, Keeps-case_sys}
use psplink.HostFs.Safety.Contents.{Reads}
use psplink.Device.Link.{wired}
use psplink.Device.Driver.{Progress, overlay, moves, stopped}

-- A file of the host is one of the server on the cable.
pub on_cable :
    {os : Os} {fid : ℕ} {left : os.World → Text}
    → Reads os fid left
    → Reads (wired os) fid (λ w. left w.0)
on_cable file = record {
  got = λ n w. file.got n w.0;
  brings = λ n w. file.brings n w.0;
  moves = λ n w. file.moves n w.0;
  wanted = λ n w. file.wanted n w.0;
  there = λ n w. file.there n w.0;
  goes_on = λ n w. file.goes_on n w.0;
}

-- Reading leaves the table of files alone.
module _ {os : Os} (files : List FileHandle) where
  abbrev pub Same : Server os → Type 0
  Same s = s.open_files ≡ files

  Keeps-system : {A : Type 0} (f : os.World → A × os.World) → Keeps {os = os} Same (system f)
  unfolding system
  Keeps-system f = record { at = λ s h. h }

  fixed_read_loop-files :
      (fuel fid left : ℕ) (block : Text)
      → Keeps {os = os} Same (fixed_read_loop fuel fid left block)
  unfolding fixed_read_loop
  fixed_read_loop-files zero fid left block = Keeps-pure _
  fixed_read_loop-files (suc fuel) fid left block =
      Keeps-if (left == 0) _ _ (λ _. Keeps-pure _)
        λ _. Keeps-bind _ _ (Keeps-system _) λ got.
          Keeps-case_sys (settle got) _ _ (λ e. Keeps-pure _)
            λ chunk.
              Keeps-if (length chunk == 0) _ _ (λ _. Keeps-pure _)
                λ _. fixed_read_loop-files fuel fid (left - length chunk) (block ++ chunk)

  pub fixed_read-files : (fid len : ℕ) → Keeps {os = os} Same (fixed_read fid len)
  unfolding fixed_read
  fixed_read-files fid len = fixed_read_loop-files len fid len []

-- The end of a block, by its result.
abbrev pub block_end : Progress → Text → ℕ → Bool × Progress
block_end p got res =
    let q : Progress = record p { buf = overlay p.ret got p.buf } in
    if moves res then (true, record q { ret = add32 p.ret res }) else (false, stopped res q)

pub block_end_lem :
    (p : Progress) (got : Text)
    → length got < 2 ^ 31
    → p.ret + length got < 2 ^ 32
    → block_end p got (length got)
      ≡ (ltb 0 (length got), record { ret = p.ret + length got; buf = overlay p.ret got p.buf })
block_end_lem p [] small fits =
    ap (λ n. (false, record { ret = n; buf = overlay p.ret [] p.buf })) (omega arith)
block_end_lem p (c ∷ got) small fits =
    rw (lt→ltb 0 (length (c ∷ got)) (omega arith), lt→ltb (length (c ∷ got)) (2 ^ 31) small)
      (ap (λ n. (true, record { ret = n; buf = overlay p.ret (c ∷ got) p.buf }))
        (omega (arith, fits)))
