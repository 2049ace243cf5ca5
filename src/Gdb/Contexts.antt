-- ===== src/Gdb/Contexts.antt =====
-- The registers of a stopped program, as `g` prints them and `G` takes them.
use psplink.Base.{
  ℕ, zero, suc, ◌+◌, ◌*◌, ◌≤◌, ◌<◌, ◌≡◌, refl, ap, subst, ◌∙◌, List, [], ◌∷◌, ◌++◌, append_assoc,
  some, Text, codes, drop, length, All, arith,
}
use psplink.Base.Slices.{drop-length, drop-append_le}
use psplink.Gdb.Hex.{Bytes}
use psplink.Gdb.Transfer.{InUser, AreBytes, load, hex2mem-mem2hex, length-mem2hex}
use psplink.Gdb.Context.{Kernel, Debuggee, Stub, with_output}
use psplink.Gdb.Commands.{answered, replied, read_registers, write_registers}
use psplink.Gdb.Ranges.{beside, mem2hex_all, hex2mem_all, register_ranges}

AreBytes-load : (m : Bytes) (a n : ℕ) → ((c : ℕ) → m c < 256) → AreBytes (load m a n)
AreBytes-load m a zero h = tt
AreBytes-load m a (suc n) h = (h a, AreBytes-load m (a + 1) n h)

drop_front : (t u : Text) (n : ℕ) → length t ≡ n → drop n (t ++ u) ≡ u
drop_front t u n e =
    subst (λ k. drop k (t ++ u) ≡ u) e
      (drop-append_le (length t) t u (omega arith) ∙ ap (λ v. v ++ u) (drop-length t))

hex2mem_all-mem2hex_all :
    (ranges : List (ℕ × ℕ)) (m : Bytes) (tail : Text)
    → All (λ r. InUser r.0 r.1) ranges
    → ((c : ℕ) → m c < 256)
    → (t : Text) × (mem2hex_all m ranges ≡ some t) × (hex2mem_all (t ++ tail) ranges m ≡ some m)
unfolding mem2hex_all hex2mem_all
hex2mem_all-mem2hex_all [] m tail h bytes = ([], refl, refl)
hex2mem_all-mem2hex_all ((a, n) ∷ ranges) m tail (user, h) bytes =
    let (u, printed, back) = hex2mem_all-mem2hex_all ranges m tail h bytes in
    let (t, here, there) = hex2mem-mem2hex m a n (u ++ tail) user (AreBytes-load m a n bytes) in
    (
      t ++ u,
      rw (here, mem2hex_all) (ap (beside (some t)) printed),
      rw (append_assoc t u tail) (
          rw (there, hex2mem_all)
            (rw (drop_front t (u ++ tail) (2 * n) (length-mem2hex m a n here), hex2mem_all) back)),
    )

module _ {kernel : Kernel} (target : Debuggee) where
  -- The registers that `g` prints, given back with `G`, leave the stub's memory as it was, with `OK` as
  -- the reply; whatever stands behind them in the buffer. The context lies in user memory, and memory
  -- holds bytes.
  pub write_registers-read :
      (tail : Text) (s : Stub kernel)
      → 0x08800000 ≤ target.ctx
      → target.ctx + 916 ≤ 0x0a000000
      → ((c : ℕ) → s.memory c < 256)
      → (t : Text) × (read_registers target s ≡ answered (with_output t s))
        × (write_registers target (t ++ tail) s ≡ answered (with_output (codes "OK") s))
  unfolding read_registers write_registers
  write_registers-read tail s low high bytes =
      let places : All (λ r. InUser r.0 r.1) (register_ranges target.ctx) = (
        (omega arith, omega arith),
        (
          (omega arith, omega arith),
          (
            (omega arith, omega arith),
            (
              (omega arith, omega arith),
              ((omega arith, omega arith), ((omega arith, omega arith), tt)),
            ),
          ),
        ),
      ) in
      let (t, printed, back) =
        hex2mem_all-mem2hex_all (register_ranges target.ctx) s.memory tail places bytes in
      (t, ap (λ o. replied target o s) printed, rw (back, write_registers) refl)
