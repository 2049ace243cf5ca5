-- ===== src/Gdb/Untouched.antt =====
-- What `hex2mem` leaves alone: all memory that is not the user's.
use psplink.Base.{
  ℕ, zero, suc, ◌+◌, ◌≡◌, refl, ◌∙◌, Bool, true, false, if◌then◌else◌, Text, Option-cases,
  Bool-cases, inl, inr, arith,
}
use psplink.Gdb.Hex.{
  Bytes, write_byte, allowed, gdb_write_byte, Written, done, refused, overrun, unescape, undigit,
  hex2mem,
}

-- Two memories that are the same outside of the user's memory.
abbrev pub SameOutside : Bytes → Bytes → Type 0
SameOutside m m' = (a : ℕ) → allowed a ≡ false → m' a ≡ m a

abbrev pub written : Written → Bytes
written (done m) = m
written (refused m) = m
written (overrun m) = m

pub write_byte-SameOutside :
    (v a : ℕ) (m : Bytes) → allowed a ≡ true → SameOutside m (write_byte v a m)
write_byte-SameOutside v a m h = λ c g. ground arith

pub hex2mem-SameOutside :
    (buf : Text) (m : Bytes) (a count : ℕ) (binary : Bool)
    → SameOutside m (written (hex2mem buf m a count binary))
unfolding hex2mem gdb_write_byte
hex2mem-SameOutside buf m a zero binary = λ c g. refl
hex2mem-SameOutside buf m a (suc count) binary =
    elim (Option-cases (if binary then unescape buf else undigit buf)) [
      | inl e ↦ rw (e, hex2mem, written) (λ c g. refl)
      | inr ((ch, buf'), e) ↦
          rw (e, hex2mem, written)
            (elim (Bool-cases (allowed a)) [
              | inr f ↦ rw (f, written) (λ c g. refl)
              | inl t ↦
                  rw (t, written)
                    (λ c g.
                      hex2mem-SameOutside buf' (write_byte ch a m) (a + 1) count binary c g
                      ∙ write_byte-SameOutside ch a m t c g)
            ])
    ]
