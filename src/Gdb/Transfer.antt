-- ===== src/Gdb/Transfer.antt =====
-- Memory as hex digits and as escaped bytes: what `mem2hex` reads, `hex2mem` writes.
use mathlib.Core.Path.{fun_ext}
use psplink.Base.{
  leb, ◌&&◌, ℕ, zero, suc, ◌+◌, ◌*◌, ◌/◌, ◌%◌, ◌≤◌, ◌<◌, ◌≡◌, refl, sym, ap, ap₂, ◌∙◌, inl, inr,
  Bool, true, false, ◌||◌, [], ◌∷◌, ◌++◌, append_assoc, none, some, arith, ◌==◌, if◌then◌else◌,
  Bool-cases, Option-cases, Text, bit_xor, length, All, agree, agree_lem,
}
use psplink.Gdb.Hex.{
  Bytes, write_byte, hexchar, hex, byte_of_digits, digits_of_byte, allowed, gdb_read_byte,
  gdb_write_byte, mem2hex, done, unescape, undigit, hex2mem,
}

-- The `n` bytes from an address on, and a list of bytes written from an address on.
abbrev pub load : Bytes → ℕ → ℕ → Text
load m a zero = []
load m a (suc n) = m a ∷ load m (a + 1) n

abbrev pub store : Text → ℕ → Bytes → Bytes
store [] a m = m
store (v ∷ vs) a m = store vs (a + 1) (write_byte v a m)

-- The range of user memory that the stub may touch.
abbrev pub InUser : ℕ → ℕ → Type 0
InUser a n = (0x08800000 ≤ a) × (a + n ≤ 0x0a000000)

abbrev pub AreBytes : Text → Type 0
AreBytes bs = All (λ c. c < 256) bs

-- Two lower-case digits for each byte.
abbrev pub hexed : Text → Text
hexed [] = []
hexed (c ∷ cs) = digits_of_byte c ++ hexed cs

-- The escaped binary form of the protocol: `#`, `$` and the escape itself behind an escape.
abbrev pub escaped : Text → Text
escaped [] = []
escaped (c ∷ cs) =
    (if c == b'#' || c == b'$' || c == 0x7d then 0x7d ∷ bit_xor 0x20 c ∷ [] else c ∷ [])
    ++ escaped cs

pub length-hexed : (bs : Text) → length (hexed bs) ≡ 2 * length bs
length-hexed [] = refl
length-hexed (c ∷ bs) = omega (arith, length-hexed bs)

length-load : (m : Bytes) (a n : ℕ) → length (load m a n) ≡ n
length-load m a zero = refl
length-load m a (suc n) = ap suc (length-load m (a + 1) n)

pub mem2hex-ok : (m : Bytes) (a n : ℕ) → InUser a n → mem2hex m a n ≡ some (hexed (load m a n))
unfolding mem2hex gdb_read_byte
mem2hex-ok m a zero u = refl
mem2hex-ok m a (suc n) u = ground (arith, mem2hex-ok m (a + 1) n)

mem2hex-empty : (m : Bytes) (a : ℕ) → mem2hex m a 0 ≡ some []
unfolding mem2hex
mem2hex-empty m a = refl

mem2hex-null : (m : Bytes) (a n : ℕ) → 0 < n → ¬ (InUser a n) → mem2hex m a n ≡ none
unfolding mem2hex gdb_read_byte
mem2hex-null m a zero h u = absurd (omega arith)
mem2hex-null m a (suc zero) h u = ground arith
mem2hex-null m a (suc (suc n)) h u = ground (arith, mem2hex-null m (a + 1) (suc n))

-- Whether a range lies in the user memory that the stub may touch; an empty one does.
abbrev pub in_user : ℕ → ℕ → Bool
in_user a n = n == 0 || leb 0x08800000 a && leb (a + n) 0x0a000000

-- `mem2hex` prints the bytes that stand in memory, two digits each, in order, if the range lies in
-- user memory, and returns NULL if it does not.
pub mem2hex-load :
    (m : Bytes) (a n : ℕ)
    → mem2hex m a n ≡ (if in_user a n then some (hexed (load m a n)) else none)
mem2hex-load m a zero = mem2hex-empty m a
mem2hex-load m a (suc n) = elim (Bool-cases (in_user a (suc n))) [
  | inl t ↦ rw t (mem2hex-ok m a (suc n) (ground arith, ground arith))
  | inr f ↦ rw f (mem2hex-null m a (suc n) (omega arith) (ground arith))
]

-- What `mem2hex` prints has two characters for each byte.
pub length-mem2hex : (m : Bytes) (a n : ℕ) {t : Text} → mem2hex m a n ≡ some t → length t ≡ 2 * n
unfolding mem2hex
length-mem2hex m a zero e = ground arith
length-mem2hex m a (suc n) e = elim (Option-cases (gdb_read_byte m a)) [
  | inl f ↦ absurd (ground arith)
  | inr (c, f) ↦ elim (Option-cases (mem2hex m (a + 1) n)) [
    | inl g ↦ absurd (ground arith)
    | inr (t, g) ↦ ground (arith, length-mem2hex m (a + 1) n g)
  ]
]

abbrev redigit : ℕ → ℕ
redigit c = byte_of_digits (hexchar (c / 16 % 16)) (hexchar (c % 16))

redigit-agrees : agree redigit (λ c. c) 256 ≡ true
unfolding agree hex
redigit-agrees = refl

digits-byte : (c : ℕ) → c < 256 → byte_of_digits (hexchar (c / 16 % 16)) (hexchar (c % 16)) ≡ c
digits-byte c h = agree_lem redigit (λ c. c) 256 c h redigit-agrees

hex2mem-suc :
    (buf buf' : Text) (ch : ℕ) (m : Bytes) (a n : ℕ) (binary : Bool)
    → (if binary then unescape buf else undigit buf) ≡ some (ch, buf')
    → allowed a ≡ true
    → hex2mem buf m a (suc n) binary ≡ hex2mem buf' (write_byte ch a m) (a + 1) n binary
unfolding hex2mem gdb_write_byte
hex2mem-suc buf buf' ch m a n binary e h = rw (e, hex2mem) (rw h)

undigit-digits :
    (c : ℕ) (tail : Text) → c < 256 → undigit (digits_of_byte c ++ tail) ≡ some (c, tail)
unfolding undigit
undigit-digits c tail h = rw (digits-byte c h)

-- For bytes and a range of user memory, `hex2mem` stores what two digits for each byte stand for,
-- in order, and nothing else.
pub hex2mem-hexed :
    (bs rest : Text) (m : Bytes) (a : ℕ)
    → AreBytes bs
    → InUser a (length bs)
    → hex2mem (hexed bs ++ rest) m a (length bs) false ≡ done (store bs a m)
unfolding hex2mem
hex2mem-hexed [] rest m a b u = refl
hex2mem-hexed (c ∷ bs) rest m a (h, b) u =
    hex2mem-suc _ (hexed bs ++ rest) c m a (length bs) false (undigit-digits c (hexed bs ++ rest) h)
      (ground arith)
    ∙ hex2mem-hexed bs rest (write_byte c a m) (a + 1) b (omega arith, omega arith)

abbrev reescape : ℕ → ℕ
reescape c = bit_xor 0x20 (bit_xor 0x20 c)

reescape-agrees : agree reescape (λ c. c) 256 ≡ true
unfolding agree
reescape-agrees = refl

xor_back : (c : ℕ) → c < 256 → bit_xor 0x20 (bit_xor 0x20 c) ≡ c
xor_back c h = agree_lem reescape (λ c. c) 256 c h reescape-agrees

unescape-plain : (c : ℕ) (tail : Text) → (c == 0x7d) ≡ false → unescape (c ∷ tail) ≡ some (c, tail)
unfolding unescape
unescape-plain c [] h = rw h
unescape-plain c (d ∷ tail) h = rw h

unescape-escaped :
    (c : ℕ) (tail : Text)
    → c < 256
    → unescape (
        (if c == b'#' || c == b'$' || c == 0x7d then 0x7d ∷ bit_xor 0x20 c ∷ [] else c ∷ [])
        ++ tail)
      ≡ some (c, tail)
unfolding unescape
unescape-escaped c tail h = elim (Bool-cases (c == b'#' || c == b'$' || c == 0x7d)) [
  | inl t ↦ rw (t, xor_back c h)
  | inr f ↦ rw f (unescape-plain c tail (ground arith))
]

-- For bytes and a range of user memory, `hex2mem` in its binary form stores what the escaped text
-- stands for, in order, and nothing else.
pub hex2mem-escaped :
    (bs rest : Text) (m : Bytes) (a : ℕ)
    → AreBytes bs
    → InUser a (length bs)
    → hex2mem (escaped bs ++ rest) m a (length bs) true ≡ done (store bs a m)
unfolding hex2mem
hex2mem-escaped [] rest m a b u = refl
hex2mem-escaped (c ∷ bs) rest m a (h, b) u = rw append_assoc (
    hex2mem-suc _ (escaped bs ++ rest) c m a (length bs) true
      (unescape-escaped c (escaped bs ++ rest) h) (ground arith)
    ∙ hex2mem-escaped bs rest (write_byte c a m) (a + 1) b (omega arith, omega arith))

store-below : (bs : Text) (m : Bytes) (a c : ℕ) → c < a → store bs a m c ≡ m c
store-below [] m a c h = refl
store-below (v ∷ bs) m a c h =
    store-below bs (write_byte v a m) (a + 1) c (omega arith) ∙ ground arith

-- What was stored is there.
pub load-store : (bs : Text) (m : Bytes) (a : ℕ) → load (store bs a m) a (length bs) ≡ bs
load-store [] m a = refl
load-store (v ∷ bs) m a =
    ap₂ (λ c cs. c ∷ cs) (store-below bs (write_byte v a m) (a + 1) a (omega arith) ∙ ground arith)
      (load-store bs (write_byte v a m) (a + 1))

store-load : (m : Bytes) (a n : ℕ) → store (load m a n) a m ≡ m
store-load m a zero = refl
store-load m a (suc n) =
    ap (store (load m (a + 1) n) (a + 1)) (fun_ext λ c. same c) ∙ store-load m (a + 1) n
  where
    same : (c : ℕ) → write_byte (m a) a m c ≡ m c
    same c = ground arith

-- What the stub prints of a range of user memory that holds bytes, and is then told to write
-- there, leaves the memory as it was.
pub hex2mem-mem2hex :
    (m : Bytes) (a n : ℕ) (rest : Text)
    → InUser a n
    → AreBytes (load m a n)
    → (t : Text) × (mem2hex m a n ≡ some t) × (hex2mem (t ++ rest) m a n false ≡ done m)
hex2mem-mem2hex m a n rest u b = (
  hexed (load m a n),
  mem2hex-ok m a n u,
  ap (λ k. hex2mem (hexed (load m a n) ++ rest) m a k false) (sym (length-load m a n))
      ∙ hex2mem-hexed (load m a n) rest m a b (rw (length-load m a n) u)
      ∙ ap done (store-load m a n),
)
