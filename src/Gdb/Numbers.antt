-- ===== src/Gdb/Numbers.antt =====
-- Numbers in packets: what is printed as eight hex digits, `hexToInt` reads.
use native.Mathlib.Nat.{div-div-eq-div-mul, div-le_self, pow-suc}
use psplink.Base.{
  ℕ, zero, suc, ◌+◌, ◌*◌, ◌/◌, ◌%◌, ◌^◌, ◌<◌, ◌≡◌, refl, sym, ap, ap₂, ◌∙◌, true, false, [], ◌∷◌,
  ◌++◌, Option, none, some, ◌==◌, if◌then◌else◌, Text, length, agree, agree_lem, Option-cases, inl,
  inr, arith,
}
use psplink.Gdb.Hex.{hexchar, hex, hex_to_int_loop, hex_to_int}
use psplink.Gdb.Framing.{Without}
use psplink.Gdb.Transfer.{hexed}
use psplink.Gdb.Queries.{digits, lower_hex}

-- The value of a digit that was printed, 99 if it is none.
abbrev value : Option ℕ → ℕ
value none = 99
value (some k) = k

abbrev reread : ℕ → ℕ
reread d = value (hex (hexchar d))

reread-agrees : agree reread (λ d. d) 16 ≡ true
unfolding agree hex
reread-agrees = refl

hex-hexchar : (d : ℕ) → d < 16 → hex (hexchar d) ≡ some d
hex-hexchar d h =
    let same : value (hex (hexchar d)) ≡ d = agree_lem reread (λ d. d) 16 d h reread-agrees in
    elim (Option-cases (hex (hexchar d))) [
      | inl e ↦ absurd (ground arith)
      | inr (k, e) ↦ ground arith
    ]

hex_to_int_loop-digit :
    (q n : ℕ) (s : Text)
    → q < 2 ^ 32
    → hex_to_int_loop (q / 16) n (hexchar (q % 16) ∷ s) ≡ hex_to_int_loop q (n + 1) s
unfolding hex_to_int_loop
hex_to_int_loop-digit q n s h =
    let back : q / 16 * 16 % 2 ^ 32 + q % 16 ≡ q = omega arith in
    rw (hex-hexchar (q % 16) (omega arith), hex_to_int_loop)
      (ap (λ v. hex_to_int_loop v (n + 1) s) back)

hex_to_int_loop-digits :
    (k a n : ℕ) (s : Text)
    → a < 2 ^ 32
    → hex_to_int_loop (a / 16 ^ k) n (digits hexchar k a ++ s) ≡ hex_to_int_loop a (n + k) s
unfolding digits
hex_to_int_loop-digits zero a n s h = ap₂ (λ v i. hex_to_int_loop v i s) (omega arith) (omega arith)
hex_to_int_loop-digits (suc k) a n s h =
    let q : ℕ = a / 16 ^ k in
    let small : q < 2 ^ 32 = omega (arith, h, div-le_self a (16 ^ k)) in
    let next : a / 16 ^ suc k ≡ q / 16 =
      ap (λ m. a / m) (pow-suc 16 k) ∙ sym (div-div-eq-div-mul a (16 ^ k) 16) in
    ap (λ v. hex_to_int_loop v n (hexchar (q % 16) ∷ (digits hexchar k a ++ s))) next
    ∙ hex_to_int_loop-digit q n (digits hexchar k a ++ s) small
    ∙ hex_to_int_loop-digits k a (n + 1) s h
    ∙ ap (λ i. hex_to_int_loop a i s) (omega arith)

-- `hexToInt` reads back eight digits, up to what is none.
pub hex_to_int-lower_hex :
    (a c : ℕ) (rest : Text)
    → a < 2 ^ 32
    → hex c ≡ none
    → hex_to_int (lower_hex a ++ (c ∷ rest)) ≡ some (a, c ∷ rest)
unfolding hex_to_int hex_to_int_loop
hex_to_int-lower_hex a c rest h e = rw all refl
  where
    start : a / 16 ^ 8 ≡ 0
    start = omega arith

    stop : (v n : ℕ) → hex_to_int_loop v n (c ∷ rest) ≡ (v, n, c ∷ rest)
    stop v n = rw (e, hex_to_int_loop) refl

    all : hex_to_int_loop 0 0 (lower_hex a ++ (c ∷ rest)) ≡ (a, 8, c ∷ rest)
    all =
        ap (λ v. hex_to_int_loop v 0 (lower_hex a ++ (c ∷ rest))) (sym start)
        ∙ hex_to_int_loop-digits 8 a 0 (c ∷ rest) h
        ∙ stop a 8

-- A character that is no hex digit stands in nothing that was printed.
abbrev is : ℕ → ℕ → ℕ
is b d = if hexchar d == b then 1 else 0

abbrev pub IsNoDigit : ℕ → Type 0
IsNoDigit b = agree (is b) (λ d. 0) 16 ≡ true

pub hash-IsNoDigit : IsNoDigit b'#'
unfolding agree
hash-IsNoDigit = refl

pub nul-IsNoDigit : IsNoDigit 0
unfolding agree
nul-IsNoDigit = refl

pub colon-IsNoDigit : IsNoDigit b':'
unfolding agree
colon-IsNoDigit = refl

pub hexchar-other : (b d : ℕ) → IsNoDigit b → d < 16 → (hexchar d == b) ≡ false
hexchar-other b d h l =
    let zero_there : is b d ≡ 0 = agree_lem (is b) (λ d. 0) 16 d l h in ground arith

pub digits-Without : (b k a : ℕ) → IsNoDigit b → Without b (digits hexchar k a)
unfolding digits
digits-Without b zero a h = tt
digits-Without b (suc k) a h =
    (hexchar-other b (a / 16 ^ k % 16) h (omega arith), digits-Without b k a h)

pub hexed-Without : (b : ℕ) (bs : Text) → IsNoDigit b → Without b (hexed bs)
hexed-Without b [] h = tt
hexed-Without b (c ∷ bs) h = (
  hexchar-other b (c / 16 % 16) h (omega arith),
  (hexchar-other b (c % 16) h (omega arith), hexed-Without b bs h),
)

pub length-digits : (k a : ℕ) → length (digits hexchar k a) ≡ k
unfolding digits
length-digits zero a = refl
length-digits (suc k) a = ap suc (length-digits k a)
