-- ===== src/Gdb/Termination.antt =====
-- `getpacket` comes to an end on every input: each round that goes on has taken input.
use psplink.Base.{
  ℕ, zero, suc, ◌+◌, ◌%◌, ◌≤◌, ◌<◌, ◌≡◌, ◌≢◌, inl, inr, true, false, [], ◌∷◌, Option, none, some,
  arith, ◌==◌, Bool-cases, Option-cases, Text, length,
}
use psplink.Gdb.Hex.{byte_of_digits}
use psplink.Gdb.Packet.{
  max_buf, find_start, Stop, at_hash, at_limit, closed, Body, read_body, Round, lost, accepted,
  retry, judge, read_digits, check_body, get_round, Got, with_replies, getpacket_loop, getpacket,
}

find_start-shorter : (input rest : Text) → find_start input ≡ some rest → length rest < length input
unfolding find_start
find_start-shorter [] rest e = absurd (ground arith)
find_start-shorter (c ∷ input) rest e = elim (Bool-cases (c % 128 == b'$')) [
  | inl t ↦ ground arith
  | inr f ↦ omega (arith, find_start-shorter input rest (rw f at e))
]

read_body-shorter :
    (room sum : ℕ) (input : Text) → length (read_body room sum input).left ≤ length input
unfolding read_body
read_body-shorter zero sum input = omega arith
read_body-shorter (suc room) sum [] = omega arith
read_body-shorter (suc room) sum (c ∷ input) =
    ground (arith, read_body-shorter room ((sum + c) % 256) input)

-- What a round leaves.
abbrev Leaves : Round → ℕ → Type 0
Leaves (lost b) n = Unit {0}
Leaves (accepted b r rest) n = length rest < n
Leaves (retry b r rest) n = length rest < n

Leaves-mono : (r : Round) {n m : ℕ} → Leaves r n → n ≤ m → Leaves r m
Leaves-mono (lost b) h k = tt
Leaves-mono (accepted b r rest) h k = omega arith
Leaves-mono (retry b r rest) h k = omega arith

judge-Leaves : (sum sent : ℕ) (b : Text) (r : Text) → Leaves (judge sum sent b r) (suc (length r))
judge-Leaves sum sent b r = elim (Bool-cases (sum == sent)) [
  | inl t ↦ rw t (omega arith)
  | inr f ↦ rw f (omega arith)
]

read_digits-Leaves :
    (sum : ℕ) (b input : Text) → Leaves (read_digits sum b input) (suc (length input))
unfolding read_digits
read_digits-Leaves sum b [] = tt
read_digits-Leaves sum b (x ∷ []) = tt
read_digits-Leaves sum b (x ∷ y ∷ input) =
    Leaves-mono (judge sum (byte_of_digits (x % 128) (y % 128)) b input)
      (judge-Leaves sum (byte_of_digits (x % 128) (y % 128)) b input) (omega arith)

check_body-Leaves :
    (s : Stop) (buffer : Text) (b : Body) → Leaves (check_body s buffer b) (suc (length b.left))
unfolding check_body
check_body-Leaves closed buffer b = tt
check_body-Leaves at_limit buffer b = elim (Bool-cases (b.sum == 255)) [
  | inl t ↦ rw t (omega arith)
  | inr f ↦ rw f (omega arith)
]
check_body-Leaves at_hash buffer b = read_digits-Leaves b.sum _ b.left

get_round-Leaves : (buffer input : Text) → Leaves (get_round buffer input) (length input)
unfolding get_round
get_round-Leaves buffer input = elim (Option-cases (find_start input)) [
  | inl e ↦ rw (e, get_round) tt
  | inr (input', e) ↦
      let b = read_body max_buf 0 input' in
      rw (e, get_round)
        (Leaves-mono (check_body b.stop buffer b) (check_body-Leaves b.stop buffer b)
          (omega (arith, find_start-shorter input input' e, read_body-shorter max_buf 0 input')))
]

with_replies-ne-none : (r : Text) (o : Option Got) → o ≢ none → with_replies r o ≢ none
with_replies-ne-none r none h = h
with_replies-ne-none r (some g) h = λ e. cc

getpacket_loop-total :
    (fuel : ℕ) (buffer input : Text) → length input < fuel → getpacket_loop fuel buffer input ≢ none
unfolding getpacket_loop
getpacket_loop-total zero buffer input h = absurd (omega arith)
getpacket_loop-total (suc fuel) buffer input h =
    go (get_round buffer input) (get_round-Leaves buffer input) (getpacket_loop-total fuel)
  where
    go :
        (r : Round)
        → Leaves r (length input)
        → ((b i : Text) → length i < fuel → getpacket_loop fuel b i ≢ none)
        → (elim r as (λ _. Option Got) [
          | lost b ↦ some (record { returned = false; buffer = b; replies = []; left = [] })
          | accepted b r rest ↦
              some (record { returned = true; buffer = b; replies = r; left = rest })
          | retry b r rest ↦ with_replies r (getpacket_loop fuel b rest)
        ])
          ≢ none
    go (lost b) l ih = λ e. cc
    go (accepted b r rest) l ih = λ e. cc
    go (retry b r rest) l ih = with_replies-ne-none r _ (ih b rest (omega arith))

-- What `getpacket` leaves of the link is less than it found, if it returns 1.
abbrev pub LessLeft : Option Got → ℕ → Type 0
LessLeft none n = Unit {0}
LessLeft (some g) n = g.returned ≡ true → length g.left < n

LessLeft-mono :
    (r : Text) (o : Option Got) {n m : ℕ} → LessLeft o n → n ≤ m → LessLeft (with_replies r o) m
LessLeft-mono r none h k = tt
LessLeft-mono r (some g) h k = λ e. omega (arith, h e)

getpacket_loop-LessLeft :
    (fuel : ℕ) (buffer input : Text) → LessLeft (getpacket_loop fuel buffer input) (length input)
unfolding getpacket_loop
getpacket_loop-LessLeft zero buffer input = tt
getpacket_loop-LessLeft (suc fuel) buffer input =
    go (get_round buffer input) (get_round-Leaves buffer input) (getpacket_loop-LessLeft fuel)
  where
    go :
        (r : Round)
        → Leaves r (length input)
        → ((b i : Text) → LessLeft (getpacket_loop fuel b i) (length i))
        → LessLeft
            (elim r as (λ _. Option Got) [
              | lost b ↦ some (record { returned = false; buffer = b; replies = []; left = [] })
              | accepted b r rest ↦
                  some (record { returned = true; buffer = b; replies = r; left = rest })
              | retry b r rest ↦ with_replies r (getpacket_loop fuel b rest)
            ])
            (length input)
    go (lost b) l ih = λ e. cc
    go (accepted b r rest) l ih = λ e. l
    go (retry b r rest) l ih = LessLeft-mono r _ (ih b rest) (omega arith)

pub getpacket-LessLeft : (buffer input : Text) → LessLeft (getpacket buffer input) (length input)
unfolding getpacket
getpacket-LessLeft buffer input = getpacket_loop-LessLeft (suc (length input)) buffer input

-- `getpacket` always comes to an end: the fuel, one more than the bytes of the input, suffices.
pub getpacket-total : (buffer input : Text) → getpacket buffer input ≢ none
unfolding getpacket
getpacket-total buffer input = getpacket_loop-total (suc (length input)) buffer input (omega arith)
