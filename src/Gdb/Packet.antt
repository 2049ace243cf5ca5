-- ===== src/Gdb/Packet.antt =====
-- gdbcommon/gdb-stub.c: `putpacket` and `getpacket`, the framing $<data>#<checksum>. What arrives
-- by `getDebugChar` is a list of bytes, and the link is closed at its end.
use psplink.Base.Texts.{cstr}
use psplink.Base.{
  ℕ, zero, suc, ◌+◌, ◌-◌, ◌%◌, Bool, true, false, List, [], ◌∷◌, ◌++◌, Option, none, some, ◌==◌,
  if◌then◌else◌, Text, get_or, take, drop, length,
}
use psplink.Gdb.Hex.{byte_of_digits, digits_of_byte}

abbrev pub max_buf : ℕ
max_buf = 2048

-- The sum of the bytes as an `unsigned char`.
unfoldable pub checksum : ℕ → Text → ℕ
checksum sum [] = sum
checksum sum (c ∷ s) = checksum ((sum + c) % 256) s

-- What one round of the loop of `putpacket` appends to its output buffer.
unfoldable pub frame : Text → Text
frame p = b'$' ∷ (p ++ (b'#' ∷ digits_of_byte (checksum 0 p)))

-- What `putpacket` has written, one list for each `writeDebugData`, whether it was acknowledged,
-- and the input that is left.
pub record Sent : Type 0 where
  pub writes : List Text
  pub acknowledged : Bool
  pub left : Text

-- The loop of `putpacket`. The output buffer is not emptied between the rounds: `i` is set to 0
-- once only, before the loop. The 4096 bytes of `outputbuffer` have no end here.
unfoldable pub putpacket_loop : Text → Text → Text → Sent
putpacket_loop p buffer [] = record {
  writes = (buffer ++ frame p) ∷ [];
  acknowledged = false;
  left = [];
}
putpacket_loop p buffer (ch ∷ input) =
    let buffer' = buffer ++ frame p in
    let again = putpacket_loop p buffer' input in
    if ch % 128 == b'+'
    then record { writes = buffer' ∷ []; acknowledged = true; left = input }
    else record again { writes = buffer' ∷ again.writes }

unfoldable pub putpacket : Text → Text → Sent
unfolding putpacket_loop
putpacket p input = putpacket_loop p [] input

-- Waits for the start character; what follows it.
unfoldable pub find_start : Text → Option Text
find_start [] = none
find_start (ch ∷ input) = if ch % 128 == b'$' then some input else find_start input

-- How the reading of the data ends: at `#`, with a full buffer, or with the link closed.
pub data Stop : Type 0 where
  at_hash at_limit closed : Stop

pub record Body : Type 0 where
  pub stop : Stop
  pub content : Text
  pub sum : ℕ
  pub left : Text

-- The loop on `count`, by the room that is left in the buffer.
unfoldable pub read_body : ℕ → ℕ → Text → Body
read_body zero sum input = record { stop = at_limit; content = []; sum = sum; left = input }
read_body (suc room) sum [] = record { stop = closed; content = []; sum = sum; left = [] }
read_body (suc room) sum (ch ∷ input) =
    let rest = read_body room ((sum + ch) % 256) input in
    if ch == b'#'
    then record { stop = at_hash; content = []; sum = sum; left = input }
    else record rest { content = ch ∷ rest.content }

-- The buffer with `s` written over its first bytes.
abbrev pub over : Text → Text → Text
over s buffer = s ++ drop (length s) buffer

-- buffer[i - 3] = buffer[i] for i from 3 to the terminator
abbrev pub shift_sequence : Text → Text
shift_sequence buffer = let n = length (cstr buffer) - 2 in take n (drop 3 buffer) ++ drop n buffer

-- The answer to a packet with a good checksum, and the buffer behind it.
unfoldable pub accept : Text → Text × Text
accept buffer =
    if get_or buffer 2 0 == b':'
    then (b'+' ∷ get_or buffer 0 0 ∷ get_or buffer 1 0 ∷ [], shift_sequence buffer)
    else (b'+' ∷ [], buffer)

-- One round of the loop of `getpacket`: the buffer, what was sent by `putDebugChar`, and the input
-- left. `retry` goes round once more.
pub data Round : Type 0 where
  lost : Text → Round
  accepted : Text → Text → Text → Round
  retry : Text → Text → Text → Round

-- With `xmitcsum` read: the test of the checksum.
abbrev pub judge : ℕ → ℕ → Text → Text → Round
judge sum sent buffer input =
    let (reply, buffer') = accept buffer in
    if sum == sent then accepted buffer' reply input else retry buffer (b'-' ∷ []) input

-- The two digits behind `#`.
unfoldable pub read_digits : ℕ → Text → Text → Round
unfolding accept
read_digits sum buffer [] = lost buffer
read_digits sum buffer (a ∷ []) = lost buffer
read_digits sum buffer (a ∷ b ∷ input) = judge sum (byte_of_digits (a % 128) (b % 128)) buffer input

-- Behind the loop on `count`. A full buffer leaves by `continue` to the test of the outer loop,
-- with `xmitcsum` still at its first value, (unsigned char) -1.
unfoldable pub check_body : Stop → Text → Body → Round
unfolding read_digits
check_body closed buffer b = lost (over b.content buffer)
check_body at_limit buffer b =
    if b.sum == 255
    then accepted (over b.content buffer) [] b.left
    else retry (over b.content buffer) [] b.left
check_body at_hash buffer b = read_digits b.sum (over (b.content ++ (0 ∷ [])) buffer) b.left

unfoldable pub get_round : Text → Text → Round
unfolding check_body find_start
get_round buffer input = elim (find_start input) [
  | none ↦ lost buffer
  | some input' ↦ let b = read_body max_buf 0 input' in check_body b.stop buffer b
]

-- What `getpacket` returns (1 or 0), its buffer, what it has sent, and the input left.
pub record Got : Type 0 where
  pub returned : Bool
  pub buffer : Text
  pub replies : Text
  pub left : Text

abbrev pub with_replies : Text → Option Got → Option Got
with_replies r none = none
with_replies r (some g) = some (record g { replies = r ++ g.replies })

-- The outer loop on fuel; `none` means that the fuel ran out.
unfoldable pub getpacket_loop : ℕ → Text → Text → Option Got
unfolding get_round
getpacket_loop zero buffer input = none
getpacket_loop (suc fuel) buffer input = elim (get_round buffer input) [
  | lost b ↦ some (record { returned = false; buffer = b; replies = []; left = [] })
  | accepted b r rest ↦ some (record { returned = true; buffer = b; replies = r; left = rest })
  | retry b r rest ↦ with_replies r (getpacket_loop fuel b rest)
]

-- Each round takes at least one byte of the input.
unfoldable pub getpacket : Text → Text → Option Got
unfolding getpacket_loop
getpacket buffer input = getpacket_loop (suc (length input)) buffer input
