-- ===== src/Tty/Session.antt =====
-- The thread that receives and the threads that read, in any interleaving of their steps.
use psplink.Base.{
  ℕ, zero, suc, ◌-◌, ◌≡◌, refl, sym, ap, ◌∙◌, [], ◌∷◌, ◌++◌, append_assoc, none, Text, replicate,
  take, drop, arith, min,
}
use psplink.Tty.{Tty, stdin_bufsize, tty_add_input_data, input_handler}
use psplink.Tty.Queue.{queue, IsValid, tty_add_input_data-queue, input_handler-queue}

-- The variables at the start of the program.
abbrev pub start : Tty
start = record {
  stdinbuf = replicate 4096 0;
  stdinreadpos = 0;
  stdinwritepos = 0;
  stdinsize = 0;
  stdinwaitth = none;
}

-- The states that the two operations lead to, with the characters that found room and those that
-- were handed out so far.
pub data Reached : Text → Text → Tty → Type 0 where
  begins : Reached [] [] start
  adds :
      (chars : Text) {accepted handed : Text} {t : Tty}
      → Reached accepted handed t
      → Reached
          (accepted ++ take (stdin_bufsize - t.stdinsize) chars)
          handed
          (tty_add_input_data chars t).0
  reads :
      (thread size : ℕ) {accepted handed : Text} {t : Tty}
      → Reached accepted handed t
      → Reached accepted (handed ++ (input_handler thread size t).0) (input_handler thread size t).1

pub take-drop : (n : ℕ) (xs : Text) → take n xs ++ drop n xs ≡ xs
take-drop zero xs = refl
take-drop (suc n) [] = refl
take-drop (suc n) (x ∷ xs) = ap (λ ys. x ∷ ys) (take-drop n xs)

start-IsValid : IsValid start
start-IsValid = record { room = refl; size = omega arith; reading = omega arith; writing = refl }

-- However the steps are interleaved, what has been handed out and what still waits are together
-- exactly the characters that found room, in their order: none is lost, doubled or moved. The ring
-- is valid throughout.
pub Reached-queue :
    {accepted handed : Text} {t : Tty}
    → Reached accepted handed t
    → (handed ++ queue t ≡ accepted) × IsValid t
Reached-queue begins = (refl, start-IsValid)
Reached-queue (adds chars {handed = handed} {t = t} r) =
    let (same, v) = Reached-queue r in
    let (q, _, _, v') = tty_add_input_data-queue chars v in
    (
      ap (λ xs. handed ++ xs) q
          ∙ sym (append_assoc handed (queue t) (take (stdin_bufsize - t.stdinsize) chars))
          ∙ ap (λ xs. xs ++ take (stdin_bufsize - t.stdinsize) chars) same,
      v',
    )
Reached-queue (reads thread size {handed = handed} {t = t} r) =
    let (same, v) = Reached-queue r in
    let (taken, left, v', _) = input_handler-queue thread size v in
    (
      append_assoc handed _ _
          ∙ ap (λ xs. handed ++ xs)
              (ap (λ xs. xs ++ queue (input_handler thread size t).1) taken
                ∙ ap (λ xs. take (min size t.stdinsize) (queue t) ++ xs) left
                ∙ take-drop (min size t.stdinsize) (queue t))
          ∙ same,
      v',
    )
