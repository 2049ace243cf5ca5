-- ===== src/Tty/Queue.antt =====
-- The ring buffer as a queue of characters: what is added comes out again, in order.
use psplink.Base.{
  ◌⊎◌, ℕ, zero, suc, ◌+◌, ◌-◌, ◌%◌, ◌≤◌, ◌<◌, ◌≡◌, ◌≢◌, refl, sym, ap, ap₂, ◌∙◌, inl, inr, [], ◌∷◌,
  ◌++◌, append_assoc, append-nil, none, some, arith, ◌==◌, Bool-cases, Text, set, get_or, take,
  drop, length, length-set, min,
}
use psplink.Tty.{Tty, stdin_bufsize, write_loop, tty_add_input_data, read_loop, input_handler}

-- `n` characters of the ring from a position on.
abbrev pub ring : ℕ → ℕ → Text → Text
ring zero pos buf = []
ring (suc n) pos buf = get_or buf pos 0 ∷ ring n ((pos + 1) % stdin_bufsize) buf

-- What waits to be read.
abbrev pub queue : Tty → Text
queue t = ring t.stdinsize t.stdinreadpos t.stdinbuf

pub record IsValid (t : Tty) : Type 0 where
  pub room : length t.stdinbuf ≡ stdin_bufsize
  pub size : t.stdinsize ≤ stdin_bufsize
  pub reading : t.stdinreadpos < stdin_bufsize
  pub writing : t.stdinwritepos ≡ (t.stdinreadpos + t.stdinsize) % stdin_bufsize

get_or-set_same : (xs : Text) (i v : ℕ) → i < length xs → get_or (set xs i v) i 0 ≡ v
get_or-set_same [] i v h = absurd (omega arith)
get_or-set_same (x ∷ xs) zero v h = refl
get_or-set_same (x ∷ xs) (suc i) v h = get_or-set_same xs i v (omega arith)

get_or-set_other : (xs : Text) (i j v : ℕ) → i ≢ j → get_or (set xs i v) j 0 ≡ get_or xs j 0
get_or-set_other [] i j v h = refl
get_or-set_other (x ∷ xs) zero zero v h = absurd (h refl)
get_or-set_other (x ∷ xs) zero (suc j) v h = refl
get_or-set_other (x ∷ xs) (suc i) zero v h = refl
get_or-set_other (x ∷ xs) (suc i) (suc j) v h = get_or-set_other xs i j v (omega arith)

-- A write behind the characters of a stretch leaves them alone.
ring-set :
    (n gap pos w v : ℕ) (buf : Text)
    → n + gap < stdin_bufsize
    → pos < stdin_bufsize
    → w ≡ (pos + n + gap) % stdin_bufsize
    → ring n pos (set buf w v) ≡ ring n pos buf
ring-set zero gap pos w v buf h p e = refl
ring-set (suc n) gap pos w v buf h p e =
    ap₂ (λ x xs. x ∷ xs) (get_or-set_other buf w pos v (omega arith))
      (ring-set n gap ((pos + 1) % stdin_bufsize) w v buf (omega arith) (omega arith) (omega arith))

-- One character more, at the end.
ring-suc :
    (n pos : ℕ) (buf : Text)
    → pos < stdin_bufsize
    → ring (suc n) pos buf ≡ ring n pos buf ++ get_or buf ((pos + n) % stdin_bufsize) 0 ∷ []
ring-suc zero pos buf p = ap (λ i. get_or buf i 0 ∷ []) (omega arith)
ring-suc (suc n) pos buf p =
    ap (λ xs. get_or buf pos 0 ∷ xs)
      (ring-suc n ((pos + 1) % stdin_bufsize) buf (omega arith)
        ∙ ap (λ i. ring n ((pos + 1) % stdin_bufsize) buf ++ get_or buf i 0 ∷ []) (omega arith))

-- One round of the loop that writes.
abbrev put : ℕ → Tty → Tty
put c t = record t {
  stdinbuf = set t.stdinbuf t.stdinwritepos c;
  stdinwritepos = (t.stdinwritepos + 1) % stdin_bufsize;
  stdinsize = t.stdinsize + 1;
}

put-IsValid : (c : ℕ) {t : Tty} → IsValid t → t.stdinsize < stdin_bufsize → IsValid (put c t)
put-IsValid c {t} v h = record {
  room = length-set t.stdinbuf t.stdinwritepos c ∙ v.room;
  size = omega (arith, h);
  reading = v.reading;
  writing = omega (arith, v.writing);
}

queue-put :
    (c : ℕ) {t : Tty}
    → IsValid t
    → t.stdinsize < stdin_bufsize
    → queue (put c t) ≡ queue t ++ c ∷ []
queue-put c {t} v h =
    let buf : Text = set t.stdinbuf t.stdinwritepos c in
    let pos : ℕ = t.stdinreadpos in
    let one : t.stdinsize + 1 ≡ suc t.stdinsize = omega arith in
    ap (λ n. ring n pos buf) one
    ∙ ring-suc t.stdinsize pos buf v.reading
    ∙ ap₂ (λ xs x. xs ++ x ∷ [])
        (ring-set t.stdinsize 0 pos t.stdinwritepos c t.stdinbuf (omega (arith, h)) v.reading
          (omega (arith, v.writing)))
        (ap (λ i. get_or buf i 0) (sym v.writing)
          ∙ get_or-set_same t.stdinbuf t.stdinwritepos c (omega (arith, v.room, v.writing)))

pub write_loop-queue :
    (chars : Text) {t : Tty}
    → IsValid t
    → t.stdinsize + length chars ≤ stdin_bufsize
    → (queue (write_loop chars t) ≡ queue t ++ chars) × IsValid (write_loop chars t)
unfolding write_loop
write_loop-queue [] {t} v h = (sym (append-nil (queue t)), v)
write_loop-queue (c ∷ chars) {t} v h =
    let k : t.stdinsize < stdin_bufsize = omega (arith, h) in
    let (q, v') = write_loop-queue chars (put-IsValid c v k) (omega (arith, h)) in
    (q ∙ ap (λ xs. xs ++ chars) (queue-put c v k) ∙ append_assoc (queue t) (c ∷ []) chars, v')

-- One round of the loop that reads.
abbrev behind_first : Tty → Tty
behind_first t = record t {
  stdinreadpos = (t.stdinreadpos + 1) % stdin_bufsize;
  stdinsize = t.stdinsize - 1;
}

behind_first-IsValid : {t : Tty} → IsValid t → 0 < t.stdinsize → IsValid (behind_first t)
behind_first-IsValid {t} v h = record {
  room = v.room;
  size = omega (arith, v.size);
  reading = omega arith;
  writing = omega (arith, v.writing, h);
}

queue-behind_first :
    (t : Tty)
    → 0 < t.stdinsize
    → queue t ≡ get_or t.stdinbuf t.stdinreadpos 0 ∷ queue (behind_first t)
queue-behind_first t h = ap (λ n. ring n t.stdinreadpos t.stdinbuf) enough
  where
    enough : t.stdinsize ≡ suc (t.stdinsize - 1)
    enough = omega (arith, h)

pub read_loop-queue :
    (n : ℕ) {t : Tty}
    → IsValid t
    → n ≤ t.stdinsize
    → let (chars, t') = read_loop n t in
      (chars ≡ take n (queue t)) × (queue t' ≡ drop n (queue t)) × IsValid t'
unfolding read_loop
read_loop-queue zero {t} v h = (refl, refl, v)
read_loop-queue (suc n) {t} v h =
    let first = queue-behind_first t (omega arith) in
    let (taken, left, v') =
      read_loop-queue n (behind_first-IsValid v (omega arith)) (omega (arith, h)) in
    (
      ap (λ xs. get_or t.stdinbuf t.stdinreadpos 0 ∷ xs) taken ∙ ap (take (suc n)) (sym first),
      left ∙ ap (drop (suc n)) (sym first),
      v',
    )

pub length-take : (n : ℕ) (xs : Text) → length (take n xs) ≤ n
length-take zero xs = omega arith
length-take (suc n) [] = omega arith
length-take (suc n) (x ∷ xs) = omega (arith, length-take n xs)

-- On a valid ring, `ttyAddInputData` puts the characters behind those that wait, as far as 4096
-- in all fit, and wakes up the thread that waits; the ring stays valid.
pub tty_add_input_data-queue :
    (chars : Text) {t : Tty}
    → IsValid t
    → let (t', woken) = tty_add_input_data chars t in
      (queue t' ≡ queue t ++ take (stdin_bufsize - t.stdinsize) chars)
      × (woken ≡ t.stdinwaitth)
      × (t'.stdinwaitth ≡ none)
      × IsValid t'
unfolding tty_add_input_data
tty_add_input_data-queue chars {t} v =
    let (q, v') =
      write_loop-queue (take (stdin_bufsize - t.stdinsize) chars) v
        (omega (arith, length-take (stdin_bufsize - t.stdinsize) chars, v.size)) in
    (
      q,
      refl,
      refl,
      record { room = v'.room; size = v'.size; reading = v'.reading; writing = v'.writing },
    )

-- On a valid ring, one round of `inputHandler` hands out the first characters that wait, as many
-- as are asked for and there, and leaves the others; the ring stays valid. Where it hands out
-- none, the thread is entered as waiting.
pub input_handler-queue :
    (thread size : ℕ) {t : Tty}
    → IsValid t
    → let (chars, t') = input_handler thread size t in
      (chars ≡ take (min size t.stdinsize) (queue t))
      × (queue t' ≡ drop (min size t.stdinsize) (queue t))
      × IsValid t'
      × ((0 < min size t.stdinsize) ⊎ (t'.stdinwaitth ≡ some thread))
unfolding input_handler
input_handler-queue thread size {t} v =
    let (taken, left, v') = read_loop-queue (min size t.stdinsize) v (omega arith) in
    elim (Bool-cases (min size t.stdinsize == 0)) [
      | inl e ↦ rw e (
        taken,
        left,
        record { room = v'.room; size = v'.size; reading = v'.reading; writing = v'.writing },
        inr refl,
      )
      | inr f ↦ rw f (taken, left, v', inl (ground arith))
    ]
