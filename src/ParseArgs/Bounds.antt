-- ===== src/ParseArgs/Bounds.antt =====
-- `parse_args` ends, and writes inside its two buffers.
use psplink.Base.{
  ℕ, zero, suc, ◌+◌, ◌≤◌, ◌<◌, ◌≡◌, refl, ap, inl, inr, Bool, true, false, List, [], ◌∷◌, ◌++◌,
  Option, none, some, ltb, ◌==◌, Text, length, get_or, All, arith, Bool-cases, length-append,
}
use psplink.ParseArgs.{
  State, skip_spaces, round, Args, rejected, parsed, stuck, is_empty, goes_on, drop_empty, finish,
  loop, parse_args,
}
use psplink.ParseArgs.Round.{Next, Steps, round-Steps, skip_spaces-length}

-- The invariant of the loop. `size` is the room for the output without its last terminator.
record Good (size max_args : ℕ) (s : State) : Type 0 where
  some_arg : 0 < length s.argv
  few_args : length s.argv ≤ max_args
  inside : All (λ a. a ≤ length s.out) s.argv
  full : length s.argv ≡ max_args → get_or s.argv 0 0 ≡ length s.out
  fits : length s.out + length s.input ≤ size

All-weaken : (m n : ℕ) (xs : List ℕ) → m ≤ n → All (λ a. a ≤ m) xs → All (λ a. a ≤ n) xs
All-weaken m n [] h k = tt
All-weaken m n (x ∷ xs) h (k, ks) = (omega (arith, h, k), All-weaken m n xs h ks)

Good-Next :
    {size max_args : ℕ} {s s' : State}
    → Good size max_args s
    → length s.argv < max_args
    → Next s s'
    → Good size max_args s'
Good-Next {size} {max_args} {s} {s'} g h n = elim n.args [
  | inl e ↦ record {
    some_arg = rw e g.some_arg;
    few_args = rw e g.few_args;
    inside = rw e (All-weaken _ _ s.argv n.grows g.inside);
    full = λ f. absurd (omega (arith, ap (λ (x : List ℕ). length x) e, f, h));
    fits = omega (arith, n.room, g.fits);
  }
  | inr e ↦ record {
    some_arg = rw e (omega arith);
    few_args = rw e (omega (arith, h));
    inside = rw e (omega arith, All-weaken _ _ s.argv n.grows g.inside);
    full = λ f. rw e refl;
    fits = omega (arith, n.room, g.fits);
  }
]

-- The result lies in the output buffer, its arguments too, and a place for the NULL behind them
-- is left in `argv`.
abbrev pub Fits : ℕ → ℕ → Args → Type 0
Fits size max_args rejected = Unit {0}
Fits size max_args stuck = ⊥
Fits size max_args (parsed out argv) =
    (length out ≤ size + 1) × (length argv < max_args) × All (λ a. a < length out) argv

get_or-append : (out : Text) → get_or (out ++ 0 ∷ []) (length out) 0 ≡ 0
get_or-append [] = refl
get_or-append (c ∷ out) = get_or-append out

All-strict :
    (out : Text) (xs : List ℕ)
    → All (λ a. a ≤ length out) xs
    → All (λ a. a < length (out ++ 0 ∷ [])) xs
All-strict out [] k = tt
All-strict out (x ∷ xs) (k, ks) =
    (omega (arith, length-append out (0 ∷ []), k), All-strict out xs ks)

drop_empty-Fits :
    (out : Text) (argv : List ℕ) (max_args : ℕ)
    → 0 < length argv
    → length argv ≤ max_args
    → All (λ a. a ≤ length out) argv
    → (length argv ≡ max_args → get_or argv 0 0 ≡ length out)
    → let args = drop_empty (out ++ 0 ∷ []) argv in
      (length args < max_args) × All (λ a. a < length (out ++ 0 ∷ [])) args
drop_empty-Fits out [] max_args p m k f = absurd (omega (arith, p))
drop_empty-Fits out (a ∷ argv) max_args p m (k, ks) f =
    elim (Bool-cases (get_or (out ++ 0 ∷ []) a 0 == 0)) [
      | inl t ↦ rw t (omega (arith, m), All-strict out argv ks)
      | inr n ↦ rw n (below n, All-strict out (a ∷ argv) (k, ks))
    ]
  where
    below : (get_or (out ++ 0 ∷ []) a 0 == 0) ≡ false → suc (length argv) < max_args
    below n = elim (Bool-cases (suc (length argv) == max_args)) [
      | inr g ↦ ground arith
      | inl e ↦ absurd (ground (arith, get_or-append out, f))
    ]

finish-Fits : {size max_args : ℕ} (s : State) → Good size max_args s → Fits size max_args (finish s)
unfolding finish
finish-Fits {size} {max_args} s g = elim (Bool-cases (s.in_quote == 0)) [
  | inr f ↦ rw f tt
  | inl t ↦
      let (few, inside) =
        drop_empty-Fits s.out s.argv max_args g.some_arg g.few_args g.inside g.full in
      rw t (omega (arith, length-append s.out (0 ∷ []), g.fits), few, inside)
]

loop-Fits :
    {size max_args : ℕ} (fuel : ℕ) (s : State)
    → Good size max_args s
    → length s.input ≤ fuel
    → Fits size max_args (loop fuel max_args s)
unfolding loop
loop-Fits {size} {max_args} zero s g h = elim (Bool-cases (goes_on max_args s)) [
  | inl t ↦ absurd (ends s.input h (ground arith))
  | inr f ↦ rw f (finish-Fits s g)
]
  where
    ends : (i : Text) → length i ≤ 0 → is_empty i ≡ false → ⊥
    ends i h e = ground arith
loop-Fits {size} {max_args} (suc fuel) s g h =
    go (λ s' g' h'. loop-Fits fuel s' g' h') (goes_on max_args s) refl
  where
    Rest : Type 0
    Rest =
        (s' : State)
        → Good size max_args s'
        → length s'.input ≤ fuel
        → Fits size max_args (loop fuel max_args s')

    next :
        Rest
        → (o : Option State) → ltb (length s.argv) max_args ≡ true
        → Steps s o
        → Fits size max_args (elim o [ none ↦ rejected | some s' ↦ loop fuel max_args s' ])
    next r none l n = tt
    next r (some s') l n = r s' (Good-Next g (ground arith) n) (omega (arith, h, n.eats))

    go :
        Rest
        → (b : Bool) → goes_on max_args s ≡ b
        → Fits size max_args (elim b [
          | false ↦ finish s
          | true ↦ elim (round s) [ none ↦ rejected | some s' ↦ loop fuel max_args s' ]
        ])
    go r false e = finish-Fits s g
    go r true e = next r (round s) (ground arith) (round-Steps s (ground arith))

-- For a line of any form, `parse_args` returns: the loop ends, the output is at most one character
-- longer than the line, and of the `max_args` places of `argv` one at least is left for the NULL
-- behind the arguments, each of which starts inside the output.
pub parse_args-Fits :
    (input : Text) (max_args : ℕ) → Fits (length input) max_args (parse_args input max_args)
unfolding parse_args
parse_args-Fits input max_args = elim (Bool-cases (max_args == 0)) [
  | inl t ↦ rw t tt
  | inr f ↦ rw f (elim (Bool-cases (is_empty (skip_spaces input))) [
    | inl t ↦ rw t (omega arith, ground arith, tt)
    | inr g ↦ rw g (loop-Fits (length (skip_spaces input)) _ (start (ground arith)) (omega arith))
  ])
]
  where
    start :
        0 < max_args
        → Good
            (length input)
            max_args
            (record { input = skip_spaces input; out = []; argv = 0 ∷ []; in_quote = 0 })
    start h = record {
      some_arg = omega arith;
      few_args = omega (arith, h);
      inside = (omega arith, tt);
      full = λ _. refl;
      fits = omega (arith, skip_spaces-length input);
    }
