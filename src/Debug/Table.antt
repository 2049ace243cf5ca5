-- ===== src/Debug/Table.antt =====
-- The breakpoint table: what `debugSetBP` does to the table, to the memory and to the image of the program.
use psplink.Base.{
  ℕ, zero, suc, ◌≡◌, ◌≢◌, sym, ap, ◌∙◌, ◌⊎◌, inl, inr, true, false, List, [], ◌∷◌, none, some,
  arith, Bool-cases, Option-cases, get_elem?, set, length, length-set, All, Bool, ◌||◌, ◌&&◌, ◌%◌,
  ◌^◌, ◌==◌,
}
use psplink.Base.Memory.{sw}
use psplink.Debug.{
  BreakPoint, Debugger, max_bps, sw_break_inst, planted_at, covers, find_bp, find_freebp,
  debug_set_bp,
}
use psplink.Debug.Image.{
  restore_all, image, Clear, IsApart, find_bp-none, find_freebp-some, restore_all-plant,
}

-- The table has its 16 entries, and no two active ones cover the same word.
pub record IsValid (d : Debugger) : Type 0 where
  pub count : length d.bps ≡ max_bps
  pub apart : IsApart d.bps

-- No single step is pending.
pub record IsIdle (d : Debugger) : Type 0 where
  pub idle0 : d.step0.active ≡ false
  pub idle1 : d.step1.active ≡ false

pub image-IsIdle : {d : Debugger} → IsIdle d → image d ≡ restore_all d.bps d.mem
unfolding image
image-IsIdle {d} h = ap (restore_all d.bps) (ground arith)

Clear-set :
    (a : ℕ) (bs : List BreakPoint) (i : ℕ) (e : BreakPoint)
    → Clear a bs
    → covers a e ≡ false
    → Clear a (set bs i e)
Clear-set a [] i e c h = tt
Clear-set a (b ∷ bs) zero e (c, cs) h = (h, cs)
Clear-set a (b ∷ bs) (suc i) e (c, cs) h = (c, Clear-set a bs i e cs h)

-- Any entry that covers nothing which another active entry covers may be put in the table.
pub IsApart-set :
    (bs : List BreakPoint) (i : ℕ) (e : BreakPoint)
    → IsApart bs
    → (e.active ≡ true → Clear e.address bs)
    → IsApart (set bs i e)
IsApart-set [] i e p h = tt
IsApart-set (b ∷ bs) zero e (p, ps) h = (λ t. (h t).1, ps)
IsApart-set (b ∷ bs) (suc i) e (p, ps) h =
    (λ t. Clear-set b.address bs i e (p t) (apart t), IsApart-set bs i e ps (λ t. (h t).1))
  where
    apart : b.active ≡ true → covers b.address e ≡ false
    apart t = elim (Bool-cases e.active) [ inl u ↦ meets u (h u).0 | inr f ↦ rw f ]
      where
        meets : e.active ≡ true → covers e.address b ≡ false → covers b.address e ≡ false
        meets u c = ground arith

find_freebp-none : (bs : List BreakPoint) → find_freebp bs ≡ none → All (λ b. b.active ≡ true) bs
unfolding find_freebp
find_freebp-none [] h = tt
find_freebp-none (b ∷ bs) h = ground (arith, find_freebp-none bs)

-- The outcomes of `debugSetBP`: refused for an address that is covered or for a full table, or
-- planted in a free entry.
abbrev pub Refused : ℕ → Debugger → Type 0
Refused a d =
    (debug_set_bp a d ≡ (d, false)) × ((find_bp a d.bps ≢ none) ⊎ All (λ b. b.active ≡ true) d.bps)

pub record Planted (a : ℕ) (d : Debugger) : Type 0 where
  pub slot : ℕ
  pub old : BreakPoint
  pub clear : Clear a d.bps
  pub there : get_elem? d.bps slot ≡ some old
  pub unused : old.active ≡ false
  pub result : debug_set_bp a d ≡ (
    record d { bps = set d.bps slot (planted_at a d.mem); mem = sw sw_break_inst a d.mem },
    true,
  )

pub debug_set_bp-cases : (a : ℕ) (d : Debugger) → Refused a d ⊎ Planted a d
unfolding debug_set_bp
debug_set_bp-cases a d = elim (Option-cases (find_bp a d.bps)) [
  | inr (j, e) ↦ inl (ground arith, inl (λ n. ground arith))
  | inl e ↦ elim (Option-cases (find_freebp d.bps)) [
    | inl n ↦ inl (ground arith, inr (find_freebp-none d.bps n))
    | inr (i, f) ↦
        let (b, g, u) = find_freebp-some d.bps i f in
        inr (record {
          slot = i;
          old = b;
          clear = find_bp-none a d.bps e;
          there = g;
          unused = u;
          result = ground arith;
        })
  ]
]

-- `debugSetBP` keeps the table valid.
pub debug_set_bp-IsValid : (a : ℕ) {d : Debugger} → IsValid d → IsValid (debug_set_bp a d).0
debug_set_bp-IsValid a {d} v = elim (debug_set_bp-cases a d) [
  | inl (e, _) ↦ rw e v
  | inr p ↦ rw p.result (record {
    count = length-set d.bps p.slot (planted_at a d.mem) ∙ v.count;
    apart = IsApart-set d.bps p.slot (planted_at a d.mem) v.apart (λ _. p.clear);
  })
]

-- With no single step pending, `debugSetBP` leaves the image of the program as it is, whether or
-- not it plants the breakpoint.
pub image-debug_set_bp : (a : ℕ) {d : Debugger} → IsIdle d → image (debug_set_bp a d).0 ≡ image d
image-debug_set_bp a {d} h = elim (debug_set_bp-cases a d) [
  | inl (e, _) ↦ rw e
  | inr p ↦ rw p.result (
      image-IsIdle (record { idle0 = h.idle0; idle1 = h.idle1 })
      ∙ restore_all-plant d.bps d.mem a p.slot p.clear p.there p.unused
      ∙ sym (image-IsIdle h))
]

-- An active breakpoint stands at the address, cached and uncached alike: the four bits that select
-- the segment do not count.
abbrev pub is_taken : ℕ → List BreakPoint → Bool
is_taken a [] = false
is_taken a (b ∷ bs) = (b.active && b.address % 2 ^ 28 == a % 2 ^ 28) || is_taken a bs

-- All breakpoints are active.
abbrev pub is_full : List BreakPoint → Bool
is_full [] = true
is_full (b ∷ bs) = b.active && is_full bs
