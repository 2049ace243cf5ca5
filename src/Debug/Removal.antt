-- ===== src/Debug/Removal.antt =====
-- Taking breakpoints out: what `debugDeleteBp` and `debugHandleException` do to the table, to the
-- memory and to the image of the program.
use psplink.Base.{
  ◌<◌, zero, suc, ◌∷◌, [], List, lt→ltb, length, ℕ, ◌≡◌, refl, sym, ap, subst, ◌∙◌, ◌⊎◌, inl, inr,
  true, false, none, some, arith, ltb, Bool-cases, Option-cases, get_elem?, set, length-set,
}
use psplink.Base.Memory.{sw}
use psplink.Mips.{Regs}
use psplink.Debug.{
  debug_set_bp, planted_at, BreakPoint, Debugger, max_bps, cleared, recover_steps, handled, find_bp,
  debug_delete_bp, debug_handle_exception, check_bp, remove_bp,
}
use psplink.Debug.Image.{unplant-plant, image, IsApart, restore_all-remove}
use psplink.Debug.Table.{debug_set_bp-cases, IsValid, IsIdle, image-IsIdle, IsApart-set}

record Removed (i : ℕ) (d : Debugger) : Type 0 where
  entry : BreakPoint
  there : get_elem? d.bps i ≡ some entry
  used : entry.active ≡ true
  result :
      remove_bp i d
      ≡ record d { bps = set d.bps i (cleared entry); mem = sw entry.oldinst entry.address d.mem }

remove_bp-cases : (i : ℕ) (d : Debugger) → (remove_bp i d ≡ d) ⊎ Removed i d
remove_bp-cases i d = elim (Option-cases (get_elem? d.bps i)) [
  | inl n ↦ inl (ground arith)
  | inr (b, g) ↦ elim (Bool-cases b.active) [
    | inr f ↦ inl (ground arith)
    | inl t ↦ inr (record { entry = b; there = g; used = t; result = ground arith })
  ]
]

image-remove_bp :
    (i : ℕ) {d : Debugger} → IsApart d.bps → IsIdle d → image (remove_bp i d) ≡ image d
image-remove_bp i {d} v h = elim (remove_bp-cases i d) [
  | inl e ↦ ap image e
  | inr r ↦
      ap image r.result
      ∙ image-IsIdle (record { idle0 = h.idle0; idle1 = h.idle1 })
      ∙ restore_all-remove d.bps d.mem i v r.there r.used
      ∙ sym (image-IsIdle h)
]

remove_bp-IsValid : (i : ℕ) {d : Debugger} → IsValid d → IsValid (remove_bp i d)
remove_bp-IsValid i {d} v = elim (remove_bp-cases i d) [
  | inl e ↦ subst IsValid (sym e) v
  | inr r ↦ subst IsValid (sym r.result) (record {
    count = length-set d.bps i (cleared r.entry) ∙ v.count;
    apart = IsApart-set d.bps i (cleared r.entry) v.apart (λ e. absurd (cc));
  })
]

-- `debugDeleteBp` keeps the table valid.
pub debug_delete_bp-IsValid : (i : ℕ) {d : Debugger} → IsValid d → IsValid (debug_delete_bp i d)
unfolding debug_delete_bp
debug_delete_bp-IsValid i {d} v = elim (Bool-cases (ltb i max_bps)) [
  | inl t ↦ rw t (remove_bp-IsValid i v)
  | inr f ↦ rw f v
]

-- With a valid table and no single step pending, `debugDeleteBp` leaves the image of the program
-- as it is.
pub image-debug_delete_bp :
    (i : ℕ) {d : Debugger} → IsValid d → IsIdle d → image (debug_delete_bp i d) ≡ image d
unfolding debug_delete_bp
image-debug_delete_bp i {d} v h = elim (Bool-cases (ltb i max_bps)) [
  | inl t ↦ rw t (image-remove_bp i v.apart h)
  | inr f ↦ rw f
]

image-recover_steps : (d : Debugger) → image (recover_steps d) ≡ image d
unfolding image
image-recover_steps d = refl

recover_steps-IsIdle : (d : Debugger) → IsIdle (recover_steps d)
recover_steps-IsIdle d = record { idle0 = refl; idle1 = refl }

remove_bp-IsIdle : (i : ℕ) {d : Debugger} → IsIdle d → IsIdle (remove_bp i d)
remove_bp-IsIdle i {d} h = elim (remove_bp-cases i d) [
  | inl e ↦ subst IsIdle (sym e) h
  | inr r ↦ subst IsIdle (sym r.result) (record { idle0 = h.idle0; idle1 = h.idle1 })
]

handled_lem :
    (a : ℕ) {d : Debugger}
    → IsValid d
    → (image (handled a d) ≡ image d) × IsIdle (handled a d) × IsValid (handled a d)
handled_lem a {d} v =
    elim (find_bp a d.bps)
      as (λ o.
        let d' = recover_steps d in
        let e : Debugger = elim o [ none ↦ d' | some i ↦ remove_bp i d' ] in
        (image e ≡ image d) × IsIdle e × IsValid e) [
          | none ↦ (image-recover_steps d, recover_steps-IsIdle d, same)
          | some i ↦ (
            image-remove_bp i v.apart (recover_steps-IsIdle d) ∙ image-recover_steps d,
            remove_bp-IsIdle i (recover_steps-IsIdle d),
            remove_bp-IsValid i same,
          )
        ]
  where
    same : IsValid (recover_steps d)
    same = record { count = v.count; apart = v.apart }

-- With a valid table, an exception leaves the image of the program as it is, whatever single step
-- was pending. If it is at no breakpoint nothing at all changes, and the handler returns 0;
-- otherwise it returns 1, and no single step is pending afterwards. The table stays valid.
pub image-debug_handle_exception :
    (regs : Regs) {d : Debugger}
    → IsValid d
    → (image (debug_handle_exception regs d).0 ≡ image d)
      × IsValid (debug_handle_exception regs d).0
      × (((check_bp regs.epc d ≡ false) × (debug_handle_exception regs d ≡ (d, false)))
          ⊎ ((check_bp regs.epc d ≡ true)
              × ((debug_handle_exception regs d).1 ≡ true)
              × IsIdle (debug_handle_exception regs d).0))
unfolding debug_handle_exception
image-debug_handle_exception regs {d} v = elim (Bool-cases (check_bp regs.epc d)) [
  | inl t ↦
      let (same, idle, valid) = handled_lem regs.epc v in rw t (same, valid, inr (refl, refl, idle))
  | inr f ↦ rw f (refl, v, inl (refl, refl))
]

get_elem?-set :
    (bs : List BreakPoint) (i : ℕ) (e : BreakPoint) {b : BreakPoint}
    → get_elem? bs i ≡ some b
    → (get_elem? (set bs i e) i ≡ some e) × (i < length bs)
get_elem?-set [] i e g = absurd (cc)
get_elem?-set (b ∷ bs) zero e g = (refl, omega arith)
get_elem?-set (b ∷ bs) (suc i) e g = let (h, l) = get_elem?-set bs i e g in (h, omega (arith, l))

-- A breakpoint that `debugSetBP` has planted in a valid table has a number below 16 by which
-- `debugDeleteBp` takes it out: the memory is then exactly what it was before both.
pub debug_set_bp-deleted :
    (a : ℕ) {d : Debugger}
    → IsValid d
    → (debug_set_bp a d).1 ≡ true
    → (i : ℕ) × (i < max_bps) × ((debug_delete_bp i (debug_set_bp a d).0).mem ≡ d.mem)
unfolding debug_delete_bp
debug_set_bp-deleted a {d} v t = elim (debug_set_bp-cases a d) [
  | inl (e, _) ↦ absurd (cc)
  | inr p ↦
      let (g, l) = get_elem?-set d.bps p.slot (planted_at a d.mem) p.there in
      let small : p.slot < max_bps = omega (arith, l, v.count) in
      (
        p.slot,
        small,
        rw (p.result, lt→ltb p.slot max_bps small, g, remove_bp, p.result) (unplant-plant d.mem a),
      )
]
