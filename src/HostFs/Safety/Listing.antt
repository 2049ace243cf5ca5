-- ===== src/HostFs/Safety/Listing.antt =====
-- An open directory is the queue of the entries that are still to be read.
use psplink.Base.{
  ℕ, zero, suc, ◌+◌, ◌-◌, ◌≡◌, ◌≤◌, ◌<◌, refl, sym, ap, subst, ◌∙◌, false, List, [], ◌∷◌, Option,
  none, some, length, drop, get_or, set, arith, ltb, ltb→lt, inl, inr, Bool-cases,
}
use psplink.HostFs.Host.{Os}
use psplink.HostFs.Server.{Server, DirHandle, SceIoDirent}
use psplink.HostFs.Dirs.{closed_dir, no_entry, next_entry}
use psplink.HostFs.Safety.Handles.{IsTables, IsListing, get_or-IsListing}

-- The entries behind the position.
abbrev pub remaining : ℕ → List DirHandle → List SceIoDirent
remaining did dirs = let d = get_or dirs did closed_dir in drop d.pos d.p_dir

-- The first entry is taken, with the number of entries that were left with it.
abbrev pub Taken : {os : Os} → ℕ → List SceIoDirent → Option (SceIoDirent × ℕ) × Server os → Type 0
Taken did [] (o, s') = (o ≡ none) × (remaining did s'.open_dirs ≡ [])
Taken did (e ∷ rest) (o, s') =
    (o ≡ some (e, suc (length rest))) × (remaining did s'.open_dirs ≡ rest)

drop-past : (xs : List SceIoDirent) (i : ℕ) → length xs ≤ i → drop i xs ≡ []
drop-past [] zero h = refl
drop-past [] (suc i) h = refl
drop-past (x ∷ xs) zero h = absurd (omega arith)
drop-past (x ∷ xs) (suc i) h = drop-past xs i (omega arith)

suc-add : (i : ℕ) → suc (i + 1) ≡ suc i + 1
suc-add i = omega arith

drop-next :
    (xs : List SceIoDirent) (i : ℕ)
    → i < length xs
    → drop i xs ≡ get_or xs i no_entry ∷ drop (i + 1) xs
drop-next [] i h = absurd (omega arith)
drop-next (x ∷ xs) zero h = refl
drop-next (x ∷ xs) (suc i) h =
    drop-next xs i (omega arith) ∙ ap (λ j. get_or xs i no_entry ∷ drop j (x ∷ xs)) (suc-add i)

length-drop : (xs : List SceIoDirent) (i : ℕ) → length (drop i xs) ≡ length xs - i
length-drop xs zero = omega arith
length-drop [] (suc i) = omega arith
length-drop (x ∷ xs) (suc i) = omega (arith, length-drop xs i)

get_or-set :
    (ds : List DirHandle) (i : ℕ) (d : DirHandle)
    → i < length ds
    → get_or (set ds i d) i closed_dir ≡ d
get_or-set [] i d h = absurd (omega arith)
get_or-set (x ∷ ds) zero d h = refl
get_or-set (x ∷ ds) (suc i) d h = get_or-set ds i d (omega arith)

past_end : (pos count : ℕ) → ltb pos count ≡ false → count ≤ pos
past_end pos count h = ground arith

module _ {os : Os} where
  -- DREAD on an open directory hands out the entries in the order of the listing, one for each call,
  -- with the number that was left, this one included; behind the last entry it hands out nothing.
  pub next_entry-Taken :
      (did : ℕ) (s : Server os)
      → did < length s.open_dirs
      → IsTables s
      → Taken did (remaining did s.open_dirs) (next_entry did s)
  unfolding next_entry
  next_entry-Taken did s below h =
      let d : DirHandle = get_or s.open_dirs did closed_dir in
      let l : IsListing d = get_or-IsListing s.open_dirs did h.listings in
      elim (Bool-cases (ltb d.pos d.count)) [
        | inr e ↦
            let nothing : drop d.pos d.p_dir ≡ [] =
              drop-past d.p_dir d.pos (omega (arith, l.counted, past_end d.pos d.count e)) in
            subst (λ es. Taken did es (next_entry did s)) (sym nothing)
              (rw (next_entry, e) (refl, nothing))
        | inl e ↦
            let lt : d.pos < length d.p_dir = omega (arith, l.counted, ltb→lt d.pos d.count e) in
            subst (λ es. Taken did es (next_entry did s)) (sym (drop-next d.p_dir d.pos lt))
              (rw (next_entry, e)
                (
                  ap (λ n. some (get_or d.p_dir d.pos no_entry, n))
                      (omega (arith, l.counted, lt, length-drop d.p_dir (d.pos + 1))),
                  ap (λ x. drop x.pos x.p_dir)
                      (get_or-set s.open_dirs did (record d { pos = d.pos + 1 }) below),
                ))
      ]
