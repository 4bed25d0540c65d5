-- ===== src/Rpfs/Dirs/Others.antt =====
-- `ensure_parents` and the names that it does not make.
use rusty_penguin.Base.{
  ℕ, ◌+◌, ◌≡◌, refl, ◌≢◌, ap, sym, subst, ◌∙◌, List, [], ◌∷◌, Bool, false, ◌&&◌, if◌then◌else◌,
  ◌==◌, ltb, length, take, length-take, arith, Option-cases, Bool-cases, inl, inr,
}
use rusty_penguin.Base.Texts.{name_eq, name_eq_ne}
use rusty_penguin.Rpfs.Volume.{set_entry, find, free_slot, holds}
use rusty_penguin.Rpfs.Volume.Entries.{IsName, Reads, set_entry_lem}
use rusty_penguin.Rpfs.Volume.Names.{holds-set_entry}
use rusty_penguin.Rpfs.Device.{BlockDev, Rpfs}
use rusty_penguin.Rpfs.Dirs.{dir_entry, enter, make_dir, make_missing, ensure_from}
use rusty_penguin.Rpfs.Dirs.Making.{take-IsName}

module _ {Dev : Type 0} (B : BlockDev Dev) where
  -- No slot of `s'` holds `name` that did not in `s`.
  abbrev pub AddsNo : List ℕ → Rpfs Dev → Rpfs Dev → Type 0
  AddsNo name s s' = (j : ℕ) → holds s.vol.dir name j ≡ false → holds s'.vol.dir name j ≡ false

  make_missing-other :
      (s : Rpfs Dev) (q name : List ℕ)
      → IsName q
      → q ≢ name
      → AddsNo name s (make_missing B s q (find s.vol q)).1
  unfolding make_missing make_dir enter
  make_missing-other s q name ok ne = elim (Option-cases (find s.vol q)) [
    | inl absent ↦
        subst (λ o. AddsNo name s (make_missing B s q o).1) (sym absent)
          (elim (Option-cases (free_slot s.vol)) [
            | inl full ↦ subst (λ o. AddsNo name s (make_dir B s q o).1) (sym full) (λ j h. h)
            | inr (slot, free) ↦
                subst (λ o. AddsNo name s (make_dir B s q o).1) (sym free)
                  (λ j h.
                    holds-set_entry s.vol.dir slot (dir_entry q) name j (reads slot) refl
                    ∙ pick slot j h)
          ])
    | inr (i, there) ↦ subst (λ o. AddsNo name s (make_missing B s q o).1) (sym there) (λ j h. h)
  ]
    where
      reads : (slot : ℕ) → Reads (set_entry s.vol.dir slot (dir_entry q)) slot (dir_entry q)
      reads slot =
          (set_entry_lem s.vol.dir slot (dir_entry q) ok (omega arith) (omega arith)
            (omega arith)).0

      pick :
          (slot j : ℕ)
          → holds s.vol.dir name j ≡ false
          → (if j == slot then name_eq q name else holds s.vol.dir name j) ≡ false
      pick slot j h = elim (Bool-cases (j == slot)) [
        | inl here ↦ rw here (name_eq_ne q name ne)
        | inr there ↦ rw there h
      ]

  pub ensure_from-other :
      (name : List ℕ) (cut : ℕ) (rest : List ℕ) (s : Rpfs Dev)
      → IsName name
      → cut + length rest ≡ length name
      → AddsNo name s (ensure_from B name cut rest s)
  unfolding ensure_from
  ensure_from-other name cut [] s ok sum j h = h
  ensure_from-other name cut (c ∷ rest) s ok sum j h =
      ensure_from-other name (cut + 1) rest _ ok (omega arith) j
        (elim (Bool-cases ((c == 47) && ltb 0 cut)) [
          | inl slash ↦
              subst (λ b. holds (step b).vol.dir name j ≡ false) (sym slash)
                (make_missing-other s (take cut name) name (take-IsName cut name ok) shorter j h)
          | inr other ↦ subst (λ b. holds (step b).vol.dir name j ≡ false) (sym other) h
        ])
    where
      step : Bool → Rpfs Dev
      step b = if b then (make_missing B s (take cut name) (find s.vol (take cut name))).1 else s

      shorter : take cut name ≢ name
      shorter e = omega (arith, length-take cut name, ap (λ (xs : List ℕ). length xs) e)
