-- ===== src/Shell/Packages/Steps.antt =====
-- The ways a visit goes, and what holds of membership.
use rusty_penguin.Base.{
  ℕ, suc, ◌≡◌, ap, sym, ◌∙◌, List, [], ◌∷◌, Bool, true, false, none, some, Bool-cases, Option-cases,
  inl, inr,
}
use rusty_penguin.Base.Texts.{name_eq, name_eq_refl, name_eq_sound}
use rusty_penguin.Shell.Packages.{
  Text, RepoPkg, get, mem, Resolved, ok, cycle, not_found, and_then, visit_each, visit,
}

module _ (pkgs : List RepoPkg) (is_installed : Text → Bool) where
  -- By the test that decides.
  pub data Step (fuel : ℕ) (visiting : List Text) (name : Text) (order : List Text)
      : Resolved → Type 0 where
    resolved : mem name order ≡ true → Step fuel visiting name order (ok order)
    present : is_installed name ≡ true → Step fuel visiting name order (ok order)
    looped :
        is_installed name ≡ false
        → mem name visiting ≡ true
        → Step fuel visiting name order (cycle name)
    absent :
        is_installed name ≡ false
        → get pkgs name ≡ none
        → Step fuel visiting name order (not_found name)
    down :
        (p : RepoPkg)
        → mem name order ≡ false
        → is_installed name ≡ false
        → mem name visiting ≡ false
        → get pkgs name ≡ some p
        → Step fuel visiting name order (
            and_then
              (visit_each (visit pkgs is_installed fuel (name ∷ visiting)) p.deps order)
              (λ o. ok (name ∷ o)))

  pub visit-Step :
      (fuel : ℕ) (visiting : List Text) (name : Text) (order : List Text)
      → Step fuel visiting name order (visit pkgs is_installed (suc fuel) visiting name order)
  unfolding visit
  visit-Step fuel visiting name order = elim (Bool-cases (mem name order)) [
    | inl before ↦ rw before (resolved before)
    | inr fresh ↦ rw fresh (elim (Bool-cases (is_installed name)) [
      | inl there ↦ rw there (present there)
      | inr wanted ↦ rw wanted (elim (Bool-cases (mem name visiting)) [
        | inl again ↦ rw again (looped wanted again)
        | inr new ↦ rw new (elim (Option-cases (get pkgs name)) [
          | inl nowhere ↦ rw nowhere (absent wanted nowhere)
          | inr (p, known) ↦ rw known (down p fresh wanted new known)
        ])
      ])
    ])
  ]

-- A package that is found bears the name.
pub get-name :
    (pkgs : List RepoPkg) (name : Text) (p : RepoPkg) → get pkgs name ≡ some p → p.name ≡ name
unfolding get
get-name [] name p e = cc
get-name (q ∷ qs) name p e = elim (Bool-cases (name_eq q.name name)) [
  | inl here ↦
      let first : get (q ∷ qs) name ≡ some q = rw (here, get) in
      let same : q ≡ p = cc in
      ap (λ (r : RepoPkg). r.name) (sym same) ∙ name_eq_sound q.name name here
  | inr other ↦
      let rest : get (q ∷ qs) name ≡ get qs name = rw (other, get) in
      get-name qs name p (sym rest ∙ e)
]

pub mem_head : (name : Text) (names : List Text) → mem name (name ∷ names) ≡ true
unfolding mem
mem_head name names = rw (name_eq_refl name)
