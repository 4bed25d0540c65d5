-- ===== src/Shell/Packages/Ends.antt =====
-- A resolution ends.
use rusty_penguin.Base.{
  ℕ, zero, suc, ◌+◌, ◌≤◌, ◌<◌, ◌≡◌, ◌≢◌, sym, ◌∙◌, List, [], ◌∷◌, Bool, false, some, if◌then◌else◌,
  length, Bool-cases, inl, inr, arith,
}
use rusty_penguin.Base.Texts.{name_eq, name_eq_refl, name_eq_sound}
use rusty_penguin.Shell.Packages.{
  Text, RepoPkg, get, mem, Resolved, ok, cycle, not_found, out_of_fuel, and_then, visit_each, visit,
  resolve,
}
use rusty_penguin.Shell.Packages.Steps.{Step, resolved, present, looped, absent, down, visit-Step}

-- The packages of the index that are not on the way.
unseen : List RepoPkg → List Text → ℕ
unseen [] visiting = 0
unseen (p ∷ ps) visiting = (if mem p.name visiting then 0 else 1) + unseen ps visiting

unseen-le : (ps : List RepoPkg) (visiting : List Text) → unseen ps visiting ≤ length ps
unfolding unseen
unseen-le [] visiting = omega arith
unseen-le (p ∷ ps) visiting = ground (arith, unseen-le ps visiting)

unseen-cons_le :
    (ps : List RepoPkg) (name : Text) (visiting : List Text)
    → unseen ps (name ∷ visiting) ≤ unseen ps visiting
unfolding unseen mem
unseen-cons_le [] name visiting = omega arith
unseen-cons_le (p ∷ ps) name visiting = ground (arith, unseen-cons_le ps name visiting)

unseen-cons_lt :
    (ps : List RepoPkg) (name : Text) (visiting : List Text) (p : RepoPkg)
    → get ps name ≡ some p
    → mem name visiting ≡ false
    → unseen ps (name ∷ visiting) < unseen ps visiting
unfolding unseen mem get
unseen-cons_lt [] name visiting p e new = cc
unseen-cons_lt (q ∷ qs) name visiting p e new = elim (Bool-cases (name_eq q.name name)) [
  | inl here ↦
      let same = name_eq_sound q.name name here in
      rw (same, name_eq_refl name, new) (omega (arith, unseen-cons_le qs name visiting))
  | inr other ↦
      let rest : get (q ∷ qs) name ≡ get qs name = rw (other, get) in
      ground (arith, unseen-cons_lt qs name visiting p (sym rest ∙ e) new)
]

Ended : Resolved → Type 0
Ended r = r ≢ out_of_fuel

and_then-Ended :
    (r : Resolved) (f : List Text → Resolved)
    → Ended r
    → ((o : List Text) → Ended (f o))
    → Ended (and_then r f)
unfolding Ended
and_then-Ended (ok o) f h g = g o
and_then-Ended (cycle n) f h g = λ e. cc
and_then-Ended (not_found n) f h g = λ e. cc
and_then-Ended out_of_fuel f h g = h

visit_each-Ended :
    (f : Text → List Text → Resolved) (ds order : List Text)
    → ((d : Text) (o : List Text) → Ended (f d o))
    → Ended (visit_each f ds order)
unfolding Ended visit_each
visit_each-Ended f [] order h = λ e. cc
visit_each-Ended f (d ∷ ds) order h =
    and_then-Ended (f d order) (visit_each f ds) (h d order) (λ o. visit_each-Ended f ds o h)

module _ (pkgs : List RepoPkg) (is_installed : Text → Bool) where
  Step-Ended :
      (fuel : ℕ) (visiting : List Text) (name : Text) (order : List Text) (r : Resolved)
      → Step pkgs is_installed fuel visiting name order r
      → ((p : RepoPkg)
          → mem name visiting ≡ false
          → get pkgs name ≡ some p
          → (d : Text) (o : List Text) → Ended (visit pkgs is_installed fuel (name ∷ visiting) d o))
      → Ended r
  unfolding Ended
  Step-Ended fuel visiting name order r (resolved e) ih = λ e. cc
  Step-Ended fuel visiting name order r (present e) ih = λ e. cc
  Step-Ended fuel visiting name order r (looped e e') ih = λ e. cc
  Step-Ended fuel visiting name order r (absent e e') ih = λ e. cc
  Step-Ended fuel visiting name order r (down p fresh wanted new known) ih =
      and_then-Ended _ (λ o. ok (name ∷ o))
        (visit_each-Ended (visit pkgs is_installed fuel (name ∷ visiting)) p.deps order
          (ih p new known))
        (λ o e. cc)

  visit-Ended :
      (fuel : ℕ) (visiting : List Text) (name : Text) (order : List Text)
      → unseen pkgs visiting < fuel
      → Ended (visit pkgs is_installed fuel visiting name order)
  visit-Ended zero visiting name order h = absurd (omega arith)
  visit-Ended (suc fuel) visiting name order h =
      Step-Ended fuel visiting name order _ (visit-Step pkgs is_installed fuel visiting name order)
        (λ p new known d o.
          visit-Ended fuel (name ∷ visiting) d o
            (omega (arith, unseen-cons_lt pkgs name visiting p known new)))

  -- Whatever the index and the packages present, a resolution comes to an end: the length of the index
  -- bounds the depth of the recursion.
  pub resolve-ends : (name : Text) → resolve pkgs is_installed name ≢ out_of_fuel
  unfolding resolve Ended
  resolve-ends name = visit-Ended (suc (length pkgs)) [] name [] (omega (arith, unseen-le pkgs []))
