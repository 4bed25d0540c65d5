-- ===== src/Shell/Packages/Errors.antt =====
-- What the errors of a resolution mean.
use rusty_penguin.Base.{
  ℕ, zero, suc, ◌≡◌, ◌⊎◌, refl, ap, sym, ◌∙◌, subst, List, [], ◌∷◌, Bool, true, false, ◌||◌, none,
  some, length, Bool-cases, inl, inr,
}
use rusty_penguin.Base.Texts.{name_eq, name_eq_sound}
use rusty_penguin.Shell.Packages.{
  Text, RepoPkg, get, mem, Resolved, ok, cycle, not_found, out_of_fuel, and_then, visit_each, visit,
  resolve,
}
use rusty_penguin.Shell.Packages.Steps.{
  Step, resolved, present, looped, absent, down, visit-Step, mem_head,
}

mem-cons : (d e : Text) (ds : List Text) → mem d ds ≡ true → mem d (e ∷ ds) ≡ true
unfolding mem
mem-cons d e ds h = elim (Bool-cases (name_eq e d)) [
  | inl same ↦ rw same refl
  | inr other ↦ rw (other, h) refl
]

module _ (pkgs : List RepoPkg) (is_installed : Text → Bool) where
  -- Along one dependency or more, `a` requires `b`.
  pub data Requires (a : Text) : Text → Type 0 where
    directly : (b : Text) (p : RepoPkg) → get pkgs a ≡ some p → mem b p.deps ≡ true → Requires a b
    through :
        (c b : Text) (p : RepoPkg)
        → Requires a c
        → get pkgs c ≡ some p
        → mem b p.deps ≡ true
        → Requires a b

  -- What is on the way requires the name that is visited, and so does the first name, if it is another.
  record Reached (root : Text) (visiting : List Text) (name : Text) : Type 0 where
    on_the_way : (v : Text) → mem v visiting ≡ true → Requires v name
    from_root : (name ≡ root) ⊎ Requires root name

  Reached-dep :
      (root : Text) (visiting : List Text) (name d : Text) (p : RepoPkg)
      → get pkgs name ≡ some p
      → mem d p.deps ≡ true
      → Reached root visiting name
      → Reached root (name ∷ visiting) d
  unfolding mem
  Reached-dep root visiting name d p known dep h = record {
    on_the_way = λ v on. elim (Bool-cases (name_eq name v)) [
      | inl same ↦ subst (λ w. Requires w d) (name_eq_sound name v same) (directly d p known dep)
      | inr other ↦
          through name d p (h.on_the_way v (sym (ap (λ b. b || mem v visiting) other) ∙ on)) known
            dep
    ];
    from_root = elim h.from_root [
      | inl same ↦ inr (subst (λ w. Requires w d) same (directly d p known dep))
      | inr far ↦ inr (through name d p far known dep)
    ];
  }

  -- A name that is asked for and is nowhere.
  pub record Absent (root n : Text) : Type 0 where
    pub nowhere : get pkgs n ≡ none
    pub wanted : is_installed n ≡ false
    pub asked : (n ≡ root) ⊎ Requires root n

  -- What an outcome says of the name in it.
  Cause : Text → Resolved → Type 0
  Cause root (ok o) = Unit
  Cause root (cycle n) = Requires n n
  Cause root (not_found n) = Absent root n
  Cause root out_of_fuel = Unit

  and_then-Cause :
      (root : Text) (r : Resolved) (f : List Text → Resolved)
      → Cause root r
      → ((o : List Text) → Cause root (f o))
      → Cause root (and_then r f)
  unfolding Cause
  and_then-Cause root (ok o) f h g = g o
  and_then-Cause root (cycle n) f h g = h
  and_then-Cause root (not_found n) f h g = h
  and_then-Cause root out_of_fuel f h g = h

  visit_each-Cause :
      (root : Text) (f : Text → List Text → Resolved) (ds order : List Text)
      → ((d : Text) (o : List Text) → mem d ds ≡ true → Cause root (f d o))
      → Cause root (visit_each f ds order)
  unfolding Cause visit_each
  visit_each-Cause root f [] order h = tt
  visit_each-Cause root f (d ∷ ds) order h =
      and_then-Cause root (f d order) (visit_each f ds) (h d order (mem_head d ds))
        (λ o. visit_each-Cause root f ds o (λ d' o' inside. h d' o' (mem-cons d' d ds inside)))

  Step-Cause :
      (fuel : ℕ) (root : Text) (visiting : List Text) (name : Text) (order : List Text)
      (r : Resolved)
      → Step pkgs is_installed fuel visiting name order r
      → ((p : RepoPkg) (d : Text) (o : List Text)
          → get pkgs name ≡ some p
          → mem d p.deps ≡ true
          → Cause root (visit pkgs is_installed fuel (name ∷ visiting) d o))
      → Reached root visiting name
      → Cause root r
  unfolding Cause
  Step-Cause fuel root visiting name order r (resolved e) ih h = tt
  Step-Cause fuel root visiting name order r (present e) ih h = tt
  Step-Cause fuel root visiting name order r (looped e again) ih h = h.on_the_way name again
  Step-Cause fuel root visiting name order r (absent wanted nowhere) ih h = record {
    nowhere = nowhere;
    wanted = wanted;
    asked = h.from_root;
  }
  Step-Cause fuel root visiting name order r (down p fresh wanted new known) ih h =
      and_then-Cause root _ (λ o. ok (name ∷ o))
        (visit_each-Cause root (visit pkgs is_installed fuel (name ∷ visiting)) p.deps order
          (λ d o inside. ih p d o known inside))
        (λ o. tt)

  visit-Cause :
      (fuel : ℕ) (root : Text) (visiting : List Text) (name : Text) (order : List Text)
      → Reached root visiting name
      → Cause root (visit pkgs is_installed fuel visiting name order)
  unfolding visit Cause
  visit-Cause zero root visiting name order h = tt
  visit-Cause (suc fuel) root visiting name order h =
      Step-Cause fuel root visiting name order _
        (visit-Step pkgs is_installed fuel visiting name order)
        (λ p d o known inside.
          visit-Cause fuel root (name ∷ visiting) d o
            (Reached-dep root visiting name d p known inside h))
        h

  resolve-Cause : (name : Text) → Cause name (resolve pkgs is_installed name)
  unfolding resolve mem
  resolve-Cause name =
      visit-Cause (suc (length pkgs)) name [] name []
        (record { on_the_way = λ v on. cc; from_root = inl refl })

  -- When a resolution says that a name is in a cycle, the name does require itself along the
  -- dependencies of the index.
  pub resolve-cycle : (name n : Text) → resolve pkgs is_installed name ≡ cycle n → Requires n n
  unfolding Cause
  resolve-cycle name n e = subst (Cause name) e (resolve-Cause name)

  -- When a resolution says that a name is not found, the index has no package of that name, it is not
  -- installed, and it is the package that was asked for or that package requires it.
  pub resolve-not_found :
      (name n : Text) → resolve pkgs is_installed name ≡ not_found n → Absent name n
  unfolding Cause
  resolve-not_found name n e = subst (Cause name) e (resolve-Cause name)
