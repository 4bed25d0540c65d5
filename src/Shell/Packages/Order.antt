-- ===== src/Shell/Packages/Order.antt =====
-- What an order of installation holds.
use rusty_penguin.Base.{
  or_true, ℕ, zero, suc, ◌≡◌, ◌≢◌, refl, ap, sym, ◌∙◌, List, [], ◌∷◌, Bool, true, false, ◌&&◌, ◌||◌,
  some, length, Bool-cases, inl, inr,
}
use rusty_penguin.Base.Texts.{name_eq, name_eq_sound}
use rusty_penguin.Shell.Packages.{
  Text, RepoPkg, get, mem, Resolved, ok, cycle, not_found, out_of_fuel, and_then, visit_each, visit,
  resolve,
}
use rusty_penguin.Shell.Packages.Steps.{
  Step, resolved, present, looped, absent, down, visit-Step, mem_head,
}

-- A chain that is fine was fine at its first step.
pub and_then-ok :
    (r : Resolved) (f : List Text → Resolved) (o : List Text)
    → and_then r f ≡ ok o
    → (before : List Text) × (r ≡ ok before) × (f before ≡ ok o)
and_then-ok (ok before) f o e = (before, refl, e)
and_then-ok (cycle n) f o e = cc
and_then-ok (not_found n) f o e = cc
and_then-ok out_of_fuel f o e = cc

ok_injective : (a b : List Text) → ok a ≡ ok b → a ≡ b
ok_injective a b e = cc

true_ne_false : true ≢ false
true_ne_false e = cc

stuck : (o : List Text) → out_of_fuel ≢ ok o
stuck o e = cc

mem-later : (v n : Text) (o : List Text) → mem v o ≡ true → mem v (n ∷ o) ≡ true
unfolding mem
mem-later v n o h = elim (Bool-cases (name_eq n v)) [
  | inl same ↦ rw same refl
  | inr other ↦ rw (other, h) refl
]

module _ (pkgs : List RepoPkg) (is_installed : Text → Bool) where
  -- Every dependency is installed or stands in the order.
  unfoldable pub served : List Text → List Text → Bool
  served [] order = true
  served (d ∷ ds) order = (is_installed d || mem d order) && served ds order

  -- An order, newest first: each name is new, not installed, a package of the index, and comes after
  -- all that it depends on.
  pub data Good : List Text → Type 0 where
    start : Good []
    next :
        (name : Text) (before : List Text) (p : RepoPkg)
        → Good before
        → mem name before ≡ false
        → is_installed name ≡ false
        → get pkgs name ≡ some p
        → served p.deps before ≡ true
        → Good (name ∷ before)

  -- The order `o` goes on from `order` and names nothing of `visiting` anew.
  pub record After (visiting order o : List Text) : Type 0 where
    pub good : Good o
    pub grows : (v : Text) → mem v order ≡ true → mem v o ≡ true
    pub avoids : (v : Text) → mem v visiting ≡ true → mem v order ≡ false → mem v o ≡ false

  After-refl : (visiting order : List Text) → Good order → After visiting order order
  After-refl visiting order g = record { good = g; grows = λ v h. h; avoids = λ v h new. new }

  After-trans :
      (visiting a b c : List Text) → After visiting a b → After visiting b c → After visiting a c
  After-trans visiting a b c f g = record {
    good = g.good;
    grows = λ v h. g.grows v (f.grows v h);
    avoids = λ v h new. g.avoids v h (f.avoids v h new);
  }

  settled : Text → List Text → Bool
  settled d o = is_installed d || mem d o

  settled-grows :
      (d : Text) (a b : List Text)
      → ((v : Text) → mem v a ≡ true → mem v b ≡ true)
      → settled d a ≡ true
      → settled d b ≡ true
  unfolding settled
  settled-grows d a b grows h = elim (Bool-cases (is_installed d)) [
    | inl there ↦ rw there refl
    | inr wanted ↦ rw wanted (grows d (sym (ap (λ t. t || mem d a) wanted) ∙ h))
  ]

  -- A name goes into the order once its dependencies are there.
  pushed :
      (visiting : List Text) (name : Text) (order mid : List Text) (p : RepoPkg)
      → After (name ∷ visiting) order mid
      → mem name mid ≡ false
      → is_installed name ≡ false
      → mem name visiting ≡ false
      → get pkgs name ≡ some p
      → served p.deps mid ≡ true
      → After visiting order (name ∷ mid)
  unfolding mem
  pushed visiting name order mid p after unseen wanted new known all = record {
    good = next name mid p after.good unseen wanted known all;
    grows = λ v h. mem-later v name mid (after.grows v h);
    avoids = λ v h fresh. elim (Bool-cases (name_eq name v)) [
      | inl same ↦
          absurd (
            true_ne_false
              (sym h ∙ ap (λ w. mem w visiting) (sym (name_eq_sound name v same)) ∙ new))
      | inr other ↦ rw other (after.avoids v (mem-later v name visiting h) fresh)
    ];
  }

  visit-zero :
      (visiting : List Text) (name : Text) (order : List Text)
      → visit pkgs is_installed zero visiting name order ≡ out_of_fuel
  unfolding visit
  visit-zero visiting name order = refl

  visit_each-After :
      (f : Text → List Text → Resolved) (visiting ds order o : List Text)
      → ((d : Text) (a b : List Text)
          → f d a ≡ ok b
          → Good a
          → After visiting a b × (settled d b ≡ true))
      → visit_each f ds order ≡ ok o
      → Good order
      → After visiting order o × (served ds o ≡ true)
  unfolding visit_each served settled
  visit_each-After f visiting [] order o ih e g =
      let same = ok_injective order o e in (rw (sym same) (After-refl visiting order g), refl)
  visit_each-After f visiting (d ∷ ds) order o ih e g =
      let (mid, first, rest) = and_then-ok (f d order) (visit_each f ds) o e in
      let (one, there) = ih d order mid first g in
      let (more, all) = visit_each-After f visiting ds mid o ih rest one.good in
      (After-trans visiting order mid o one more, rw (settled-grows d mid o more.grows there) all)

  Step-After :
      (fuel : ℕ) (visiting : List Text) (name : Text) (order : List Text) (r : Resolved)
      → Step pkgs is_installed fuel visiting name order r
      → ((d : Text) (a b : List Text)
          → visit pkgs is_installed fuel (name ∷ visiting) d a ≡ ok b
          → Good a
          → After (name ∷ visiting) a b × (settled d b ≡ true))
      → (o : List Text) → r ≡ ok o
      → Good order
      → After visiting order o × (settled name o ≡ true)
  unfolding settled mem
  Step-After fuel visiting name order r (resolved e) ih o eq g =
      let same = ok_injective order o eq in
      (rw (sym same) (After-refl visiting order g), rw (sym same, e) (or_true (is_installed name)))
  Step-After fuel visiting name order r (present e) ih o eq g =
      let same = ok_injective order o eq in (rw (sym same) (After-refl visiting order g), rw e refl)
  Step-After fuel visiting name order r (looped e e') ih o eq g = cc
  Step-After fuel visiting name order r (absent e e') ih o eq g = cc
  Step-After fuel visiting name order r (down p fresh wanted new known) ih o eq g =
      let (mid, first, last) = and_then-ok _ (λ o. ok (name ∷ o)) o eq in
      let same = ok_injective (name ∷ mid) o last in
      let (after, all) =
        visit_each-After (visit pkgs is_installed fuel (name ∷ visiting)) (name ∷ visiting) p.deps
          order mid ih first g in
      let unseen = after.avoids name (mem_head name visiting) fresh in
      (
        rw (sym same) (pushed visiting name order mid p after unseen wanted new known all),
        rw (sym same, wanted) (mem_head name mid),
      )

  visit-After :
      (fuel : ℕ) (visiting : List Text) (name : Text) (order o : List Text)
      → visit pkgs is_installed fuel visiting name order ≡ ok o
      → Good order
      → After visiting order o × (settled name o ≡ true)
  visit-After zero visiting name order o e g =
      absurd (stuck o (sym (visit-zero visiting name order) ∙ e))
  visit-After (suc fuel) visiting name order o e g =
      Step-After fuel visiting name order _ (visit-Step pkgs is_installed fuel visiting name order)
        (visit-After fuel (name ∷ visiting)) o e g

  -- When a resolution returns an order, which stands here with the last package to install first: each
  -- name is a package of the index, is not installed, occurs once, and every dependency of it is
  -- installed or is to be installed before it; and the package that was asked for is installed or in
  -- the order.
  pub resolve-Good :
      (name : Text) (o : List Text)
      → resolve pkgs is_installed name ≡ ok o
      → Good o × ((is_installed name || mem name o) ≡ true)
  unfolding resolve settled
  resolve-Good name o e =
      let (after, there) = visit-After (suc (length pkgs)) [] name [] o e start in
      (after.good, there)
