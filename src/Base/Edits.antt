-- ===== src/Base/Edits.antt =====
-- Lists with an item put in or taken out, and tests of all items.
use Prim.Native.Nat.{ℕ, zero, suc, ◌≤◌, ◌<◌}
use mathlib.Core.Path.{◌≡◌, refl, ap, sym, ◌∙◌}
use mathlib.Core.Logic.{inl, inr}
use mathlib.Core.Bool.{Bool, true, ◌&&◌}
use mathlib.Core.Option.{some}
use mathlib.Core.List.{List, [], ◌∷◌, ◌++◌}
use native.Mathlib.Omega.{arith}
use rusty_penguin.Base.Tests.{Bool-cases}
use rusty_penguin.Base.Lists.{length, get_elem?, set, take, drop}

module _ {ℓ} {A : Type ℓ} where
  -- Past the end: at the end, and nothing.
  abbrev pub insert_at : List A → ℕ → A → List A
  insert_at xs zero y = y ∷ xs
  insert_at [] (suc i) y = y ∷ []
  insert_at (x ∷ xs) (suc i) y = x ∷ insert_at xs i y

  abbrev pub erase_at : List A → ℕ → List A
  erase_at [] i = []
  erase_at (x ∷ xs) zero = xs
  erase_at (x ∷ xs) (suc i) = x ∷ erase_at xs i

  pub erase_at-insert_at :
      (xs : List A) (i : ℕ) (y : A) → i ≤ length xs → erase_at (insert_at xs i y) i ≡ xs
  erase_at-insert_at xs zero y h = refl
  erase_at-insert_at [] (suc i) y h = absurd (omega arith)
  erase_at-insert_at (x ∷ xs) (suc i) y h = ap (x ∷◌) (erase_at-insert_at xs i y (omega arith))

  pub length-insert_at : (xs : List A) (i : ℕ) (y : A) → length (insert_at xs i y) ≡ suc (length xs)
  length-insert_at [] zero y = refl
  length-insert_at [] (suc i) y = refl
  length-insert_at (x ∷ xs) zero y = refl
  length-insert_at (x ∷ xs) (suc i) y = ap suc (length-insert_at xs i y)

  pub length-erase_at :
      (xs : List A) (i : ℕ) → i < length xs → suc (length (erase_at xs i)) ≡ length xs
  length-erase_at [] i h = absurd (omega arith)
  length-erase_at (x ∷ xs) zero h = refl
  length-erase_at (x ∷ xs) (suc i) h = ap suc (length-erase_at xs i (omega arith))

  pub get_elem?-insert_at_self :
      (xs : List A) (i : ℕ) (y : A) → i ≤ length xs → get_elem? (insert_at xs i y) i ≡ some y
  get_elem?-insert_at_self xs zero y h = refl
  get_elem?-insert_at_self [] (suc i) y h = absurd (omega arith)
  get_elem?-insert_at_self (x ∷ xs) (suc i) y h = get_elem?-insert_at_self xs i y (omega arith)

  pub get_elem?-insert_at_lt :
      (xs : List A) (i j : ℕ) (y : A)
      → j < i
      → i ≤ length xs
      → get_elem? (insert_at xs i y) j ≡ get_elem? xs j
  get_elem?-insert_at_lt xs zero j y h h' = absurd (omega arith)
  get_elem?-insert_at_lt [] (suc i) j y h h' = absurd (omega arith)
  get_elem?-insert_at_lt (x ∷ xs) (suc i) zero y h h' = refl
  get_elem?-insert_at_lt (x ∷ xs) (suc i) (suc j) y h h' =
      get_elem?-insert_at_lt xs i j y (omega arith) (omega arith)

  pub get_elem?-erase_at_lt :
      (xs : List A) (i j : ℕ) → j < i → get_elem? (erase_at xs i) j ≡ get_elem? xs j
  get_elem?-erase_at_lt [] i j h = refl
  get_elem?-erase_at_lt (x ∷ xs) zero j h = absurd (omega arith)
  get_elem?-erase_at_lt (x ∷ xs) (suc i) zero h = refl
  get_elem?-erase_at_lt (x ∷ xs) (suc i) (suc j) h = get_elem?-erase_at_lt xs i j (omega arith)

  pub get_elem?-lt : (xs : List A) (i : ℕ) (x : A) → get_elem? xs i ≡ some x → i < length xs
  get_elem?-lt [] i x e = cc
  get_elem?-lt (y ∷ xs) zero x e = omega arith
  get_elem?-lt (y ∷ xs) (suc i) x e = omega (arith, get_elem?-lt xs i x e)

  pub lt-get_elem? : (xs : List A) (i : ℕ) → i < length xs → (x : A) × (get_elem? xs i ≡ some x)
  lt-get_elem? [] i h = absurd (omega arith)
  lt-get_elem? (x ∷ xs) zero h = (x, refl)
  lt-get_elem? (x ∷ xs) (suc i) h = lt-get_elem? xs i (omega arith)

  pub set-set : (xs : List A) (i : ℕ) (v w : A) → set (set xs i v) i w ≡ set xs i w
  set-set [] i v w = refl
  set-set (x ∷ xs) zero v w = refl
  set-set (x ∷ xs) (suc i) v w = ap (x ∷◌) (set-set xs i v w)

  pub set-get_elem? : (xs : List A) (i : ℕ) (v : A) → get_elem? xs i ≡ some v → set xs i v ≡ xs
  set-get_elem? [] i v e = refl
  set-get_elem? (x ∷ xs) zero v e = cc
  set-get_elem? (x ∷ xs) (suc i) v e = ap (x ∷◌) (set-get_elem? xs i v e)

module _ {ℓ} {A : Type ℓ} (test : A → Bool) where
  abbrev pub all : List A → Bool
  all [] = true
  all (x ∷ xs) = test x && all xs

  pub all-parts : (x : A) (xs : List A) → all (x ∷ xs) ≡ true → (test x ≡ true) × (all xs ≡ true)
  all-parts x xs h = elim (Bool-cases (test x)) [
    | inl holds ↦ (holds, sym (ap (λ b. b && all xs) holds) ∙ h)
    | inr fails ↦ cc (sym (ap (λ b. b && all xs) fails) ∙ h)
  ]

  pub all-get_elem? :
      (xs : List A) (i : ℕ) (x : A) → all xs ≡ true → get_elem? xs i ≡ some x → test x ≡ true
  all-get_elem? [] i x h e = cc
  all-get_elem? (y ∷ xs) zero x h e =
      let same : y ≡ x = cc in sym (ap test same) ∙ (all-parts y xs h).0
  all-get_elem? (y ∷ xs) (suc i) x h e = all-get_elem? xs i x (all-parts y xs h).1 e

  pub all-append : (xs ys : List A) → all xs ≡ true → all ys ≡ true → all (xs ++ ys) ≡ true
  all-append [] ys h k = k
  all-append (x ∷ xs) ys h k = let p = all-parts x xs h in rw p.0 (all-append xs ys p.1 k)

  pub all-take : (n : ℕ) (xs : List A) → all xs ≡ true → all (take n xs) ≡ true
  all-take zero xs h = refl
  all-take (suc n) [] h = refl
  all-take (suc n) (x ∷ xs) h = let p = all-parts x xs h in rw p.0 (all-take n xs p.1)

  pub all-drop : (n : ℕ) (xs : List A) → all xs ≡ true → all (drop n xs) ≡ true
  all-drop zero xs h = h
  all-drop (suc n) [] h = refl
  all-drop (suc n) (x ∷ xs) h = all-drop n xs (all-parts x xs h).1

  pub all-set :
      (xs : List A) (i : ℕ) (v : A) → all xs ≡ true → test v ≡ true → all (set xs i v) ≡ true
  all-set [] i v h k = refl
  all-set (x ∷ xs) zero v h k = rw k (all-parts x xs h).1
  all-set (x ∷ xs) (suc i) v h k = let p = all-parts x xs h in rw p.0 (all-set xs i v p.1 k)

  pub all-insert_at :
      (xs : List A) (i : ℕ) (v : A) → all xs ≡ true → test v ≡ true → all (insert_at xs i v) ≡ true
  all-insert_at xs zero v h k = rw k h
  all-insert_at [] (suc i) v h k = rw k refl
  all-insert_at (x ∷ xs) (suc i) v h k =
      let p = all-parts x xs h in rw p.0 (all-insert_at xs i v p.1 k)

  pub all-erase_at : (xs : List A) (i : ℕ) → all xs ≡ true → all (erase_at xs i) ≡ true
  all-erase_at [] i h = refl
  all-erase_at (x ∷ xs) zero h = (all-parts x xs h).1
  all-erase_at (x ∷ xs) (suc i) h = let p = all-parts x xs h in rw p.0 (all-erase_at xs i p.1)

module _ {ℓ} {A : Type ℓ} where
  pub append_nil : (xs : List A) → xs ++ [] ≡ xs
  append_nil [] = refl
  append_nil (x ∷ xs) = ap (x ∷◌) (append_nil xs)

  pub append_one : (ws : List A) (c : A) (cs : List A) → (ws ++ c ∷ []) ++ cs ≡ ws ++ c ∷ cs
  append_one [] c cs = refl
  append_one (w ∷ ws) c cs = ap (w ∷◌) (append_one ws c cs)
