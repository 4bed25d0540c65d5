-- ===== src/Runtime/Dot.antt =====
-- The sparse dot product against the dense one.
use rusty_penguin.Base.{
  ℕ, suc, ◌+◌, ◌^◌, ◌-◌, ◌≤◌, ◌<◌, ◌≡◌, ap, ◌∙◌, List, [], ◌∷◌, some, arith, length, ==_iff,
}
use mathlib.Core.Path.{ap₂}
use rusty_penguin.Base.Int
use rusty_penguin.Base.Int.{
  ℤ, pos_part, neg_part, Within, ◌+ℤ◌, ◌-ℤ◌, ◌*ℤ◌, wrap_i32, wrap_i32_of_within, int_laws, +ℤ_assoc,
  +ℤ_parts, -ℤ_parts,
}
use rusty_penguin.Ternary.Trit.{Trit, to_i8}
use rusty_penguin.Runtime.{Tally, tally_pair, tally_rows, sparse_dot}

-- The dense product: the sum of all the products of integers.
pub dot : List Trit → List Trit → ℤ
dot [] bs = Int.pos 0
dot (a ∷ rest) [] = Int.pos 0
dot (a ∷ rest) (b ∷ bs) = to_i8 a *ℤ to_i8 b +ℤ dot rest bs

-- 1 where a product is 0.
pub vanishes : Trit → Trit → ℕ
vanishes Trit.zero b = 1
vanishes Trit.pos Trit.zero = 1
vanishes Trit.neg Trit.zero = 1
vanishes _ _ = 0

-- How many of the products are 0.
pub vanishing : List Trit → List Trit → ℕ
vanishing [] bs = 0
vanishing (a ∷ rest) [] = 0
vanishing (a ∷ rest) (b ∷ bs) = vanishes a b + vanishing rest bs

up_within :
    (s : ℤ) (n : ℕ) → Within n s → suc n ≤ 2 ^ 31 - 1 → wrap_i32 (s +ℤ Int.pos 1) ≡ s +ℤ Int.pos 1
up_within s n h k = wrap_i32_of_within (s +ℤ Int.pos 1) (omega (arith, +ℤ_parts s (Int.pos 1)))

down_within :
    (s : ℤ) (n : ℕ) → Within n s → suc n ≤ 2 ^ 31 - 1 → wrap_i32 (s -ℤ Int.pos 1) ≡ s -ℤ Int.pos 1
down_within s n h k = wrap_i32_of_within (s -ℤ Int.pos 1) (omega (arith, -ℤ_parts s (Int.pos 1)))

module _ (s : ℤ) where
  add_zero : s ≡ s +ℤ Int.pos 0
  add_zero = omega int_laws

  zero_add : Int.pos 0 +ℤ s ≡ s
  zero_add = omega int_laws

  sub_one : s -ℤ Int.pos 1 ≡ s +ℤ Int.negsuc 0
  sub_one = omega int_laws

module _ (s : ℤ) (k n : ℕ) (h : Within n s) (r : suc n ≤ 2 ^ 31 - 1) where
  skips : ◌≡◌ {A = Tally} (s, k + 1) (s +ℤ Int.pos 0, k + 1) × Within (suc n) (s +ℤ Int.pos 0)
  skips = (ap (λ x. (x, k + 1)) (add_zero s), omega (arith, +ℤ_parts s (Int.pos 0)))

  rises :
      ◌≡◌ {A = Tally} (wrap_i32 (s +ℤ Int.pos 1), k) (s +ℤ Int.pos 1, k + 0)
      × Within (suc n) (s +ℤ Int.pos 1)
  rises =
      (ap₂ (λ x y. (x, y)) (up_within s n h r) (omega arith), omega (arith, +ℤ_parts s (Int.pos 1)))

  falls :
      ◌≡◌ {A = Tally} (wrap_i32 (s -ℤ Int.pos 1), k) (s +ℤ Int.negsuc 0, k + 0)
      × Within (suc n) (s +ℤ Int.negsuc 0)
  falls = (
    ap₂ (λ x y. (x, y)) (down_within s n h r ∙ sub_one s) (omega arith),
    omega (arith, +ℤ_parts s (Int.negsuc 0)),
  )

-- One round adds the product, and counts it where it is 0.
tally_pair_lem :
    (s : ℤ) (k n : ℕ) (a b : Trit)
    → Within n s
    → suc n ≤ 2 ^ 31 - 1
    → (tally_pair (s, k) a b ≡ (s +ℤ to_i8 a *ℤ to_i8 b, k + vanishes a b))
      × Within (suc n) (s +ℤ to_i8 a *ℤ to_i8 b)
unfolding tally_pair vanishes to_i8 ◌*ℤ◌
tally_pair_lem s k n Trit.zero Trit.zero h r = skips s k n h r
tally_pair_lem s k n Trit.zero Trit.pos h r = skips s k n h r
tally_pair_lem s k n Trit.zero Trit.neg h r = skips s k n h r
tally_pair_lem s k n Trit.pos Trit.zero h r = skips s k n h r
tally_pair_lem s k n Trit.neg Trit.zero h r = skips s k n h r
tally_pair_lem s k n Trit.pos Trit.pos h r = rises s k n h r
tally_pair_lem s k n Trit.neg Trit.neg h r = rises s k n h r
tally_pair_lem s k n Trit.pos Trit.neg h r = falls s k n h r
tally_pair_lem s k n Trit.neg Trit.pos h r = falls s k n h r

tally_rows_lem :
    (s : ℤ) (k n : ℕ) (xs ys : List Trit)
    → Within n s
    → n + length xs ≤ 2 ^ 31 - 1
    → tally_rows (s, k) xs ys ≡ (s +ℤ dot xs ys, k + vanishing xs ys)
unfolding tally_rows dot vanishing
tally_rows_lem s k n [] ys h r = ap₂ (λ x y. (x, y)) (add_zero s) (omega arith)
tally_rows_lem s k n (x ∷ xs) [] h r = ap₂ (λ x y. (x, y)) (add_zero s) (omega arith)
tally_rows_lem s k n (x ∷ xs) (y ∷ ys) h r =
    let (e, w) = tally_pair_lem s k n x y h (omega arith) in
    ap (λ t. tally_rows t xs ys) e
    ∙ tally_rows_lem (s +ℤ to_i8 x *ℤ to_i8 y) (k + vanishes x y) (suc n) xs ys w (omega arith)
    ∙ ap₂ (λ p q. (p, q)) (+ℤ_assoc s (to_i8 x *ℤ to_i8 y) (dot xs ys)) (omega arith)

-- On rows of one length below 2 ^ 31 the product that skips zeros returns the dense product exactly,
-- the length, and the number of products that are 0.
pub sparse_dot_lem :
    (xs ys : List Trit)
    → length xs ≡ length ys
    → length xs < 2 ^ 31
    → sparse_dot xs ys ≡ some (dot xs ys, length xs, vanishing xs ys)
unfolding sparse_dot
sparse_dot_lem xs ys e h =
    rw
      (
        (==_iff (length xs) (length ys)).1 e,
        tally_rows_lem (Int.pos 0) 0 0 xs ys (omega arith) (omega arith),
      )
      (ap₂ (λ p q. some (p, length xs, q)) (zero_add (dot xs ys)) (omega arith))
