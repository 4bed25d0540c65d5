-- ===== src/Base/Division.antt =====
-- Products, quotients and remainders of signed integers.
use native.Mathlib.Nat.{div-add-mod', mul-le-mul, div-le_self, mod-lt, mod-le}
use rusty_penguin.Base.{ℕ, suc, ◌+◌, ◌*◌, ◌/◌, ◌%◌, ◌≤◌, ◌<◌, ◌≡◌, arith, ap, sym, ◌∙◌}
use rusty_penguin.Base.Int.{
  ℤ, pos, negsuc, pos_part, neg_part, sub_ℕ, nat_abs, Within, ◌+ℤ◌, ◌*ℤ◌, quot, rem,
}

-- `sub_ℕ 0 n` is -n.
abbrev minus : ℕ → ℤ
minus n = sub_ℕ 0 n

module _ (m n : ℕ) where
  pos-pos : pos m *ℤ pos n ≡ pos (m * n)
  unfolding ◌*ℤ◌
  pos-pos = ground arith

  pos-minus : pos m *ℤ minus n ≡ minus (m * n)
  unfolding ◌*ℤ◌
  pos-minus = ground arith

  minus-pos : minus m *ℤ pos n ≡ minus (m * n)
  unfolding ◌*ℤ◌
  minus-pos = ground arith

  minus-minus : minus m *ℤ minus n ≡ pos (m * n)
  unfolding ◌*ℤ◌
  minus-minus = ground arith

  pos-add : pos m +ℤ pos n ≡ pos (m + n)
  unfolding ◌+ℤ◌
  pos-add = ground arith

  minus-add : minus m +ℤ minus n ≡ minus (m + n)
  unfolding ◌+ℤ◌
  minus-add = ground arith

minus-suc : (n : ℕ) → negsuc n ≡ minus (suc n)
minus-suc n = ground arith

-- `a / b` and `a % b` recompose the dividend.
pub quot-rem : (a b : ℤ) → quot a b *ℤ b +ℤ rem a b ≡ a
unfolding quot rem
quot-rem (pos a) (pos b) =
    ap (λ x. x +ℤ pos (a % b)) (pos-pos (a / b) b)
    ∙ pos-add (a / b * b) (a % b)
    ∙ ap pos (div-add-mod' a b)
quot-rem (pos a) (negsuc b) =
    ap (λ x. minus (a / suc b) *ℤ x +ℤ pos (a % suc b)) (minus-suc b)
    ∙ ap (λ x. x +ℤ pos (a % suc b)) (minus-minus (a / suc b) (suc b))
    ∙ pos-add (a / suc b * suc b) (a % suc b)
    ∙ ap pos (div-add-mod' a (suc b))
quot-rem (negsuc a) (pos b) =
    ap (λ x. x +ℤ minus (suc a % b)) (minus-pos (suc a / b) b)
    ∙ minus-add (suc a / b * b) (suc a % b)
    ∙ ap minus (div-add-mod' (suc a) b)
    ∙ sym (minus-suc a)
quot-rem (negsuc a) (negsuc b) =
    ap (λ x. pos (suc a / suc b) *ℤ x +ℤ minus (suc a % suc b)) (minus-suc b)
    ∙ ap (λ x. x +ℤ minus (suc a % suc b)) (pos-minus (suc a / suc b) (suc b))
    ∙ minus-add (suc a / suc b * suc b) (suc a % suc b)
    ∙ ap minus (div-add-mod' (suc a) (suc b))
    ∙ sym (minus-suc a)

minus-Within : (n k : ℕ) → k ≤ n → Within n (minus k)
minus-Within n k h = ground arith

le_of_minus-Within : (n k : ℕ) → Within n (minus k) → k ≤ n
le_of_minus-Within n k h = ground arith

pub *ℤ-Within : (m n : ℕ) (a b : ℤ) → Within m a → Within n b → Within (m * n) (a *ℤ b)
*ℤ-Within m n (pos a) (pos b) h k =
    rw (pos-pos a b)
      (omega (arith, mul-le-mul {n₁ = a} {m₁ = b} {n₂ = m} {m₂ = n} (omega arith) (omega arith)))
*ℤ-Within m n (pos a) (negsuc b) h k =
    rw (minus-suc b, pos-minus a (suc b))
      (minus-Within (m * n) (a * suc b)
        (mul-le-mul {n₁ = a} {m₁ = suc b} {n₂ = m} {m₂ = n} (omega arith) (omega arith)))
*ℤ-Within m n (negsuc a) (pos b) h k =
    rw (minus-suc a, minus-pos (suc a) b)
      (minus-Within (m * n) (suc a * b)
        (mul-le-mul {n₁ = suc a} {m₁ = b} {n₂ = m} {m₂ = n} (omega arith) (omega arith)))
*ℤ-Within m n (negsuc a) (negsuc b) h k =
    rw (minus-suc a, minus-suc b, minus-minus (suc a) (suc b))
      (omega
        (arith, mul-le-mul {n₁ = suc a} {m₁ = suc b} {n₂ = m} {m₂ = n} (omega arith) (omega arith)))

-- A quotient is no larger than its dividend, a remainder smaller than its divisor.
pub quot-Within : (n : ℕ) (a b : ℤ) → Within n a → Within n (quot a b)
unfolding quot
quot-Within n (pos a) (pos b) h = omega (arith, div-le_self a b)
quot-Within n (pos a) (negsuc b) h =
    minus-Within n (a / suc b) (omega (arith, div-le_self a (suc b)))
quot-Within n (negsuc a) (pos b) h =
    minus-Within n (suc a / b) (omega (arith, div-le_self (suc a) b))
quot-Within n (negsuc a) (negsuc b) h = omega (arith, div-le_self (suc a) (suc b))

nat_abs-minus : (n : ℕ) → nat_abs (minus n) ≡ n
nat_abs-minus n = ground arith

pub rem-lt : (a b : ℤ) → 0 < nat_abs b → nat_abs (rem a b) < nat_abs b
unfolding rem
rem-lt (pos a) b h = omega (arith, mod-lt a h)
rem-lt (negsuc a) b h = rw (nat_abs-minus (suc a % nat_abs b)) (mod-lt (suc a) h)

pub parts_of_Within : (n : ℕ) (a : ℤ) → Within n a → (pos_part a ≤ n) × (neg_part a ≤ n)
parts_of_Within n (pos a) h = omega arith
parts_of_Within n (negsuc a) h = omega arith

-- A remainder is no larger than the dividend, on the dividend's side of 0.
pub rem-le : (a b : ℤ) → (pos_part (rem a b) ≤ pos_part a) × (neg_part (rem a b) ≤ neg_part a)
unfolding rem
rem-le (pos a) b = (mod-le a (nat_abs b), omega arith)
rem-le (negsuc a) b = minus_parts-le (suc a % nat_abs b) (suc a) (mod-le (suc a) (nat_abs b))
  where
    minus_parts-le : (n m : ℕ) → n ≤ m → (pos_part (minus n) ≤ 0) × (neg_part (minus n) ≤ m)
    minus_parts-le n m h = ground arith
