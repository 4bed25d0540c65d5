-- ===== src/Ternary/Arith/Quotient.antt =====
-- Division, absolute value and scaling of trytes, on the integers denoted.
use rusty_penguin.Base.{
  ℕ, zero, suc, ◌≤◌, ◌<◌, ◌≡◌, refl, ◌∙◌, ◌⊎◌, inl, inr, some, arith, length, true, false,
  Bool-cases,
}
use rusty_penguin.Base.Int
use rusty_penguin.Base.Int.{
  ℤ, pos_part, neg_part, nat_abs, Within, ◌+ℤ◌, ◌*ℤ◌, quot, rem, -ℤ◌, int_laws, neg_parts, ltb_ℤ,
  wrap_i32, rem_euclid,
}
use rusty_penguin.Base.Division.{quot-rem, quot-Within, rem-lt, rem-le, parts_of_Within}
use rusty_penguin.Ternary.Trit.{Trit, to_i8}
use rusty_penguin.Ternary.Tryte.{Tryte, tryte_zero, to_i32, sum_trits}
use rusty_penguin.Ternary.Tryte.Convert.{to_i32-from_i32, to_i32-Within}
use rusty_penguin.Ternary.Tryte.Adder.{to_i32-negate}
use rusty_penguin.Ternary.Arith.{tryte_pair, div_by, div_tryte, abs_tryte, scale}

-- What division gives, for the integers of dividend, divisor, quotient and remainder.
pub record Divides (a b q r : ℤ) : Type 0 where
  pub recompose : q *ℤ b +ℤ r ≡ a
  pub smaller : nat_abs r < nat_abs b
  pub same_side : (pos_part r ≤ pos_part a) × (neg_part r ≤ neg_part a)

rem_within :
    (n : ℕ) (a r : ℤ) → Within n a → pos_part r ≤ pos_part a → neg_part r ≤ neg_part a → Within n r
rem_within n a r h p q = omega (arith, parts_of_Within n a h)

tryte_pair_lem :
    (a b : ℤ)
    → Within 9841 a
    → 0 < nat_abs b
    → (q r : Tryte) × (tryte_pair (quot a b) (rem a b) ≡ some (q, r))
      × Divides a b (to_i32 q) (to_i32 r)
unfolding tryte_pair
tryte_pair_lem a b h nz =
    let (side_pos, side_neg) = rem-le a b in
    let (q, run_q, _, val_q) = to_i32-from_i32 (quot a b) (quot-Within 9841 a b h) in
    let (r, run_r, _, val_r) =
      to_i32-from_i32 (rem a b) (rem_within 9841 a (rem a b) h side_pos side_neg) in
    (
      q,
      r,
      rw (run_q, run_r),
      record {
        recompose = rw (val_q, val_r) (quot-rem a b);
        smaller = rw val_r (rem-lt a b nz);
        same_side = rw val_r (side_pos, side_neg);
      },
    )

div_by_lem :
    (a : Tryte) (b : ℤ)
    → length a.trits ≡ 9
    → ((b ≡ Int.pos 0) × (div_by a b ≡ some (tryte_zero, a)))
      ⊎ ((q r : Tryte) × (div_by a b ≡ some (q, r)) × Divides (to_i32 a) b (to_i32 q) (to_i32 r))
unfolding div_by
div_by_lem a (ℤ.pos zero) h = inl (refl, refl)
div_by_lem a (ℤ.pos (suc n)) h =
    inr (tryte_pair_lem (to_i32 a) (Int.pos (suc n)) (to_i32-Within a h) (omega arith))
div_by_lem a (ℤ.negsuc n) h =
    inr (tryte_pair_lem (to_i32 a) (Int.negsuc n) (to_i32-Within a h) (omega arith))

-- Division never panics. By a tryte of value 0 it returns zero and the dividend; by any other it
-- returns the quotient rounded towards zero and a remainder that recompose the dividend, the
-- remainder smaller than the divisor and on the dividend's side of 0.
pub div_tryte_lem :
    (a b : Tryte)
    → length a.trits ≡ 9
    → ((to_i32 b ≡ Int.pos 0) × (div_tryte a b ≡ some (tryte_zero, a)))
      ⊎ ((q r : Tryte) × (div_tryte a b ≡ some (q, r))
          × Divides (to_i32 a) (to_i32 b) (to_i32 q) (to_i32 r))
unfolding div_tryte
div_tryte_lem a b h = div_by_lem a (to_i32 b) h

pub to_i32-tryte_zero : to_i32 tryte_zero ≡ Int.pos 0
unfolding to_i32 sum_trits to_i8 ◌+ℤ◌ ◌*ℤ◌ wrap_i32 rem_euclid
to_i32-tryte_zero = refl

module _ (x : ℤ) where
  minus-one : -ℤ◌ x ≡ Int.negsuc 0 *ℤ x
  unfolding ◌*ℤ◌ -ℤ◌
  minus-one = ground arith

  zero-mul : Int.pos 0 ≡ Int.pos 0 *ℤ x
  unfolding ◌*ℤ◌
  zero-mul = ground arith

  one-mul : x ≡ Int.pos 1 *ℤ x
  unfolding ◌*ℤ◌
  one-mul = ground arith

  neg-of-negative : ltb_ℤ x (Int.pos 0) ≡ true → -ℤ◌ x ≡ Int.pos (nat_abs x)
  unfolding -ℤ◌
  neg-of-negative h = ground arith

  self-of-nonnegative : ltb_ℤ x (Int.pos 0) ≡ false → x ≡ Int.pos (nat_abs x)
  self-of-nonnegative h = ground arith

-- Scaling by a trit multiplies the integer of a tryte by the trit.
pub to_i32-scale :
    (a : Tryte) (s : Trit) → length a.trits ≡ 9 → to_i32 (scale a s) ≡ to_i8 s *ℤ to_i32 a
unfolding scale to_i8
to_i32-scale a Trit.neg h = (to_i32-negate a h).1 ∙ minus-one (to_i32 a)
to_i32-scale a Trit.zero h = to_i32-tryte_zero ∙ zero-mul (to_i32 a)
to_i32-scale a Trit.pos h = one-mul (to_i32 a)

-- The absolute value of a tryte denotes the absolute value of its integer.
pub to_i32-abs_tryte :
    (a : Tryte) → length a.trits ≡ 9 → to_i32 (abs_tryte a) ≡ Int.pos (nat_abs (to_i32 a))
unfolding abs_tryte
to_i32-abs_tryte a h = elim (Bool-cases (ltb_ℤ (to_i32 a) (Int.pos 0))) [
  | inl below ↦ rw below ((to_i32-negate a h).1 ∙ neg-of-negative (to_i32 a) below)
  | inr above ↦ rw above (self-of-nonnegative (to_i32 a) above)
]
