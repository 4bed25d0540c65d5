-- ===== src/Base/Int.antt =====
-- Signed integers over the native numbers, under the library's names (its ℤ stands on the unary ℕ).
-- Sums and orders go through the two parts of an integer, which are numbers that `omega` reads.
use rusty_penguin.Base.{
  ℕ, suc, ◌+◌, ◌-◌, ◌*◌, ◌/◌, ◌%◌, ◌^◌, ◌≤◌, ◌≡◌, refl, ◌⊎◌, Bool, arith, ltb, leb, if◌then◌else◌,
}

-- `negsuc n` is -(n + 1).
pub data ℤ : Type 0 where
  pos : ℕ → ℤ
  negsuc : ℕ → ℤ

abbrev pub pos_part : ℤ → ℕ
pos_part (pos n) = n
pos_part (negsuc n) = 0

abbrev pub neg_part : ℤ → ℕ
neg_part (pos n) = 0
neg_part (negsuc n) = suc n

-- a - b, as an integer.
abbrev pub sub_ℕ : ℕ → ℕ → ℤ
sub_ℕ a b = if leb b a then pos (a - b) else negsuc (b - a - 1)

infixl 65 ◌+ℤ◌ ◌-ℤ◌
infixl 70 ◌*ℤ◌
infix 50 ◌≤ℤ◌
unfoldable pub ◌+ℤ◌ : ℤ → ℤ → ℤ
a +ℤ b = sub_ℕ (pos_part a + pos_part b) (neg_part a + neg_part b)

unfoldable pub ◌-ℤ◌ : ℤ → ℤ → ℤ
a -ℤ b = sub_ℕ (pos_part a + neg_part b) (neg_part a + pos_part b)

unfoldable pub ◌*ℤ◌ : ℤ → ℤ → ℤ
a *ℤ b =
    sub_ℕ (pos_part a * pos_part b + neg_part a * neg_part b)
      (pos_part a * neg_part b + neg_part a * pos_part b)

abbrev pub ◌≤ℤ◌ : ℤ → ℤ → Type 0
a ≤ℤ b = pos_part a + neg_part b ≤ pos_part b + neg_part a

abbrev pub ltb_ℤ : ℤ → ℤ → Bool
ltb_ℤ a b = ltb (pos_part a + neg_part b) (pos_part b + neg_part a)

-- One lemma for each operation lets `omega` work with the operations shut, at any depth.
pub +ℤ_parts :
    (a b : ℤ)
    → pos_part (a +ℤ b) + neg_part a + neg_part b ≡ neg_part (a +ℤ b) + pos_part a + pos_part b
unfolding ◌+ℤ◌
+ℤ_parts a b = ground arith

pub -ℤ_parts :
    (a b : ℤ)
    → pos_part (a -ℤ b) + neg_part a + pos_part b ≡ neg_part (a -ℤ b) + pos_part a + neg_part b
unfolding ◌-ℤ◌
-ℤ_parts a b = ground arith

pub eq_of_parts : (a b : ℤ) → pos_part a + neg_part b ≡ pos_part b + neg_part a → a ≡ b
eq_of_parts a b h = ground arith

pub triple_parts :
    (b : ℤ) → pos_part (pos 3 *ℤ b) + 3 * neg_part b ≡ neg_part (pos 3 *ℤ b) + 3 * pos_part b
unfolding ◌*ℤ◌
triple_parts b = ground arith

pub ruleset int_laws = (arith, +ℤ_parts, -ℤ_parts, triple_parts, eq_of_parts)

pub +ℤ_assoc : (a b c : ℤ) → a +ℤ b +ℤ c ≡ a +ℤ (b +ℤ c)
+ℤ_assoc a b c = omega int_laws

-- The size of an integer, and its negation.
abbrev pub nat_abs : ℤ → ℕ
nat_abs (pos n) = n
nat_abs (negsuc n) = suc n

unfoldable pub -ℤ◌ : ℤ → ℤ
-ℤ◌ a = sub_ℕ (neg_part a) (pos_part a)

pub neg_parts : (a : ℤ) → pos_part (-ℤ◌ a) + pos_part a ≡ neg_part (-ℤ◌ a) + neg_part a
unfolding -ℤ◌
neg_parts a = ground arith

-- `a.rem_euclid(m)`, for `0 < m`.
unfoldable pub rem_euclid : ℤ → ℕ → ℕ
rem_euclid (pos n) m = n % m
rem_euclid (negsuc n) m = m - 1 - n % m

-- `a / b` and `a % b` of Rust, rounded towards zero; `b` is not 0.
unfoldable pub quot : ℤ → ℤ → ℤ
quot (pos a) (pos b) = pos (a / b)
quot (pos a) (negsuc b) = sub_ℕ 0 (a / suc b)
quot (negsuc a) (pos b) = sub_ℕ 0 (suc a / b)
quot (negsuc a) (negsuc b) = pos (suc a / suc b)

unfoldable pub rem : ℤ → ℤ → ℤ
rem (pos a) b = pos (a % nat_abs b)
rem (negsuc a) b = sub_ℕ 0 (suc a % nat_abs b)

-- Reduction to a signed word of the range `-half ≤ x < half`.
abbrev wrap : ℕ → ℤ → ℤ
wrap half x = sub_ℕ (rem_euclid (x +ℤ pos half) (half + half)) half

unfoldable pub wrap_i8 : ℤ → ℤ
wrap_i8 x = wrap (2 ^ 7) x

unfoldable pub wrap_i32 : ℤ → ℤ
wrap_i32 x = wrap (2 ^ 31) x

unfoldable pub wrap_i64 : ℤ → ℤ
wrap_i64 x = wrap (2 ^ 63) x

-- A value within `-bound ≤ x ≤ bound`.
abbrev pub Within : ℕ → ℤ → Type 0
Within bound x = (pos_part x ≤ bound + neg_part x) × (neg_part x ≤ bound + pos_part x)

-- Values in range are left alone.
pub wrap_i8_of_within : (x : ℤ) → Within (2 ^ 7 - 1) x → wrap_i8 x ≡ x
unfolding wrap_i8 rem_euclid ◌+ℤ◌
wrap_i8_of_within x h = ground arith

pub wrap_i32_of_within : (x : ℤ) → Within (2 ^ 31 - 1) x → wrap_i32 x ≡ x
unfolding wrap_i32 rem_euclid ◌+ℤ◌
wrap_i32_of_within x h = ground arith

pub wrap_i64_of_within : (x : ℤ) → Within (2 ^ 63 - 1) x → wrap_i64 x ≡ x
unfolding wrap_i64 rem_euclid ◌+ℤ◌
wrap_i64_of_within x h = ground arith

-- Division with remainder by 3, and its inverse.
pub rem_euclid_three :
    (x : ℤ) → (q : ℤ) × (pos 3 *ℤ q +ℤ pos (rem_euclid x 3) ≡ x) × (suc (rem_euclid x 3) ≤ 3)
unfolding rem_euclid ◌*ℤ◌ ◌+ℤ◌
rem_euclid_three (pos n) = (pos (n / 3), ground arith, omega arith)
rem_euclid_three (negsuc n) = (negsuc (n / 3), ground arith, omega arith)

pub quot-triple : (q : ℤ) → quot (pos 3 *ℤ q) (pos 3) ≡ q
unfolding quot ◌*ℤ◌
quot-triple (pos n) = ground arith
quot-triple (negsuc n) = ground arith
