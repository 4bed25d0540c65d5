-- ===== src/Ternary/Tests.antt =====
-- Runs of the ternary operations, and the theorems at concrete inputs.
use rusty_penguin.Base.{◌≡◌, refl, [], ◌∷◌, ◌⊎◌, some, arith, length}
use rusty_penguin.Base.Int
use rusty_penguin.Base.Int.{
  ℤ, nat_abs, ◌+ℤ◌, ◌-ℤ◌, ◌*ℤ◌, -ℤ◌, rem_euclid, quot, rem, wrap_i8, wrap_i32, wrap_i64,
}
use rusty_penguin.Ternary.Trit.{Trit, to_i8, from_i8}
use rusty_penguin.Ternary.Tryte.{
  Tryte, tryte, tryte_zero, low_digit, higher, trits_of, from_i32, sum_trits, to_i32, negate, add,
}
use rusty_penguin.Ternary.Tryte.Convert.{to_i32-from_i32, from_i32-to_i32}
use rusty_penguin.Ternary.Tryte.Adder.{to_i32-add, to_i32-negate}
use rusty_penguin.Ternary.Arith.{mul_tryte, div_tryte, abs_tryte, scale}
use rusty_penguin.Ternary.Arith.Product.{to_i32-mul_tryte}
use rusty_penguin.Ternary.Arith.Quotient.{Divides, div_tryte_lem, to_i32-scale, to_i32-abs_tryte}

-- 42 = 27 + 9 + 6, and -100.
abbrev forty_two : Tryte
forty_two = tryte (
    Trit.zero ∷ Trit.neg ∷ Trit.neg ∷ Trit.neg ∷ Trit.pos ∷ Trit.zero ∷ Trit.zero ∷ Trit.zero
    ∷ Trit.zero ∷ [])

abbrev minus_hundred : Tryte
minus_hundred = tryte (
    Trit.neg ∷ Trit.zero ∷ Trit.pos ∷ Trit.neg ∷ Trit.neg ∷ Trit.zero ∷ Trit.zero ∷ Trit.zero
    ∷ Trit.zero ∷ [])

from_i32_runs : from_i32 (Int.pos 42) ≡ some forty_two
unfolding from_i32 trits_of low_digit higher from_i8 wrap_i8 wrap_i32 rem_euclid quot ◌+ℤ◌ ◌-ℤ◌
from_i32_runs = refl

to_i32_runs : to_i32 minus_hundred ≡ Int.negsuc 99
unfolding to_i32 sum_trits to_i8 wrap_i32 rem_euclid ◌+ℤ◌ ◌*ℤ◌
to_i32_runs = refl

to_i32-from_i32_example :
    (t : Tryte) × (from_i32 (Int.pos 42) ≡ some t) × (length t.trits ≡ 9) × (to_i32 t ≡ Int.pos 42)
to_i32-from_i32_example = to_i32-from_i32 (Int.pos 42) (omega arith)

from_i32-to_i32_example : from_i32 (to_i32 minus_hundred) ≡ some minus_hundred
from_i32-to_i32_example = from_i32-to_i32 minus_hundred refl

to_i32-add_example :
    (s : Tryte) × (carry : Trit) × (add forty_two minus_hundred ≡ some s)
    × (length s.trits ≡ 9)
    × (to_i32 s +ℤ Int.pos 19683 *ℤ to_i8 carry ≡ to_i32 forty_two +ℤ to_i32 minus_hundred)
to_i32-add_example = to_i32-add forty_two minus_hundred refl refl

to_i32-negate_example :
    (length (negate forty_two).trits ≡ 9) × (to_i32 (negate forty_two) ≡ -ℤ◌ (to_i32 forty_two))
to_i32-negate_example = to_i32-negate forty_two refl

to_i32-mul_tryte_example :
    (lo hi : Tryte) × (mul_tryte forty_two minus_hundred ≡ some (lo, hi))
    × (to_i32 lo +ℤ Int.pos 19683 *ℤ to_i32 hi ≡ to_i32 forty_two *ℤ to_i32 minus_hundred)
to_i32-mul_tryte_example = to_i32-mul_tryte forty_two minus_hundred refl refl

div_tryte_lem_example :
    ((to_i32 forty_two ≡ Int.pos 0)
      × (div_tryte minus_hundred forty_two ≡ some (tryte_zero, minus_hundred)))
    ⊎ ((q r : Tryte) × (div_tryte minus_hundred forty_two ≡ some (q, r))
        × Divides (to_i32 minus_hundred) (to_i32 forty_two) (to_i32 q) (to_i32 r))
div_tryte_lem_example = div_tryte_lem minus_hundred forty_two refl

to_i32-scale_example : to_i32 (scale forty_two Trit.neg) ≡ to_i8 Trit.neg *ℤ to_i32 forty_two
to_i32-scale_example = to_i32-scale forty_two Trit.neg refl

to_i32-abs_tryte_example :
    to_i32 (abs_tryte minus_hundred) ≡ Int.pos (nat_abs (to_i32 minus_hundred))
to_i32-abs_tryte_example = to_i32-abs_tryte minus_hundred refl
