-- ===== src/Ternary/Trit.antt =====
-- ternary-core/src/lib.rs: one balanced digit and its full adder.
use rusty_penguin.Base.{ℕ, suc, Option, none, some}
use rusty_penguin.Base.Int
use rusty_penguin.Base.Int.{ℤ, negsuc, ◌+ℤ◌}

-- `Trit::{Neg, Zero, Pos}`
pub data Trit : Type 0 where
  neg zero pos : Trit

unfoldable pub to_i8 : Trit → ℤ
to_i8 neg = negsuc 0
to_i8 zero = Int.pos 0
to_i8 pos = Int.pos 1

unfoldable pub from_i8 : ℤ → Option Trit
from_i8 (negsuc ℕ.zero) = some neg
from_i8 (negsuc (suc n)) = none
from_i8 (ℤ.pos ℕ.zero) = some zero
from_i8 (ℤ.pos (suc ℕ.zero)) = some pos
from_i8 (ℤ.pos (suc (suc n))) = none

-- The `match sum_val` of `full_add`; `none` is its `unreachable!` arm.
unfoldable pub split_sum : ℤ → Option (Trit × Trit)
split_sum (negsuc (suc (suc ℕ.zero))) = some (zero, neg)
split_sum (negsuc (suc ℕ.zero)) = some (pos, neg)
split_sum (negsuc ℕ.zero) = some (neg, zero)
split_sum (ℤ.pos ℕ.zero) = some (zero, zero)
split_sum (ℤ.pos (suc ℕ.zero)) = some (pos, zero)
split_sum (ℤ.pos (suc (suc ℕ.zero))) = some (neg, pos)
split_sum (ℤ.pos (suc (suc (suc ℕ.zero)))) = some (zero, pos)
split_sum _ = none

-- (sum, carry)
unfoldable pub full_add : Trit → Trit → Trit → Option (Trit × Trit)
unfolding split_sum to_i8 ◌+ℤ◌
full_add a b carry_in = split_sum (to_i8 a +ℤ to_i8 b +ℤ to_i8 carry_in)

unfoldable pub flip : Trit → Trit
flip neg = pos
flip zero = zero
flip pos = neg
