-- ===== src/Ternary/Tryte.antt =====
-- ternary-core/src/lib.rs: nine trits, least significant first, and their conversions.
pub mod Convert
pub mod Adder
use rusty_penguin.Base.{ℕ, zero, suc, List, [], ◌∷◌, map, replicate, Option, none, some, ◌>>=◌}
use rusty_penguin.Base.Int
use rusty_penguin.Base.Int.{ℤ, ◌+ℤ◌, ◌-ℤ◌, ◌*ℤ◌, rem_euclid, quot, wrap_i8, wrap_i32}
use rusty_penguin.Ternary.Trit
use rusty_penguin.Ternary.Trit.{Trit, to_i8, from_i8, full_add, flip}

-- `[Trit; 9]`
pub record Tryte : Type 0 where
  pub trits : List Trit

abbrev pub tryte : List Trit → Tryte
tryte ts = record { trits = ts }

abbrev pub tryte_zero : Tryte
tryte_zero = tryte (replicate 9 Trit.zero)

-- `((val + 1).rem_euclid(3)) - 1`
unfoldable pub low_digit : ℤ → ℤ
low_digit val = Int.pos (rem_euclid (wrap_i32 (val +ℤ Int.pos 1)) 3) -ℤ Int.pos 1

-- `(val - rem) / 3`
unfoldable pub higher : ℤ → ℤ
higher val = quot (wrap_i32 (val -ℤ low_digit val)) (Int.pos 3)

-- The loop of `from_i32`, for the trits left; `none` is a failed `unwrap`.
unfoldable pub trits_of : ℕ → ℤ → Option (List Trit)
trits_of zero val = some []
trits_of (suc n) val = do
  t ← from_i8 (wrap_i8 (low_digit val))
  ts ← trits_of n (higher val)
  some (t ∷ ts)

unfoldable pub from_i32 : ℤ → Option Tryte
from_i32 val = do ts ← trits_of 9 val; some (tryte ts)

-- The loop of `to_i32`.
unfoldable pub sum_trits : ℤ → ℤ → List Trit → ℤ
sum_trits val power [] = val
sum_trits val power (t ∷ ts) =
    sum_trits (wrap_i32 (val +ℤ wrap_i32 (to_i8 t *ℤ power))) (wrap_i32 (power *ℤ Int.pos 3)) ts

unfoldable pub to_i32 : Tryte → ℤ
to_i32 t = sum_trits (Int.pos 0) (Int.pos 1) t.trits

unfoldable pub negate : Tryte → Tryte
negate t = tryte (map flip t.trits)

-- The loop of `add`; `none` is a panic of `full_add`.
unfoldable pub add_trits : Trit → List Trit → List Trit → Option (List Trit)
add_trits carry [] bs = some []
add_trits carry (a ∷ as') [] = some []
add_trits carry (a ∷ as') (b ∷ bs) = do
  (s, c) ← full_add a b carry
  rest ← add_trits c as' bs
  some (s ∷ rest)

unfoldable pub add : Tryte → Tryte → Option Tryte
add a b = do ts ← add_trits Trit.zero a.trits b.trits; some (tryte ts)
