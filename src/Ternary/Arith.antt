-- ===== src/Ternary/Arith.antt =====
-- mathematics/src/lib.rs: products, quotients and gates on trits and trytes.
pub mod Product
pub mod Quotient
use rusty_penguin.Base.{ℕ, zero, suc, Option, none, some, ◌>>=◌, ◌≡◌, if◌then◌else◌}
use rusty_penguin.Base.Int
use rusty_penguin.Base.Int.{ℤ, ◌+ℤ◌, ◌-ℤ◌, ◌*ℤ◌, rem_euclid, quot, rem, wrap_i32, wrap_i64, ltb_ℤ}
use rusty_penguin.Ternary.Trit
use rusty_penguin.Ternary.Trit.{Trit}
use rusty_penguin.Ternary.Tryte.{Tryte, tryte_zero, from_i32, to_i32, negate}

-- The low word of a product: `((product % 19683) + 9841).rem_euclid(19683) - 9841`.
unfoldable pub low_word : ℤ → ℤ
low_word product =
    Int.pos (rem_euclid (rem product (Int.pos 19683) +ℤ Int.pos 9841) 19683) -ℤ Int.pos 9841

-- The high word: `(product - lo) / 19683`.
unfoldable pub high_word : ℤ → ℤ
high_word product = quot (product -ℤ low_word product) (Int.pos 19683)

-- (low word, high word); `none` is a panic of `from_i32`. The product is taken in `i64`.
unfoldable pub mul_tryte : Tryte → Tryte → Option (Tryte × Tryte)
mul_tryte a b =
    let product = wrap_i64 (to_i32 a *ℤ to_i32 b) in
    do
      lo ← from_i32 (wrap_i32 (low_word product))
      hi ← from_i32 (wrap_i32 (high_word product))
      some (lo, hi)

-- `from_i32` of both results of a division.
unfoldable pub tryte_pair : ℤ → ℤ → Option (Tryte × Tryte)
tryte_pair q r = do qt ← from_i32 q; rt ← from_i32 r; some (qt, rt)

unfoldable pub div_by : Tryte → ℤ → Option (Tryte × Tryte)
div_by a (ℤ.pos zero) = some (tryte_zero, a)
div_by a (ℤ.pos (suc n)) =
    tryte_pair (quot (to_i32 a) (Int.pos (suc n))) (rem (to_i32 a) (Int.pos (suc n)))
div_by a (ℤ.negsuc n) = tryte_pair (quot (to_i32 a) (Int.negsuc n)) (rem (to_i32 a) (Int.negsuc n))

-- (quotient, remainder)
unfoldable pub div_tryte : Tryte → Tryte → Option (Tryte × Tryte)
unfolding div_by
div_tryte a b = div_by a (to_i32 b)

unfoldable pub mod_tryte : Tryte → Tryte → Option Tryte
mod_tryte a b = do (q, r) ← div_tryte a b; some r

unfoldable pub abs_tryte : Tryte → Tryte
abs_tryte a = if ltb_ℤ (to_i32 a) (Int.pos 0) then negate a else a

unfoldable pub consensus : Trit → Trit → Trit
consensus Trit.pos Trit.pos = Trit.pos
consensus Trit.neg Trit.neg = Trit.neg
consensus _ _ = Trit.zero

unfoldable pub any : Trit → Trit → Trit
any Trit.zero x = x
any x Trit.zero = x
any _ _ = Trit.zero

unfoldable pub scale : Tryte → Trit → Tryte
scale a Trit.pos = a
scale a Trit.zero = tryte_zero
scale a Trit.neg = negate a
