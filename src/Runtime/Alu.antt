-- ===== src/Runtime/Alu.antt =====
-- The software ALU on the integers denoted.
use rusty_penguin.Base.{◌≡◌, ap, ◌∙◌, some, length}
use rusty_penguin.Base.Int
use rusty_penguin.Base.Int.{ℤ, pos_part, neg_part, ◌+ℤ◌, ◌-ℤ◌, ◌*ℤ◌, -ℤ◌, neg_parts, int_laws}
use rusty_penguin.Ternary.Trit.{Trit, to_i8}
use rusty_penguin.Ternary.Tryte.{Tryte, to_i32}
use rusty_penguin.Ternary.Tryte.Adder.{to_i32-add, to_i32-negate}
use rusty_penguin.Runtime.{alu_sub}

add-neg : (x y : ℤ) → x +ℤ -ℤ◌ y ≡ x -ℤ y
add-neg x y = omega (int_laws, neg_parts)

-- Subtraction never panics; the integer of the result is the difference of the two integers less
-- 19683 times the dropped carry, a trit.
pub to_i32-alu_sub :
    (a b : Tryte)
    → length a.trits ≡ 9
    → length b.trits ≡ 9
    → (s : Tryte) × (carry : Trit) × (alu_sub a b ≡ some s)
      × (length s.trits ≡ 9)
      × (to_i32 s +ℤ Int.pos 19683 *ℤ to_i8 carry ≡ to_i32 a -ℤ to_i32 b)
unfolding alu_sub
to_i32-alu_sub a b ha hb =
    let (nine, negated) = to_i32-negate b hb in
    let (s, k, run, len, sum) = to_i32-add a _ ha nine in
    (s, k, run, len, sum ∙ ap (λ x. to_i32 a +ℤ x) negated ∙ add-neg (to_i32 a) (to_i32 b))
