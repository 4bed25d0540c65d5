-- ===== src/Runtime/Tests.antt =====
-- The runtime's theorems at concrete inputs.
use rusty_penguin.Base.{◌*◌, ◌≡◌, refl, List, [], ◌∷◌, some, arith, length}
use rusty_penguin.Base.Int
use rusty_penguin.Base.Int.{◌+ℤ◌, ◌-ℤ◌, ◌*ℤ◌}
use rusty_penguin.Ternary.Trit.{Trit, to_i8}
use rusty_penguin.Ternary.Tryte.{Tryte, tryte_zero, to_i32}
use rusty_penguin.Runtime.{sparse_dot, forward, alu_sub}
use rusty_penguin.Runtime.Dot.{dot, vanishing, sparse_dot_lem}
use rusty_penguin.Runtime.Layer.{activations, skipped, forward_lem}
use rusty_penguin.Runtime.Alu.{to_i32-alu_sub}

abbrev input_row : List Trit
input_row = Trit.pos ∷ Trit.zero ∷ Trit.neg ∷ []

abbrev weight_row : List Trit
weight_row = Trit.pos ∷ Trit.pos ∷ Trit.pos ∷ []

-- The source's own test case.
sparse_dot_lem_example :
    sparse_dot input_row weight_row
    ≡ some (dot input_row weight_row, 3, vanishing input_row weight_row)
sparse_dot_lem_example = sparse_dot_lem input_row weight_row refl (omega arith)

forward_lem_example :
    forward
      (record { entries = weight_row; shape = 1 ∷ 3 ∷ [] })
      (record { entries = input_row; shape = 3 ∷ [] })
    ≡ some (
      record { entries = activations weight_row input_row 3 1 0; shape = 1 ∷ [] },
      1 * 3,
      skipped weight_row input_row 3 1 0,
    )
forward_lem_example = forward_lem 1 3 weight_row input_row refl refl (omega arith)

to_i32-alu_sub_example :
    (s : Tryte) × (carry : Trit) × (alu_sub tryte_zero tryte_zero ≡ some s)
    × (length s.trits ≡ 9)
    × (to_i32 s +ℤ Int.pos 19683 *ℤ to_i8 carry ≡ to_i32 tryte_zero -ℤ to_i32 tryte_zero)
to_i32-alu_sub_example = to_i32-alu_sub tryte_zero tryte_zero refl refl
