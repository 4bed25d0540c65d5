-- ===== src/Runtime.antt =====
-- ai-runtime/src/lib.rs: ternary tensors, the dot product that skips zeros, and the linear layer;
-- hardware-abstraction/src/lib.rs: the software ALU.
pub mod Dot
pub mod Layer
pub mod Alu
mod Tests
use rusty_penguin.Base.{
  ℕ, zero, suc, ◌+◌, ◌*◌, ◌<◌, List, [], ◌∷◌, ◌++◌, Option, none, some, ◌>>=◌, ◌>>◌, guard, Bool,
  if◌then◌else◌, ◌==◌, leb, length, take, drop, replicate, get_elem?,
}
use rusty_penguin.Base.Int
use rusty_penguin.Base.Int.{ℤ, ◌+ℤ◌, ◌-ℤ◌, wrap_i32, ltb_ℤ}
use rusty_penguin.Ternary.Trit.{Trit}
use rusty_penguin.Ternary.Tryte.{Tryte, tryte_zero, add, negate}

-- The accumulator of the loop of `sparse_dot`: (sum, skipped).
abbrev pub Tally : Type 0
Tally = ℤ × ℕ

-- One round, by the `match (a[i], b[i])`.
unfoldable pub tally_pair : Tally → Trit → Trit → Tally
tally_pair (sum, skipped) Trit.zero b = (sum, skipped + 1)
tally_pair (sum, skipped) Trit.pos Trit.zero = (sum, skipped + 1)
tally_pair (sum, skipped) Trit.neg Trit.zero = (sum, skipped + 1)
tally_pair (sum, skipped) Trit.pos Trit.pos = (wrap_i32 (sum +ℤ Int.pos 1), skipped)
tally_pair (sum, skipped) Trit.neg Trit.neg = (wrap_i32 (sum +ℤ Int.pos 1), skipped)
tally_pair (sum, skipped) Trit.pos Trit.neg = (wrap_i32 (sum -ℤ Int.pos 1), skipped)
tally_pair (sum, skipped) Trit.neg Trit.pos = (wrap_i32 (sum -ℤ Int.pos 1), skipped)

-- The rounds for the indices that both rows have.
unfoldable pub tally_rows : Tally → List Trit → List Trit → Tally
tally_rows t [] bs = t
tally_rows t (a ∷ rest) [] = t
tally_rows t (a ∷ rest) (b ∷ bs) = tally_rows (tally_pair t a b) rest bs

-- (sum, total, skipped); `none` is the failed `assert_eq!` on the lengths.
unfoldable pub sparse_dot : List Trit → List Trit → Option (ℤ × ℕ × ℕ)
sparse_dot a b = do
  guard (length a == length b)
  let (sum, skipped) = tally_rows (Int.pos 0, 0) a b
  some (sum, length a, skipped)

pub record TernaryTensor : Type 0 where
  pub entries : List Trit
  pub shape : List ℕ

abbrev pub product : List ℕ → ℕ
product [] = 1
product (n ∷ ns) = n * product ns

-- `TernaryTensor::new`, with its assertion.
unfoldable pub tensor : List Trit → List ℕ → Option TernaryTensor
tensor ts ns = if length ts == product ns then some (record { entries = ts; shape = ns }) else none

unfoldable pub zeros : List ℕ → TernaryTensor
zeros ns = record { entries = replicate (product ns) Trit.zero; shape = ns }

-- The step function applied to a row's sum.
unfoldable pub activation : ℤ → Trit
activation sum =
    if ltb_ℤ (Int.pos 0) sum
    then Trit.pos
    else if ltb_ℤ sum (Int.pos 0)
    then Trit.neg
    else Trit.zero

-- `&data[start..start + n]`; `none` is the panic of a range past the end.
unfoldable pub slice : List Trit → ℕ → ℕ → Option (List Trit)
slice ts start n = if leb (start + n) (length ts) then some (take n (drop start ts)) else none

-- The rows from `row` on, `left` of them: output, operations and skips so far.
unfoldable pub forward_rows :
    ℕ → ℕ → List Trit → List Trit → ℕ → List Trit × ℕ × ℕ → Option (List Trit × ℕ × ℕ)
forward_rows zero row weights input n acc = some acc
forward_rows (suc left) row weights input n (out, ops, skips) = do
  weight_row ← slice weights (row * n) n
  (sum, total, skipped) ← sparse_dot input weight_row
  forward_rows left (row + 1) weights input n
      (out ++ activation sum ∷ [], ops + total, skips + skipped)

-- `TernaryLinear::forward`, for the layer's weights.
unfoldable pub forward : TernaryTensor → TernaryTensor → Option (TernaryTensor × ℕ × ℕ)
forward weights input = do
  guard (length input.shape == 1)
  in_features ← get_elem? weights.shape 1
  out_features ← get_elem? weights.shape 0
  guard (length input.entries == in_features)
  (out, ops, skips) ←
      forward_rows out_features 0 weights.entries input.entries in_features ([], 0, 0)
  result ← tensor out (out_features ∷ [])
  some (result, ops, skips)

-- `SoftwareALU`; `none` is a panic of the adder.
unfoldable pub alu_add : Tryte → Tryte → Option Tryte
alu_add a b = add a b

unfoldable pub alu_sub : Tryte → Tryte → Option Tryte
alu_sub a b = add a (negate b)

unfoldable pub alu_transform : Tryte → Trit → Tryte
alu_transform a Trit.pos = a
alu_transform a Trit.zero = tryte_zero
alu_transform a Trit.neg = negate a
