-- ===== src/Runtime/Layer.antt =====
-- The linear layer: what `forward` returns on a layer whose shapes fit.
use rusty_penguin.Base.{
  ℕ, zero, suc, ◌+◌, ◌*◌, ◌^◌, ◌≤◌, ◌<◌, ◌≡◌, refl, ap, sym, ◌∙◌, List, [], ◌∷◌, ◌++◌, Option, some,
  arith, length, take, drop, length-take, length-drop, ==_iff,
}
use mathlib.Core.List.{append_assoc, append-nil}
use rusty_penguin.Ternary.Trit.{Trit}
use rusty_penguin.Runtime.{tensor, slice, activation, forward_rows, forward}
use rusty_penguin.Runtime.Dot.{dot, vanishing, sparse_dot_lem}

-- Row `row` of a matrix of rows of length `n`.
abbrev pub row_of : List Trit → ℕ → ℕ → List Trit
row_of weights n row = take n (drop (row * n) weights)

-- The activations of `left` rows from `row` on, and the number of zero products in them.
pub activations : List Trit → List Trit → ℕ → ℕ → ℕ → List Trit
activations weights input n zero row = []
activations weights input n (suc left) row =
    activation (dot input (row_of weights n row)) ∷ activations weights input n left (row + 1)

pub skipped : List Trit → List Trit → ℕ → ℕ → ℕ → ℕ
skipped weights input n zero row = 0
skipped weights input n (suc left) row =
    vanishing input (row_of weights n row) + skipped weights input n left (row + 1)

length-activations :
    (weights input : List Trit) (n left row : ℕ)
    → length (activations weights input n left row) ≡ left
unfolding activations
length-activations weights input n zero row = refl
length-activations weights input n (suc left) row =
    ap suc (length-activations weights input n left (row + 1))

slice_lem :
    (weights : List Trit) (row n : ℕ)
    → row * n + n ≤ length weights
    → (slice weights (row * n) n ≡ some (row_of weights n row))
      × (length (row_of weights n row) ≡ n)
unfolding slice
slice_lem weights row n h = (
  ground arith,
  omega (arith, length-take n (drop (row * n) weights), length-drop (row * n) weights),
)

same_result :
    {A : Type 0} {x y : A} {k l p q : ℕ}
    → x ≡ y
    → k ≡ l
    → p ≡ q
    → ◌≡◌ {A = Option (A × ℕ × ℕ)} (some (x, k, p)) (some (y, l, q))
same_result e f g = λ i. some (e i, f i, g i)

forward_rows_lem :
    (left row n : ℕ) (weights input out : List Trit) (ops skips : ℕ)
    → length input ≡ n
    → n < 2 ^ 31
    → (row + left) * n ≤ length weights
    → forward_rows left row weights input n (out, ops, skips)
      ≡ some (
        out ++ activations weights input n left row,
        ops + left * n,
        skips + skipped weights input n left row,
      )
unfolding forward_rows activations skipped
forward_rows_lem zero row n weights input out ops skips e h fits =
    same_result (sym (append-nil out)) (omega arith) (omega arith)
forward_rows_lem (suc left) row n weights input out ops skips e h fits =
    let (run, len) = slice_lem weights row n (omega arith) in
    let product = sparse_dot_lem input (row_of weights n row) (e ∙ sym len) (rw e h) in
    rw
      (
        run,
        product,
        forward_rows_lem left (row + 1) n weights input _ (ops + length input)
            (skips + vanishing input (row_of weights n row)) e h (omega arith),
      )
      (same_result
        (append_assoc out (activation (dot input (row_of weights n row)) ∷ [])
          (activations weights input n left (row + 1)))
        (omega (arith, e)) (omega arith))

-- On a weight matrix of `rows` rows of `n` trits and a vector of `n` trits, `forward` does not panic:
-- it returns the vector of the activations of the dense products, one for each row, its shape, the
-- number of products, and the number of those that are 0.
pub forward_lem :
    (rows n : ℕ) (weights input : List Trit)
    → length weights ≡ rows * n
    → length input ≡ n
    → n < 2 ^ 31
    → forward
        (record { entries = weights; shape = rows ∷ n ∷ [] })
        (record { entries = input; shape = n ∷ [] })
      ≡ some (
        record { entries = activations weights input n rows 0; shape = rows ∷ [] },
        rows * n,
        skipped weights input n rows 0,
      )
unfolding forward tensor
forward_lem rows n weights input hw hi h =
    rw
      (
        (==_iff (length input) n).1 hi,
        forward_rows_lem rows 0 n weights input [] 0 0 hi h (omega arith),
        (==_iff _ (rows * 1)).1 shape_fits,
      )
      (same_result refl (omega arith) (omega arith))
  where
    shape_fits : length (activations weights input n rows 0) ≡ rows * 1
    shape_fits = omega (arith, length-activations weights input n rows 0)
