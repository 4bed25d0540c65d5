-- ===== src/Ternary/Tryte/Convert.antt =====
-- Conversions between trytes and `i32`.
use rusty_penguin.Base.{
  ℕ, zero, suc, ◌+◌, ◌*◌, ◌^◌, ◌-◌, ◌≤◌, ◌≡◌, refl, ap, sym, ◌∙◌, List, [], ◌∷◌, some, arith,
  length,
}
use mathlib.Core.Path.{ap₂}
use rusty_penguin.Base.Int
use rusty_penguin.Base.Int.{
  ℤ, pos_part, neg_part, Within, nat_abs, ◌+ℤ◌, ◌-ℤ◌, ◌*ℤ◌, rem_euclid, quot, wrap_i8, wrap_i32,
  int_laws, quot-triple, rem_euclid_three, wrap_i8_of_within, wrap_i32_of_within, triple_parts,
  +ℤ_parts, -ℤ_parts,
}
use rusty_penguin.Ternary.Trit.{Trit, to_i8, from_i8}
use rusty_penguin.Ternary.Tryte.{
  Tryte, tryte, low_digit, higher, trits_of, from_i32, sum_trits, to_i32,
}

-- The integer that a row of trits denotes.
abbrev pub value : List Trit → ℤ
value [] = Int.pos 0
value (t ∷ ts) = to_i8 t +ℤ Int.pos 3 *ℤ value ts

-- The largest value of `n` trits, `(3 ^ n - 1) / 2`.
abbrev pub max_value : ℕ → ℕ
max_value zero = 0
max_value (suc n) = suc (3 * max_value n)

pub to_i8-Within : (t : Trit) → Within 1 (to_i8 t)
unfolding to_i8
to_i8-Within Trit.neg = omega arith
to_i8-Within Trit.zero = omega arith
to_i8-Within Trit.pos = omega arith

pub value-Within : (ts : List Trit) → Within (max_value (length ts)) (value ts)
value-Within [] = omega arith
value-Within (t ∷ ts) = omega (int_laws, to_i8-Within t, value-Within ts)

-- Within the bounds no intermediate value of a round leaves the range of `i32`.
low_digit_lem :
    (v : ℤ)
    → Within (2 ^ 31 - 3) v
    → low_digit v ≡ Int.pos (rem_euclid (v +ℤ Int.pos 1) 3) -ℤ Int.pos 1
unfolding low_digit
low_digit_lem v h = rw (wrap_i32_of_within (v +ℤ Int.pos 1) (omega (arith, +ℤ_parts v (Int.pos 1))))

higher_lem :
    (v q : ℤ)
    → Within (2 ^ 31 - 3) v
    → v -ℤ low_digit v ≡ Int.pos 3 *ℤ q
    → Within 1 (low_digit v)
    → higher v ≡ q
unfolding higher
higher_lem v q h e d =
    rw (wrap_i32_of_within (v -ℤ low_digit v) (omega (arith, -ℤ_parts v (low_digit v))), e)
      (quot-triple q)

below_digit :
    (v q d r : ℤ)
    → Int.pos 3 *ℤ q +ℤ r ≡ v +ℤ Int.pos 1
    → d ≡ r -ℤ Int.pos 1
    → v -ℤ d ≡ Int.pos 3 *ℤ q
below_digit v q d r e f =
    omega (int_laws, ap pos_part e, ap neg_part e, ap pos_part f, ap neg_part f)

recompose : (v q d t : ℤ) → v -ℤ d ≡ Int.pos 3 *ℤ q → d ≡ t → t +ℤ Int.pos 3 *ℤ q ≡ v
recompose v q d t e f = omega (int_laws, ap pos_part e, ap neg_part e, ap pos_part f, ap neg_part f)

trit_of_residue : (r : ℕ) → suc r ≤ 3 → (t : Trit) × (Int.pos r -ℤ Int.pos 1 ≡ to_i8 t)
unfolding to_i8 ◌-ℤ◌
trit_of_residue zero h = (Trit.neg, refl)
trit_of_residue (suc zero) h = (Trit.zero, refl)
trit_of_residue (suc (suc zero)) h = (Trit.pos, refl)
trit_of_residue (suc (suc (suc r))) h = absurd (omega arith)

-- One round of `from_i32`: the trit chosen, and what is left.
low_digit-cases :
    (v : ℤ)
    → Within (2 ^ 31 - 3) v
    → (t : Trit) × (low_digit v ≡ to_i8 t) × (to_i8 t +ℤ Int.pos 3 *ℤ higher v ≡ v)
low_digit-cases v h =
    let (q, split, below) = rem_euclid_three (v +ℤ Int.pos 1) in
    let (t, e) = trit_of_residue (rem_euclid (v +ℤ Int.pos 1) 3) below in
    let digit : low_digit v ≡ to_i8 t = low_digit_lem v h ∙ e in
    let rest : v -ℤ low_digit v ≡ Int.pos 3 *ℤ q =
      below_digit v q _ (Int.pos (rem_euclid (v +ℤ Int.pos 1) 3)) split (low_digit_lem v h) in
    let above : higher v ≡ q = higher_lem v q h rest (rw digit (to_i8-Within t)) in
    (t, digit, rw above (recompose v q _ _ rest digit))

-- The quotient is a third of the value.
higher-Within :
    (n : ℕ) (v : ℤ) → Within (2 ^ 31 - 3) v → Within (suc (3 * n)) v → Within n (higher v)
higher-Within n v h b =
    let (t, digit, sum) = low_digit-cases v h in
    omega (int_laws, ap pos_part sum, ap neg_part sum, to_i8-Within t)

from_i8-to_i8 : (t : Trit) → from_i8 (wrap_i8 (to_i8 t)) ≡ some t
unfolding from_i8 to_i8 wrap_i8 rem_euclid ◌+ℤ◌
from_i8-to_i8 Trit.neg = refl
from_i8-to_i8 Trit.zero = refl
from_i8-to_i8 Trit.pos = refl

max_value-le : (n m : ℕ) → n ≤ m → max_value n ≤ max_value m
max_value-le zero m h = omega arith
max_value-le (suc n) zero h = absurd (omega arith)
max_value-le (suc n) (suc m) h = omega (arith, max_value-le n m (omega arith))

within_i32 : (n : ℕ) (v : ℤ) → n ≤ 9 → Within (max_value n) v → Within (2 ^ 31 - 3) v
within_i32 n v le h = omega (arith, max_value-le n 9 le)

-- `n` rounds give the trits of any value that `n` trits can hold.
pub trits_of-value :
    (n : ℕ) (v : ℤ)
    → n ≤ 9
    → Within (max_value n) v
    → (ts : List Trit) × (trits_of n v ≡ some ts) × (length ts ≡ n) × (value ts ≡ v)
unfolding trits_of
trits_of-value zero v le h = ([], refl, refl, omega int_laws)
trits_of-value (suc n) v le h =
    let small : Within (2 ^ 31 - 3) v = within_i32 (suc n) v le h in
    let (t, digit, sum) = low_digit-cases v small in
    let (ts, run, len, val) =
      trits_of-value n (higher v) (omega arith) (higher-Within (max_value n) v small h) in
    (t ∷ ts, rw (digit, from_i8-to_i8 t, run), ap suc len, rw val sum)

module _ (t : Trit) where
  term_Within : (p : ℕ) → Within p (to_i8 t *ℤ Int.pos p)
  unfolding to_i8 ◌*ℤ◌
  term_Within p = ground arith

  term_triple : (p : ℕ) → to_i8 t *ℤ Int.pos (p * 3) ≡ Int.pos 3 *ℤ (to_i8 t *ℤ Int.pos p)
  unfolding to_i8 ◌*ℤ◌
  term_triple p = ground arith

  term_one : to_i8 t *ℤ Int.pos 1 ≡ to_i8 t
  unfolding to_i8 ◌*ℤ◌
  term_one = ground arith

-- The sum that the loop of `to_i32` makes, from the power `p` on.
weigh : ℕ → List Trit → ℤ
weigh p [] = Int.pos 0
weigh p (t ∷ ts) = to_i8 t *ℤ Int.pos p +ℤ weigh (p * 3) ts

weigh-triple : (p : ℕ) (ts : List Trit) → weigh (p * 3) ts ≡ Int.pos 3 *ℤ weigh p ts
unfolding weigh
weigh-triple p [] = omega int_laws
weigh-triple p (t ∷ ts) = rw (term_triple t p, weigh-triple (p * 3) ts) (omega int_laws)

weigh_one : (ts : List Trit) → weigh 1 ts ≡ value ts
unfolding weigh
weigh_one [] = refl
weigh_one (t ∷ ts) = rw (term_one t, weigh-triple 1 ts, weigh_one ts)

-- How far the sum can move in `n` rounds from the power `p` on, and the last power.
abbrev reach : ℕ → ℕ → ℕ
reach p zero = 0
reach p (suc n) = p + reach (p * 3) n

abbrev last_power : ℕ → ℕ → ℕ
last_power p zero = p
last_power p (suc n) = last_power (p * 3) n

le-last_power : (p n : ℕ) → p ≤ last_power p n
le-last_power p zero = omega arith
le-last_power p (suc n) = omega (arith, le-last_power (p * 3) n)

wrap_power :
    (p n : ℕ)
    → last_power (p * 3) n ≤ 2 ^ 31 - 1
    → wrap_i32 (Int.pos p *ℤ Int.pos 3) ≡ Int.pos (p * 3)
unfolding ◌*ℤ◌
wrap_power p n h =
    let e : Int.pos p *ℤ Int.pos 3 ≡ Int.pos (p * 3) = ground arith in
    rw e (wrap_i32_of_within (Int.pos (p * 3)) (omega (arith, le-last_power (p * 3) n)))

wrap_sum :
    (val x : ℤ) (b p : ℕ)
    → Within b val
    → Within p x
    → b + p ≤ 2 ^ 31 - 1
    → wrap_i32 (val +ℤ wrap_i32 x) ≡ val +ℤ x
wrap_sum val x b p hv hx h = rw (
  wrap_i32_of_within x (omega arith),
  wrap_i32_of_within (val +ℤ x) (omega (arith, +ℤ_parts val x)),
)

sum_within : (val x : ℤ) (b p : ℕ) → Within b val → Within p x → Within (b + p) (val +ℤ x)
sum_within val x b p hv hx = omega (arith, +ℤ_parts val x)

sum_trits-weigh :
    (val : ℤ) (b p : ℕ) (ts : List Trit)
    → Within b val
    → b + reach p (length ts) ≤ 2 ^ 31 - 1
    → last_power p (length ts) ≤ 2 ^ 31 - 1
    → sum_trits val (Int.pos p) ts ≡ val +ℤ weigh p ts
unfolding sum_trits weigh
sum_trits-weigh val b p [] w h k = omega int_laws
sum_trits-weigh val b p (t ∷ ts) w h k =
    rw
      (
        wrap_sum val (to_i8 t *ℤ Int.pos p) b p w (term_Within t p) (omega arith),
        wrap_power p (length ts) k,
        sum_trits-weigh (val +ℤ to_i8 t *ℤ Int.pos p) (b + p) (p * 3) ts
            (sum_within val (to_i8 t *ℤ Int.pos p) b p w (term_Within t p)) (omega arith) k,
      )
      (omega int_laws)

-- `to_i32` reads off the value of nine trits, without overflow.
pub to_i32-value : (t : Tryte) → length t.trits ≡ 9 → to_i32 t ≡ value t.trits
unfolding to_i32
to_i32-value t h =
    sum_trits-weigh (Int.pos 0) 0 1 t.trits (omega arith) (rw h (omega arith)) (rw h (omega arith))
    ∙ rw (weigh_one t.trits) (omega int_laws)

pub to_i32-Within : (t : Tryte) → length t.trits ≡ 9 → Within 9841 (to_i32 t)
to_i32-Within t h = rw (to_i32-value t h) (omega (arith, value-Within t.trits, ap max_value h))

-- Every value that nine trits can hold survives the round trip through a tryte.
pub to_i32-from_i32 :
    (v : ℤ)
    → Within 9841 v
    → (t : Tryte) × (from_i32 v ≡ some t) × (length t.trits ≡ 9) × (to_i32 t ≡ v)
unfolding from_i32
to_i32-from_i32 v h =
    let (ts, run, len, val) = trits_of-value 9 v (omega arith) h in
    (tryte ts, rw run, len, to_i32-value (tryte ts) len ∙ val)

to_i8_injective : (t u : Trit) → to_i8 t ≡ to_i8 u → t ≡ u
to_i8_injective t u e = cc (from_i8-to_i8 t, from_i8-to_i8 u, ap (λ x. from_i8 (wrap_i8 x)) e)

same_digit :
    (t u : Trit) (a b : ℤ)
    → to_i8 t +ℤ Int.pos 3 *ℤ a ≡ to_i8 u +ℤ Int.pos 3 *ℤ b
    → (to_i8 t ≡ to_i8 u) × (a ≡ b)
same_digit t u a b e = (
  omega (int_laws, ap pos_part e, ap neg_part e, to_i8-Within t, to_i8-Within u),
  omega (int_laws, ap pos_part e, ap neg_part e, to_i8-Within t, to_i8-Within u),
)

-- Trits are determined by their number and value.
pub value_injective : (ts us : List Trit) → length ts ≡ length us → value ts ≡ value us → ts ≡ us
value_injective [] [] n e = refl
value_injective [] (u ∷ us) n e = absurd (omega arith)
value_injective (t ∷ ts) [] n e = absurd (omega arith)
value_injective (t ∷ ts) (u ∷ us) n e =
    let (d, rest) = same_digit t u (value ts) (value us) e in
    ap₂ ◌∷◌ (to_i8_injective t u d) (value_injective ts us (omega arith) rest)

-- A tryte is the only one of its value: `from_i32` of its value gives it back.
pub from_i32-to_i32 : (t : Tryte) → length t.trits ≡ 9 → from_i32 (to_i32 t) ≡ some t
from_i32-to_i32 t h =
    let (u, run, len, val) = to_i32-from_i32 (to_i32 t) (to_i32-Within t h) in
    run
    ∙ ap (λ ts. some (tryte ts))
        (value_injective u.trits t.trits (len ∙ sym h)
          (sym (to_i32-value u len) ∙ val ∙ to_i32-value t h))
