-- ===== src/Ternary/Tryte/Adder.antt =====
-- Addition and negation of trytes, against the integers that they denote.
use rusty_penguin.Base.{
  ℕ, zero, suc, ◌≡◌, refl, ap, sym, ◌∙◌, List, [], ◌∷◌, Option, none, some, arith, length, map,
}
use rusty_penguin.Base.Int
use rusty_penguin.Base.Int.{ℤ, pos_part, neg_part, Within, ◌+ℤ◌, ◌*ℤ◌, -ℤ◌, int_laws, neg_parts}
use rusty_penguin.Ternary.Trit.{Trit, to_i8, full_add, flip}
use rusty_penguin.Ternary.Tryte.{Tryte, tryte, negate, add_trits, add, to_i32}
use rusty_penguin.Ternary.Tryte.Convert.{value, to_i32-value, to_i32-Within}

-- The pair that the full adder returns (no call returns `none`).
outcome : Option (Trit × Trit) → Trit × Trit
outcome none = (Trit.zero, Trit.zero)
outcome (some p) = p

full_add-outcome : (a b c : Trit) → full_add a b c ≡ some (outcome (full_add a b c))
unfolding full_add outcome
full_add-outcome a b c = ground arith

full_add_value :
    (a b c : Trit)
    → let (s, k) = outcome (full_add a b c) in
      to_i8 s +ℤ Int.pos 3 *ℤ to_i8 k ≡ to_i8 a +ℤ to_i8 b +ℤ to_i8 c
unfolding full_add outcome ◌*ℤ◌
full_add_value a b c = ground arith

-- A trit at place `n`.
abbrev at_place : ℕ → Trit → ℤ
at_place zero k = to_i8 k
at_place (suc n) k = Int.pos 3 *ℤ at_place n k

combine :
    (s k a b c vs rest va vb : ℤ)
    → s +ℤ Int.pos 3 *ℤ k ≡ a +ℤ b +ℤ c
    → vs +ℤ rest ≡ va +ℤ vb +ℤ k
    → (s +ℤ Int.pos 3 *ℤ vs) +ℤ Int.pos 3 *ℤ rest
      ≡ (a +ℤ Int.pos 3 *ℤ va) +ℤ (b +ℤ Int.pos 3 *ℤ vb) +ℤ c
combine s k a b c vs rest va vb e f =
    omega (int_laws, ap pos_part e, ap neg_part e, ap pos_part f, ap neg_part f)

-- The ripple of carries: digits and last carry together weigh the two addends and the first carry.
add_trits-value :
    (c : Trit) (us vs : List Trit)
    → length us ≡ length vs
    → (ts : List Trit) × (k : Trit) × (add_trits c us vs ≡ some ts)
      × (length ts ≡ length us)
      × (value ts +ℤ at_place (length us) k ≡ value us +ℤ value vs +ℤ to_i8 c)
unfolding add_trits outcome
add_trits-value c [] [] e = ([], c, refl, refl, omega int_laws)
add_trits-value c [] (v ∷ vs) e = absurd (omega arith)
add_trits-value c (u ∷ us) [] e = absurd (omega arith)
add_trits-value c (u ∷ us) (v ∷ vs) e =
    let d = outcome (full_add u v c) in
    let (ts, k, run, len, val) = add_trits-value d.1 us vs (omega arith) in
    (
      d.0 ∷ ts,
      k,
      rw (full_add-outcome u v c, run),
      ap suc len,
      combine (to_i8 d.0) (to_i8 d.1) (to_i8 u) (to_i8 v) (to_i8 c) (value ts)
          (at_place (length us) k) (value us) (value vs) (full_add_value u v c) val,
    )

drop_zero : (x : ℤ) → x +ℤ to_i8 Trit.zero ≡ x
unfolding to_i8
drop_zero x = omega int_laws

at_place_nine : (k : Trit) → at_place 9 k ≡ Int.pos 19683 *ℤ to_i8 k
unfolding ◌*ℤ◌ to_i8
at_place_nine Trit.neg = refl
at_place_nine Trit.zero = refl
at_place_nine Trit.pos = refl

-- Adding two trytes never panics and gives nine trits; the integer of the result is the sum of the
-- two integers less 19683 times the dropped carry, a trit.
pub to_i32-add :
    (a b : Tryte)
    → length a.trits ≡ 9
    → length b.trits ≡ 9
    → (s : Tryte) × (carry : Trit) × (add a b ≡ some s)
      × (length s.trits ≡ 9)
      × (to_i32 s +ℤ Int.pos 19683 *ℤ to_i8 carry ≡ to_i32 a +ℤ to_i32 b)
unfolding add
to_i32-add a b ha hb =
    let (ts, k, run, len, val) = add_trits-value Trit.zero a.trits b.trits (ha ∙ sym hb) in
    let nine : length ts ≡ 9 = len ∙ ha in
    let place : at_place (length a.trits) k ≡ Int.pos 19683 *ℤ to_i8 k =
      ap (λ n. at_place n k) ha ∙ at_place_nine k in
    (
      tryte ts,
      k,
      rw run,
      nine,
      rw (to_i32-value (tryte ts) nine, to_i32-value a ha, to_i32-value b hb, ← place)
          (val ∙ drop_zero (value a.trits +ℤ value b.trits)),
    )

to_i8-flip : (t : Trit) → to_i8 (flip t) ≡ -ℤ◌ (to_i8 t)
unfolding to_i8 flip -ℤ◌
to_i8-flip Trit.neg = refl
to_i8-flip Trit.zero = refl
to_i8-flip Trit.pos = refl

length-map-flip : (ts : List Trit) → length (map flip ts) ≡ length ts
length-map-flip [] = refl
length-map-flip (t ∷ ts) = ap suc (length-map-flip ts)

value-map-flip : (ts : List Trit) → value (map flip ts) ≡ -ℤ◌ (value ts)
value-map-flip [] = omega (int_laws, neg_parts)
value-map-flip (t ∷ ts) = rw (to_i8-flip t, value-map-flip ts) (omega (int_laws, neg_parts))

-- Flipping every trit negates the integer of a tryte, exactly.
pub to_i32-negate :
    (t : Tryte)
    → length t.trits ≡ 9
    → (length (negate t).trits ≡ 9) × (to_i32 (negate t) ≡ -ℤ◌ (to_i32 t))
unfolding negate
to_i32-negate t h =
    let nine : length (map flip t.trits) ≡ 9 = length-map-flip t.trits ∙ h in
    (
      nine,
      rw (to_i32-value (tryte (map flip t.trits)) nine, to_i32-value t h) (value-map-flip t.trits),
    )

no_carry :
    (x y : ℤ) (k : Trit) → Within 9841 x → Within 9841 y → x +ℤ Int.pos 19683 *ℤ to_i8 k ≡ y → x ≡ y
unfolding to_i8 ◌*ℤ◌
no_carry x y Trit.neg hx hy e = absurd (omega (int_laws, ap pos_part e, ap neg_part e))
no_carry x y Trit.zero hx hy e = omega (int_laws, ap pos_part e, ap neg_part e)
no_carry x y Trit.pos hx hy e = absurd (omega (int_laws, ap pos_part e, ap neg_part e))

-- Where the sum of the two integers fits nine trits, no carry is dropped and addition is exact.
pub add_exact :
    (a b : Tryte)
    → length a.trits ≡ 9
    → length b.trits ≡ 9
    → Within 9841 (to_i32 a +ℤ to_i32 b)
    → (s : Tryte) × (add a b ≡ some s) × (to_i32 s ≡ to_i32 a +ℤ to_i32 b)
add_exact a b ha hb fits =
    let (s, k, run, nine, sum) = to_i32-add a b ha hb in
    (s, run, no_carry (to_i32 s) _ k (to_i32-Within s nine) fits sum)
