-- ===== src/Desktop/Editor/Digits.antt =====
-- desktop-metal/src/editor.rs: decimal numbers, and the width of the gutter that they stand in.
use rusty_penguin.Base.{
  ℕ, zero, suc, ◌+◌, ◌-◌, ◌*◌, ◌/◌, ◌%◌, ◌^◌, ◌≤◌, ◌<◌, max, ◌≡◌, refl, ap, ◌∙◌, [], ◌∷◌, Bool,
  true, false, ◌&&◌, if◌then◌else◌, ◌==◌, leb, length, arith, Bool-cases, inl, inr,
}
use native.Mathlib.Nat.{pow-suc}
use rusty_penguin.Base.Edits.{all, all-parts}
use rusty_penguin.Desktop.Editor.{Text, char_w}

-- The bytes of `tmp`: the digits from the last to the first.
unfoldable pub low_digits : ℕ → ℕ → Text
low_digits zero n = []
low_digits (suc fuel) n =
    let rest = low_digits fuel (n / 10) in if n == 0 then [] else (48 + n % 10) ∷ rest

unfoldable pub reverse_onto : Text → Text → Text
reverse_onto [] ys = ys
reverse_onto (x ∷ xs) ys = reverse_onto xs (x ∷ ys)

-- `n` rounds are enough for `n`.
unfoldable pub fmt_u32 : ℕ → Text
fmt_u32 n = if n == 0 then 48 ∷ [] else reverse_onto (low_digits n n) []

unfoldable pub count_digits : ℕ → ℕ → ℕ
count_digits zero n = 1
count_digits (suc fuel) n =
    let rest = count_digits fuel (n / 10) in if leb 10 n then suc rest else 1

unfoldable pub gutter_width : ℕ → ℕ
gutter_width count = (max (count_digits count count) 3 + 1) * char_w

-- What a text of digits is worth.
unfoldable pub value : ℕ → Text → ℕ
value n [] = n
value n (d ∷ ds) = value (n * 10 + (d - 48)) ds

abbrev pub is_digit : ℕ → Bool
is_digit d = leb 48 d && leb d 57

low_value : Text → ℕ
low_value [] = 0
low_value (d ∷ ds) = low_value ds * 10 + (d - 48)

value-reverse_onto : (xs ys : Text) → value 0 (reverse_onto xs ys) ≡ value (low_value xs) ys
unfolding value reverse_onto low_value
value-reverse_onto [] ys = refl
value-reverse_onto (x ∷ xs) ys = value-reverse_onto xs (x ∷ ys)

low_value-low_digits : (fuel n : ℕ) → n ≤ fuel → low_value (low_digits fuel n) ≡ n
unfolding low_value low_digits
low_value-low_digits zero n h = omega arith
low_value-low_digits (suc fuel) n h = elim (Bool-cases (n == 0)) [
  | inl none_left ↦ rw none_left (ground arith)
  | inr more ↦
      let pos : 0 < n = ground arith in
      rw more (omega (arith, low_value-low_digits fuel (n / 10) (omega arith)))
]

all-reverse_onto :
    (test : ℕ → Bool) (xs ys : Text)
    → all test xs ≡ true
    → all test ys ≡ true
    → all test (reverse_onto xs ys) ≡ true
unfolding reverse_onto
all-reverse_onto test [] ys h k = k
all-reverse_onto test (x ∷ xs) ys h k =
    let p = all-parts test x xs h in all-reverse_onto test xs (x ∷ ys) p.1 (rw p.0 k)

low_digits-digits : (fuel n : ℕ) → all is_digit (low_digits fuel n) ≡ true
unfolding low_digits
low_digits-digits zero n = refl
low_digits-digits (suc fuel) n = elim (Bool-cases (n == 0)) [
  | inl none_left ↦ rw none_left refl
  | inr more ↦
      let digit : is_digit (48 + n % 10) ≡ true = ground arith in
      rw (more, digit) (low_digits-digits fuel (n / 10))
]

length-reverse_onto : (xs ys : Text) → length (reverse_onto xs ys) ≡ length xs + length ys
unfolding reverse_onto
length-reverse_onto [] ys = omega arith
length-reverse_onto (x ∷ xs) ys = omega (arith, length-reverse_onto xs (x ∷ ys))

length-low_digits :
    (fuel n : ℕ) → 0 < n → n ≤ fuel → length (low_digits fuel n) ≡ count_digits fuel n
unfolding low_digits count_digits
length-low_digits zero n h h' = absurd (omega arith)
length-low_digits (suc fuel) n h h' = elim (Bool-cases (leb 10 n)) [
  | inl large ↦
      let more : (n == 0) ≡ false = ground arith in
      rw (large, more) (ap suc (length-low_digits fuel (n / 10) (ground arith) (ground arith)))
  | inr small ↦
      let more : (n == 0) ≡ false = ground arith in
      let last : n / 10 ≡ 0 = ground arith in rw (small, more, last) (ap suc (no_digits fuel))
]
  where
    no_digits : (fuel : ℕ) → length (low_digits fuel 0) ≡ 0
    no_digits zero = refl
    no_digits (suc fuel) = refl

fmt_u32-suc : (n : ℕ) → fmt_u32 (suc n) ≡ reverse_onto (low_digits (suc n) (suc n)) []
unfolding fmt_u32
fmt_u32-suc n = let more : (suc n == 0) ≡ false = ground arith in rw more refl

length-fmt_u32 : (n : ℕ) → length (fmt_u32 n) ≡ count_digits n n
unfolding fmt_u32 count_digits
length-fmt_u32 zero = refl
length-fmt_u32 (suc n) =
    ap (length {A = ℕ}) (fmt_u32-suc n)
    ∙ length-reverse_onto (low_digits (suc n) (suc n)) []
    ∙ omega (arith, length-low_digits (suc n) (suc n) (omega arith) (omega arith))

count_digits-pos : (fuel n : ℕ) → 1 ≤ count_digits fuel n
unfolding count_digits
count_digits-pos zero n = omega arith
count_digits-pos (suc fuel) n = ground (arith, count_digits-pos fuel (n / 10))

count_digits-le :
    (fuel fuel' k n : ℕ) → k ≤ n → k ≤ fuel → n ≤ fuel' → count_digits fuel k ≤ count_digits fuel' n
unfolding count_digits
count_digits-le zero fuel' k n h h' h'' = count_digits-pos fuel' n
count_digits-le (suc fuel) zero k n h h' h'' = ground arith
count_digits-le (suc fuel) (suc fuel') k n h h' h'' =
    let k10 : k / 10 ≤ n / 10 = omega arith in
    elim (Bool-cases (leb 10 k)) [
      | inl large ↦
          let larger : leb 10 n ≡ true = ground arith in
          rw (large, larger)
            (omega (
              arith,
              count_digits-le fuel fuel' (k / 10) (n / 10) k10 (ground arith) (ground arith),
            ))
      | inr small ↦ rw small (count_digits-pos (suc fuel') n)
    ]

count_digits-pow : (fuel n d : ℕ) → n < 10 ^ suc d → n ≤ fuel → count_digits fuel n ≤ suc d
unfolding count_digits
count_digits-pow zero n d h h' = omega arith
count_digits-pow (suc fuel) n zero h h' =
    let small : leb 10 n ≡ false = ground arith in rw small (omega arith)
count_digits-pow (suc fuel) n (suc d) h h' = elim (Bool-cases (leb 10 n)) [
  | inr small ↦ rw small (omega arith)
  | inl large ↦ rw large (
      omega (
        arith,
        count_digits-pow fuel (n / 10) d (omega (arith, pow-suc 10 (suc d))) (ground arith),
      ))
]

-- A number below 2^32 is written with at most ten digits, which the twelve bytes of the buffer hold;
-- all are decimal digits, and they are worth the number.
pub fmt_u32-value :
    (n : ℕ)
    → n < 2 ^ 32
    → (length (fmt_u32 n) ≤ 10) × (all is_digit (fmt_u32 n) ≡ true) × (value 0 (fmt_u32 n) ≡ n)
unfolding fmt_u32 value low_value
fmt_u32-value zero h = (omega arith, refl, refl)
fmt_u32-value (suc n) h = (
  omega (
    arith,
    length-fmt_u32 (suc n),
    count_digits-pow (suc n) (suc n) 9 (omega arith) (omega arith),
  ),
  rw (fmt_u32-suc n) (
      all-reverse_onto is_digit (low_digits (suc n) (suc n)) [] (low_digits-digits (suc n) (suc n))
        refl),
  ap (value 0) (fmt_u32-suc n)
      ∙ value-reverse_onto (low_digits (suc n) (suc n)) []
      ∙ low_value-low_digits (suc n) (suc n) (omega arith),
)

-- Every line number, up to the number of lines, fits in the gutter with a character to spare, so its
-- place on the screen does not wrap around.
pub gutter_width-fmt_u32 :
    (count lineno : ℕ)
    → lineno ≤ count
    → length (fmt_u32 lineno) * char_w + char_w ≤ gutter_width count
unfolding gutter_width
gutter_width-fmt_u32 count lineno h = omega (
  arith,
  length-fmt_u32 lineno,
  count_digits-le lineno count lineno count h (omega arith) (omega arith),
)
