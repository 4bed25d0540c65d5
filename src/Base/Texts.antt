-- ===== src/Base/Texts.antt =====
-- Byte strings compared byte by byte.
use rusty_penguin.Base.{
  ℕ, ◌≡◌, refl, ◌≢◌, ap, sym, ◌∙◌, List, [], ◌∷◌, Bool, true, false, ◌&&◌, ◌||◌, Option, none, some,
  if◌then◌else◌, zero, suc, ltb, leb, ◌==◌, ==_iff, ==_refl, Bool-cases, inl, inr,
}

unfoldable pub name_eq : List ℕ → List ℕ → Bool
name_eq [] [] = true
name_eq [] (y ∷ ys) = false
name_eq (x ∷ xs) [] = false
name_eq (x ∷ xs) (y ∷ ys) = (x == y) && name_eq xs ys

pub name_eq_refl : (xs : List ℕ) → name_eq xs xs ≡ true
unfolding name_eq
name_eq_refl [] = refl
name_eq_refl (x ∷ xs) = rw (==_refl x) (name_eq_refl xs)

pub name_eq_sound : (xs ys : List ℕ) → name_eq xs ys ≡ true → xs ≡ ys
unfolding name_eq
name_eq_sound [] [] h = refl
name_eq_sound [] (y ∷ ys) h = cc
name_eq_sound (x ∷ xs) [] h = cc
name_eq_sound (x ∷ xs) (y ∷ ys) h = elim (Bool-cases (x == y)) [
  | inl same ↦
      let rest : name_eq xs ys ≡ true = sym (ap (λ b. b && name_eq xs ys) same) ∙ h in
      rw ((==_iff x y).0 same, name_eq_sound xs ys rest)
  | inr other ↦ cc (sym (ap (λ b. b && name_eq xs ys) other) ∙ h)
]

pub name_eq_ne : (xs ys : List ℕ) → xs ≢ ys → name_eq xs ys ≡ false
name_eq_ne xs ys ne = elim (Bool-cases (name_eq xs ys)) [
  | inl same ↦ absurd (ne (name_eq_sound xs ys same))
  | inr other ↦ other
]

unfoldable pub listed : List ℕ → List (List ℕ) → Bool
listed name [] = false
listed name (n ∷ ns) = name_eq n name || listed name ns

-- The lead byte of a character in UTF-8: how many bytes follow, and the range of the next one.
abbrev pub utf8_lead : ℕ → Option (ℕ × ℕ × ℕ)
utf8_lead b =
    if ltb b 128
    then some (0, 128, 191)
    else if ltb b 194
    then none
    else if ltb b 224
    then some (1, 128, 191)
    else if b == 224
    then some (2, 160, 191)
    else if b == 237
    then some (2, 128, 159)
    else if ltb b 240
    then some (2, 128, 191)
    else if b == 240
    then some (3, 144, 191)
    else if ltb b 244
    then some (3, 128, 191)
    else if b == 244
    then some (3, 128, 143)
    else none

-- `core::str::from_utf8` succeeds. The numbers say what the character at hand still wants.
unfoldable pub is_utf8_after : ℕ → ℕ → ℕ → List ℕ → Bool
is_utf8_after zero lo hi [] = true
is_utf8_after (suc more) lo hi [] = false
is_utf8_after zero lo hi (b ∷ bs) = elim (utf8_lead b) [
  | none ↦ false
  | some (n, lo', hi') ↦ is_utf8_after n lo' hi' bs
]
is_utf8_after (suc more) lo hi (b ∷ bs) = (leb lo b && leb b hi) && is_utf8_after more 128 191 bs

unfoldable pub is_utf8 : List ℕ → Bool
is_utf8 = is_utf8_after 0 128 191
