-- ===== src/Pmm/Scan.antt =====
-- The word scan of `alloc_frame`, and the lowest set bit of a word.
use native.Mathlib.Nat.{pow-suc}
use rusty_penguin.Base.{
  ℕ, zero, suc, ◌+◌, ◌/◌, ◌%◌, ◌^◌, ◌≤◌, ◌<◌, ◌≡◌, refl, ◌≢◌, ap, ◌∙◌, inl, inr, Bool, true, false,
  ◌&&◌, none, some, ◌==◌, ==_iff, ltb, lt→ltb, arith, Bool-cases, ℕ_discrete,
}
use rusty_penguin.Base.Bits.{bit_at, bit_at-zero}
use rusty_penguin.Pmm.{Bitmap, max_pages, is_free, trailing_zeros, first_word}
use rusty_penguin.Pmm.Bitmap.{page_bit, is_free_lem}

-- `trailing_zeros` of a word that is not 0 is the place of its lowest set bit.
pub trailing_zeros_lem :
    (n w : ℕ)
    → w < 2 ^ n
    → w ≢ 0
    → (trailing_zeros n w < n)
      × (bit_at w (trailing_zeros n w) ≡ 1)
      × ((k : ℕ) → k < trailing_zeros n w → bit_at w k ≡ 0)
unfolding trailing_zeros bit_at
trailing_zeros_lem zero w h ne = absurd (omega arith)
trailing_zeros_lem (suc n) w h ne = elim (Bool-cases (w % 2 == 1)) [
  | inl odd ↦
      rw (odd, trailing_zeros) (omega arith, (==_iff (w % 2) 1).0 odd, λ k hk. absurd (omega arith))
  | inr even ↦
      let low : w % 2 ≡ 0 = ground arith in
      let (below, set_bit, clear_below) =
        trailing_zeros_lem n (w / 2) (omega (arith, pow-suc 2 n)) (omega arith) in
      rw (even, trailing_zeros) (omega arith, set_bit, shifted w n low clear_below)
]
  where
    shifted :
        (x m : ℕ)
        → x % 2 ≡ 0
        → ((k : ℕ) → k < trailing_zeros m (x / 2) → bit_at (x / 2) k ≡ 0)
        → (k : ℕ) → k < suc (trailing_zeros m (x / 2))
        → bit_at x k ≡ 0
    shifted x m low clear zero hk = low
    shifted x m low clear (suc k) hk = clear k (omega arith)

-- The loop stops at the first word that is not 0, and goes past every word that is.
pub first_word-some :
    (left i : ℕ) (bm : Bitmap) (k : ℕ)
    → first_word left i bm ≡ some k
    → (i ≤ k) × (k < i + left) × (bm k ≢ 0) × ((j : ℕ) → i ≤ j → j < k → bm j ≡ 0)
unfolding first_word
first_word-some zero i bm k e = cc
first_word-some (suc left) i bm k e = elim (Bool-cases (bm i == 0)) [
  | inl empty ↦
      let (lo, hi, ne, before) = first_word-some left (i + 1) bm k (rw (empty, first_word) at e) in
      (omega arith, omega arith, ne, skip ((==_iff (bm i) 0).0 empty) before)
  | inr full ↦
      let here : i ≡ k = ground arith in
      (omega arith, omega arith, (λ z. ground (arith, ap bm here)), λ j h l. absurd (omega arith))
]
  where
    skip : bm i ≡ 0 → ((j : ℕ) → i + 1 ≤ j → j < k → bm j ≡ 0) → (j : ℕ) → i ≤ j → j < k → bm j ≡ 0
    skip empty before j h l = elim (ℕ_discrete j i) [
      | yes here ↦ rw here empty
      | no past ↦ before j (omega arith) l
    ]

pub first_word-none :
    (left i : ℕ) (bm : Bitmap)
    → first_word left i bm ≡ none
    → (j : ℕ) → i ≤ j
    → j < i + left
    → bm j ≡ 0
unfolding first_word
first_word-none zero i bm e j h k = absurd (omega arith)
first_word-none (suc left) i bm e j h k = elim (Bool-cases (bm i == 0)) [
  | inl empty ↦ elim (ℕ_discrete j i) [
    | yes here ↦ rw here ((==_iff (bm i) 0).0 empty)
    | no past ↦ first_word-none left (i + 1) bm (ground arith) j (omega arith) (omega arith)
  ]
  | inr full ↦ ground arith
]

pub empty_page : (bm : Bitmap) (p : ℕ) → page_bit bm p ≡ 0 → is_free bm p ≡ false
empty_page bm p h = rw (is_free_lem bm p, h) (and-false (ltb p max_pages))
  where
    and-false : (b : Bool) → (b && false) ≡ false
    and-false true = refl
    and-false false = refl

pub zero_word : (bm : Bitmap) (p : ℕ) → bm (p / 64) ≡ 0 → is_free bm p ≡ false
zero_word bm p h = empty_page bm p (ap (λ w. bit_at w (p % 64)) h ∙ bit_at-zero (p % 64))

pub set_page : (bm : Bitmap) (p : ℕ) → p < max_pages → page_bit bm p ≡ 1 → is_free bm p ≡ true
set_page bm p h b = rw (is_free_lem bm p, b, lt→ltb p max_pages h)
