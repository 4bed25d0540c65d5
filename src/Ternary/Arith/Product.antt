-- ===== src/Ternary/Arith/Product.antt =====
-- What the tryte operations of mathematics/src/lib.rs compute on the integers denoted.
use rusty_penguin.Base.{ℕ, ◌+◌, ◌*◌, ◌/◌, ◌<◌, ◌≡◌, ap, sym, ◌∙◌, some, arith, length}
use rusty_penguin.Base.Int
use rusty_penguin.Base.Int.{
  ℤ, pos_part, neg_part, nat_abs, Within, ◌+ℤ◌, ◌-ℤ◌, ◌*ℤ◌, rem_euclid, quot, rem, wrap_i32,
  wrap_i64, -ℤ◌, int_laws, wrap_i32_of_within, wrap_i64_of_within,
}
use rusty_penguin.Base.Division.{quot-rem, *ℤ-Within}
use rusty_penguin.Ternary.Tryte.{Tryte, to_i32}
use rusty_penguin.Ternary.Tryte.Convert.{to_i32-from_i32, to_i32-Within}
use rusty_penguin.Ternary.Arith.{low_word, high_word, mul_tryte}

words_parts :
    (b : ℤ)
    → pos_part (Int.pos 19683 *ℤ b) + 19683 * neg_part b
      ≡ neg_part (Int.pos 19683 *ℤ b) + 19683 * pos_part b
unfolding ◌*ℤ◌
words_parts b = ground arith

ruleset word_laws = (int_laws, words_parts)

residue_of_word :
    (x : ℤ)
    → (q : ℤ) × (Int.pos 19683 *ℤ q +ℤ Int.pos (rem_euclid x 19683) ≡ x)
      × (rem_euclid x 19683 < 19683)
unfolding rem_euclid ◌*ℤ◌ ◌+ℤ◌
residue_of_word (ℤ.pos n) = (Int.pos (n / 19683), ground arith, omega arith)
residue_of_word (ℤ.negsuc n) = (Int.negsuc (n / 19683), ground arith, omega arith)

quot-words : (q : ℤ) → quot (Int.pos 19683 *ℤ q) (Int.pos 19683) ≡ q
unfolding quot ◌*ℤ◌
quot-words (ℤ.pos n) = ground arith
quot-words (ℤ.negsuc n) = ground arith

words_comm : (q : ℤ) → q *ℤ Int.pos 19683 ≡ Int.pos 19683 *ℤ q
unfolding ◌*ℤ◌
words_comm q = ground arith

centred-Within : (d : ℕ) → d < 19683 → Within 9841 (Int.pos d -ℤ Int.pos 9841)
centred-Within d h = omega word_laws

low_word-Within : (p : ℤ) → Within 9841 (low_word p)
unfolding low_word
low_word-Within p = centred-Within _ (residue_of_word (rem p (Int.pos 19683) +ℤ Int.pos 9841)).2

whole_words :
    (p q r s d : ℤ)
    → Int.pos 19683 *ℤ q +ℤ r ≡ p
    → Int.pos 19683 *ℤ s +ℤ d ≡ r +ℤ Int.pos 9841
    → p -ℤ (d -ℤ Int.pos 9841) ≡ Int.pos 19683 *ℤ (q +ℤ s)
whole_words p q r s d e f =
    omega (word_laws, ap pos_part e, ap neg_part e, ap pos_part f, ap neg_part f)

add_back : (p l w : ℤ) → p -ℤ l ≡ w → l +ℤ w ≡ p
add_back p l w e = omega (word_laws, ap pos_part e, ap neg_part e)

low_word-high_word : (p : ℤ) → low_word p +ℤ Int.pos 19683 *ℤ high_word p ≡ p
unfolding low_word high_word
low_word-high_word p =
    let q = quot p (Int.pos 19683) in
    let r = rem p (Int.pos 19683) in
    let (s, split, below) = residue_of_word (r +ℤ Int.pos 9841) in
    let d = Int.pos (rem_euclid (r +ℤ Int.pos 9841) 19683) in
    let whole : p -ℤ (d -ℤ Int.pos 9841) ≡ Int.pos 19683 *ℤ (q +ℤ s) =
      whole_words p q r s d (ap (λ x. x +ℤ r) (sym (words_comm q)) ∙ quot-rem p (Int.pos 19683))
        split in
    let high : quot (p -ℤ (d -ℤ Int.pos 9841)) (Int.pos 19683) ≡ q +ℤ s =
      ap (λ x. quot x (Int.pos 19683)) whole ∙ quot-words (q +ℤ s) in
    add_back p (d -ℤ Int.pos 9841) _ (whole ∙ ap (λ x. Int.pos 19683 *ℤ x) (sym high))

high_word-Within : (p : ℤ) → Within (9841 * 9841) p → Within 9841 (high_word p)
high_word-Within p h =
    let e = low_word-high_word p in
    omega (word_laws, ap pos_part e, ap neg_part e, low_word-Within p)

within_i32 : (x : ℤ) → Within 9841 x → wrap_i32 x ≡ x
within_i32 x h = wrap_i32_of_within x (omega arith)

-- The product of two trytes never panics or overflows: its low and high words, as balanced digits
-- to base 19683, denote the exact product of the two integers.
pub to_i32-mul_tryte :
    (a b : Tryte)
    → length a.trits ≡ 9
    → length b.trits ≡ 9
    → (lo hi : Tryte) × (mul_tryte a b ≡ some (lo, hi))
      × (to_i32 lo +ℤ Int.pos 19683 *ℤ to_i32 hi ≡ to_i32 a *ℤ to_i32 b)
unfolding mul_tryte
to_i32-mul_tryte a b ha hb =
    let p = to_i32 a *ℤ to_i32 b in
    let small =
      *ℤ-Within 9841 9841 (to_i32 a) (to_i32 b) (to_i32-Within a ha) (to_i32-Within b hb) in
    let unwrapped : wrap_i64 p ≡ p = wrap_i64_of_within p (omega arith) in
    let (lo, run_lo, _, val_lo) = to_i32-from_i32 (low_word p) (low_word-Within p) in
    let (hi, run_hi, _, val_hi) = to_i32-from_i32 (high_word p) (high_word-Within p small) in
    (
      lo,
      hi,
      rw (
        unwrapped,
        within_i32 (low_word p) (low_word-Within p),
        run_lo,
        within_i32 (high_word p) (high_word-Within p small),
        run_hi,
      ),
      rw (val_lo, val_hi) (low_word-high_word p),
    )
