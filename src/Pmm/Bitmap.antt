-- ===== src/Pmm/Bitmap.antt =====
-- The bitmap read page by page.
use native.Mathlib.Nat.{one-le-pow}
use rusty_penguin.Base.{
  ℕ, zero, suc, ◌+◌, ◌*◌, ◌/◌, ◌%◌, ◌^◌, ◌≤◌, ◌<◌, ◌≡◌, refl, ◌≢◌, ap, sym, ◌∙◌, Bool, true, false,
  not, ◌&&◌, if◌then◌else◌, ◌==◌, ==_iff, ==_refl, ne→==, ℕ_discrete, ltb, lt→ltb, arith,
  Bool-cases, inl, inr,
}
use rusty_penguin.Base.Bits.{
  bit_at, bit_at-le, mask_without, bit_and-pow, bit_at-set_self, bit_at-set_ne, bit_at-clear_self,
  bit_at-clear_ne, bit_or-pow-lt, bit_and-le,
}
use rusty_penguin.Pmm.{Bitmap, max_pages, write_word, mark_free, mark_used, is_free}

-- The bit of a page.
abbrev pub page_bit : Bitmap → ℕ → ℕ
page_bit bm page = bit_at (bm (page / 64)) (page % 64)

bit_test : (b k : ℕ) → b ≤ 1 → not (b * 2 ^ k == 0) ≡ (b == 1)
bit_test zero k h = ground arith
bit_test (suc zero) k h = ground (arith, one-le-pow k 2)
bit_test (suc (suc b)) k h = absurd (omega arith)

pub is_free_lem :
    (bm : Bitmap) (page : ℕ) → is_free bm page ≡ (ltb page max_pages && (page_bit bm page == 1))
unfolding is_free
is_free_lem bm page = rw (bit_and-pow (bm (page / 64)) (page % 64)) (
    ap (λ b. ltb page max_pages && b)
      (bit_test (page_bit bm page) (page % 64) (bit_at-le (bm (page / 64)) (page % 64))))

-- Two pages with one word and one bit are one page.
same_page : (p j : ℕ) → j / 64 ≡ p / 64 → j % 64 ≡ p % 64 → j ≡ p
same_page p j h k = omega arith

-- A word written at `p / 64` whose bits are those of the old word but at `p % 64`.
page_bit-write_word :
    (bm : Bitmap) (p j w b : ℕ)
    → bit_at w (p % 64) ≡ b
    → (j % 64 ≢ p % 64 → bit_at w (j % 64) ≡ bit_at (bm (p / 64)) (j % 64))
    → page_bit (write_word bm (p / 64) w) j ≡ (if j == p then b else page_bit bm j)
unfolding write_word
page_bit-write_word bm p j w b here there = elim (ℕ_discrete j p) [
  | yes same ↦ rw (same, ==_refl p, ==_refl (p / 64)) here
  | no other ↦ elim (ℕ_discrete (j / 64) (p / 64)) [
    | yes word ↦
        rw (ne→== j p other, (==_iff (j / 64) (p / 64)).1 word, word)
          (there (λ bit. other (same_page p j word bit)))
    | no word ↦ rw (ne→== j p other, ne→== (j / 64) (p / 64) word)
  ]
]

page_bit-mark_used :
    (bm : Bitmap) (page j : ℕ)
    → page < max_pages
    → page_bit (mark_used bm page) j ≡ (if j == page then 0 else page_bit bm j)
unfolding mark_used
page_bit-mark_used bm page j h = rw (lt→ltb page max_pages h) (
    page_bit-write_word bm page j _ 0 (bit_at-clear_self 64 _ (page % 64) (omega arith))
      (bit_at-clear_ne 64 _ (page % 64) (j % 64) (omega arith) (omega arith)))

page_bit-mark_free :
    (bm : Bitmap) (page j : ℕ)
    → page < max_pages
    → page_bit (mark_free bm page) j ≡ (if j == page then 1 else page_bit bm j)
unfolding mark_free
page_bit-mark_free bm page j h = rw (lt→ltb page max_pages h) (
    page_bit-write_word bm page j _ 1 (bit_at-set_self _ (page % 64))
      (bit_at-set_ne _ (page % 64) (j % 64)))

-- Marking a page used changes its own state and no other.
pub is_free-mark_used :
    (bm : Bitmap) (page j : ℕ)
    → page < max_pages
    → is_free (mark_used bm page) j ≡ (if j == page then false else is_free bm j)
is_free-mark_used bm page j h =
    rw (is_free_lem (mark_used bm page) j, is_free_lem bm j, page_bit-mark_used bm page j h)
      (elim (Bool-cases (j == page)) [
        | inl same ↦ rw same (and-false (ltb j max_pages))
        | inr other ↦ rw other
      ])
  where
    and-false : (b : Bool) → (b && false) ≡ false
    and-false true = refl
    and-false false = refl

pub is_free-mark_free :
    (bm : Bitmap) (page j : ℕ)
    → page < max_pages
    → is_free (mark_free bm page) j ≡ (if j == page then true else is_free bm j)
is_free-mark_free bm page j h =
    rw (is_free_lem (mark_free bm page) j, is_free_lem bm j, page_bit-mark_free bm page j h)
      (elim (Bool-cases (j == page)) [
        | inl same ↦ rw same (rw ((==_iff j page).0 same, lt→ltb page max_pages h))
        | inr other ↦ rw other
      ])

-- Every word is a `u64`.
abbrev pub Words : Bitmap → Type 0
Words bm = (i : ℕ) → bm i < 2 ^ 64

pub mark_used-Words : (bm : Bitmap) (page : ℕ) → Words bm → Words (mark_used bm page)
unfolding mark_used write_word
mark_used-Words bm page ws i =
    ground (arith, ws i, ws (page / 64), bit_and-le (bm (page / 64)) (mask_without 64 (page % 64)))

pub mark_free-Words : (bm : Bitmap) (page : ℕ) → Words bm → Words (mark_free bm page)
unfolding mark_free write_word
mark_free-Words bm page ws i =
    ground (arith, ws i, ws (page / 64), bit_or-pow-lt 64 (bm (page / 64)) (page % 64))

-- A free page is a page of the bitmap, with its bit set.
pub is_free-lt : (bm : Bitmap) (page : ℕ) → is_free bm page ≡ true → page < max_pages
unfolding is_free
is_free-lt bm page h = ground arith

pub is_free-beyond : (bm : Bitmap) (page : ℕ) → max_pages ≤ page → is_free bm page ≡ false
unfolding is_free
is_free-beyond bm page h = ground arith

pub mark_free-beyond : (bm : Bitmap) (page : ℕ) → max_pages ≤ page → mark_free bm page ≡ bm
unfolding mark_free
mark_free-beyond bm page h = ground arith

-- How many of the first `n` pages are free.
pub count_free : ℕ → Bitmap → ℕ
count_free zero bm = 0
count_free (suc n) bm = (if is_free bm n then 1 else 0) + count_free n bm

pub count_free-le : (n : ℕ) (bm : Bitmap) → count_free n bm ≤ n
unfolding count_free
count_free-le zero bm = omega arith
count_free-le (suc n) bm = ground (arith, count_free-le n bm)

pub count_free-none : (n : ℕ) (bm : Bitmap) → ((j : ℕ) → is_free bm j ≡ false) → count_free n bm ≡ 0
unfolding count_free
count_free-none zero bm used = refl
count_free-none (suc n) bm used = rw (used n, count_free-none n bm used)

-- Bitmaps that agree below `n` have as many free pages there.
pub count_free-same :
    (n : ℕ) (bm bm' : Bitmap)
    → ((j : ℕ) → j < n → is_free bm j ≡ is_free bm' j)
    → count_free n bm ≡ count_free n bm'
unfolding count_free
count_free-same zero bm bm' same = refl
count_free-same (suc n) bm bm' same =
    rw (same n (omega arith), count_free-same n bm bm' (λ j h. same j (omega arith)))

-- Where one free page of `bm` is used in `bm'`, and no other page differs, there is one fewer.
pub count_free-take :
    (n p : ℕ) (bm bm' : Bitmap)
    → p < n
    → is_free bm p ≡ true
    → ((j : ℕ) → is_free bm' j ≡ (if j == p then false else is_free bm j))
    → count_free n bm ≡ suc (count_free n bm')
unfolding count_free
count_free-take zero p bm bm' h free step = absurd (omega arith)
count_free-take (suc n) p bm bm' h free step = elim (ℕ_discrete n p) [
  | yes last ↦
      let taken : is_free bm' n ≡ false =
        step n ∙ ap (λ b. if b then false else is_free bm n) ((==_iff n p).1 last) in
      let was : is_free bm n ≡ true = rw last free in
      let rest : count_free n bm ≡ count_free n bm' =
        count_free-same n bm bm' (λ j hj. sym (step j ∙ untouched j (omega arith))) in
      rw (taken, was, rest) (omega arith)
  | no below ↦
      rw (step n, ne→== n p below, count_free-take n p bm bm' (omega arith) free step) (omega arith)
]
  where
    untouched : (j : ℕ) → j ≢ p → (if j == p then false else is_free bm j) ≡ is_free bm j
    untouched j ne = rw (ne→== j p ne)
