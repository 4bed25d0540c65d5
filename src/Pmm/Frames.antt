-- ===== src/Pmm/Frames.antt =====
-- `alloc_frame`: the lowest free page.
use mathlib.Core.Path.{ap₂}
use rusty_penguin.Base.{
  ℕ, suc, ◌+◌, ◌*◌, ◌/◌, ◌%◌, ◌<◌, ◌≡◌, ◌≢◌, ap, ◌∙◌, ◌⊎◌, inl, inr, true, false, none, some,
  if◌then◌else◌, ◌==◌, arith, Option-cases, ℕ_discrete, dec_lt,
}
use rusty_penguin.Base.Bits.{bit_at}
use rusty_penguin.Pmm.{
  Pmm, page_size, max_pages, bitmap_len, sub64, mark_used, is_free, trailing_zeros, first_word,
  take_first, alloc_frame,
}
use rusty_penguin.Pmm.Bitmap.{is_free-mark_used, is_free-lt, is_free-beyond}
use rusty_penguin.Pmm.Valid.{IsValid, take_page}
use rusty_penguin.Pmm.Scan.{
  trailing_zeros_lem, first_word-some, first_word-none, empty_page, zero_word, set_page,
}

-- `page` is taken from `s`, which leaves `s'`.
pub record Taken (s : Pmm) (page : ℕ) (s' : Pmm) : Type 0 where
  pub was_free : is_free s.bitmap page ≡ true
  pub lowest : (p : ℕ) → p < page → is_free s.bitmap p ≡ false
  pub after : (j : ℕ) → is_free s'.bitmap j ≡ (if j == page then false else is_free s.bitmap j)
  pub counter : s.free_frames ≡ suc s'.free_frames
  pub valid : IsValid s'

first_page :
    (s : Pmm) (i : ℕ)
    → IsValid s
    → i < bitmap_len
    → s.bitmap i ≢ 0
    → ((j : ℕ) → j < i → s.bitmap j ≡ 0)
    → let page = i * 64 + trailing_zeros 64 (s.bitmap i) in
      (is_free s.bitmap page ≡ true) × ((p : ℕ) → p < page → is_free s.bitmap p ≡ false)
first_page s i v h ne before =
    let (small, here, below) = trailing_zeros_lem 64 (s.bitmap i) (v.words i) ne in
    let z = trailing_zeros 64 (s.bitmap i) in
    let word : (i * 64 + z) / 64 ≡ i = omega arith in
    let place : (i * 64 + z) % 64 ≡ z = omega arith in
    (
      set_page s.bitmap (i * 64 + z) (omega arith)
          (ap₂ (λ w k. bit_at (s.bitmap w) k) word place ∙ here),
      λ p hp. elim (ℕ_discrete (p / 64) i) [
        | yes same ↦
            empty_page s.bitmap p
              (ap (λ w. bit_at (s.bitmap w) (p % 64)) same ∙ below (p % 64) (omega arith))
        | no other ↦ zero_word s.bitmap p (before (p / 64) (omega arith))
      ],
    )

ready_run :
    (s : Pmm) → s.ready ≡ true → alloc_frame s ≡ take_first s (first_word bitmap_len 0 s.bitmap)
unfolding alloc_frame
ready_run s r = ap (λ b. if b then take_first s (first_word bitmap_len 0 s.bitmap) else (none, s)) r

-- With the allocator ready and valid, `alloc_frame` fails exactly when no page is free, and changes
-- nothing then; otherwise it returns the address of the lowest free page, marks that page used and no
-- other, and counts it.
pub alloc_frame_lem :
    (s : Pmm)
    → IsValid s
    → s.ready ≡ true
    → (((p : ℕ) → is_free s.bitmap p ≡ false) × (alloc_frame s ≡ (none, s)))
      ⊎ ((page : ℕ) × (s' : Pmm) × (alloc_frame s ≡ (some (page * page_size), s'))
          × Taken s page s')
unfolding alloc_frame
alloc_frame_lem s v r = elim (Option-cases (first_word bitmap_len 0 s.bitmap)) [
  | inl empty ↦ inl (nothing_free empty, ready_run s r ∙ ap (take_first s) empty)
  | inr (i, found) ↦
      let (lo, hi, ne, before) = first_word-some bitmap_len 0 s.bitmap i found in
      let page = i * 64 + trailing_zeros 64 (s.bitmap i) in
      let (free, lowest) = first_page s i v hi ne (λ j h. before j (omega arith) h) in
      let (fewer, valid) = take_page s page v free in
      inr (
        page,
        record s { bitmap = mark_used s.bitmap page; free_frames = sub64 s.free_frames 1 },
        ready_run s r ∙ ap (take_first s) found,
        record {
          was_free = free;
          lowest = lowest;
          after = λ j. is_free-mark_used s.bitmap page j (is_free-lt s.bitmap page free);
          counter = fewer;
          valid = valid;
        },
      )
]
  where
    nothing_free : first_word bitmap_len 0 s.bitmap ≡ none → (p : ℕ) → is_free s.bitmap p ≡ false
    nothing_free empty p = elim (dec_lt p max_pages) [
      | yes h ↦
          zero_word s.bitmap p
            (first_word-none bitmap_len 0 s.bitmap empty (p / 64) (omega arith) (omega arith))
      | no h ↦ is_free-beyond s.bitmap p (omega arith)
    ]
