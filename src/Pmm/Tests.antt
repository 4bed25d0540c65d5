-- ===== src/Pmm/Tests.antt =====
-- Runs of the frame allocator, and the theorems at concrete states.
use rusty_penguin.Base.{
  ℕ, ◌+◌, ◌*◌, ◌%◌, ◌≤◌, ◌≡◌, refl, ap, sym, ◌∙◌, ◌⊎◌, Bool, true, false, ◌&&◌, none, some,
  if◌then◌else◌, ◌==◌, ltb, arith,
}
use rusty_penguin.Base.Bits.{bit_at-zero}
use rusty_penguin.Pmm.{
  Pmm, page_size, max_pages, max_phys, mark_free, is_free, trailing_zeros, first_word, alloc_frame,
  alloc_frames, free_frame, write_word,
}
use rusty_penguin.Pmm.Bitmap.{is_free_lem, count_free-none}
use rusty_penguin.Pmm.Valid.{IsValid}
use rusty_penguin.Base.Runs.{FreeRange}
use rusty_penguin.Pmm.Frames.{Taken, alloc_frame_lem}
use rusty_penguin.Pmm.Free.{
  free_frame_lem, free_frame_twice, free_frame-alloc_frame, free_frame_beyond,
}
use rusty_penguin.Pmm.Runs.{RunTaken, alloc_frames_lem}

-- No page is free.
abbrev full : Pmm
full = record { bitmap = λ i. 0; free_frames = 0; total_frames = 1024; ready = true }

no_page : (j : ℕ) → is_free full.bitmap j ≡ false
no_page j =
    is_free_lem full.bitmap j
    ∙ ap (λ b. ltb j max_pages && (b == 1)) (bit_at-zero (j % 64))
    ∙ and-false (ltb j max_pages)
  where
    and-false : (b : Bool) → (b && false) ≡ false
    and-false true = refl
    and-false false = refl

full-IsValid : IsValid full
full-IsValid = record {
  words = λ i. omega arith;
  counted = sym (count_free-none max_pages full.bitmap no_page);
}

-- Page 300 given back: the allocator with one free page.
one_free : Pmm
one_free = free_frame full (300 * page_size)

one_free-IsValid : IsValid one_free
unfolding one_free
one_free-IsValid = (free_frame_lem full (300 * page_size) full-IsValid (omega arith)).0

one_free_ready : one_free.ready ≡ true
unfolding one_free free_frame is_free mark_free write_word
one_free_ready = refl

-- Pages 300, 301 and 302 given back.
three_free : Pmm
unfolding one_free
three_free = free_frame (free_frame one_free (301 * page_size)) (302 * page_size)

three_free-IsValid : IsValid three_free
unfolding three_free
three_free-IsValid =
    (free_frame_lem _ (302 * page_size)
      (free_frame_lem one_free (301 * page_size) one_free-IsValid (omega arith)).0 (omega arith)).0

three_free_ready : three_free.ready ≡ true
unfolding three_free free_frame is_free mark_free write_word
three_free_ready = refl

alloc_frame_lem_example :
    (((p : ℕ) → is_free one_free.bitmap p ≡ false) × (alloc_frame one_free ≡ (none, one_free)))
    ⊎ ((page : ℕ) × (s' : Pmm) × (alloc_frame one_free ≡ (some (page * page_size), s'))
        × Taken one_free page s')
alloc_frame_lem_example = alloc_frame_lem one_free one_free-IsValid one_free_ready

alloc_frames_lem_example :
    ((alloc_frames three_free 3 ≡ (none, three_free))
      × ((q : ℕ)
          → 256 ≤ q
          → q + 3 ≤ three_free.total_frames
          → ¬ FreeRange (is_free three_free.bitmap) q 3))
    ⊎ ((start : ℕ) × (s' : Pmm) × (alloc_frames three_free 3 ≡ (some (start * page_size), s'))
        × RunTaken three_free 3 start s')
alloc_frames_lem_example =
    alloc_frames_lem three_free 3 three_free-IsValid three_free_ready (omega arith)

free_frame_lem_example :
    IsValid (free_frame full (300 * page_size))
    × ((j : ℕ)
        → is_free (free_frame full (300 * page_size)).bitmap j
          ≡ (if j == 300 then true else is_free full.bitmap j))
free_frame_lem_example = free_frame_lem full (300 * page_size) full-IsValid (omega arith)

free_frame_twice_case :
    free_frame (free_frame full (300 * page_size)) (300 * page_size)
    ≡ free_frame full (300 * page_size)
free_frame_twice_case = free_frame_twice full (300 * page_size) full-IsValid (omega arith)

free_frame_beyond_example :
    ((free_frame full max_phys).free_frames ≡ 0 + 1)
    × ((j : ℕ) → is_free (free_frame full max_phys).bitmap j ≡ is_free full.bitmap j)
    × (¬ IsValid (free_frame full max_phys))
free_frame_beyond_example = free_frame_beyond full max_phys full-IsValid (omega arith)

one_taken : alloc_frame one_free ≡ (some (300 * page_size), (alloc_frame one_free).1)
unfolding one_free alloc_frame free_frame is_free mark_free write_word first_word trailing_zeros
one_taken = refl

free_frame-alloc_frame_example :
    ((j : ℕ)
      → is_free (free_frame (alloc_frame one_free).1 (300 * page_size)).bitmap j
        ≡ is_free one_free.bitmap j)
    × ((free_frame (alloc_frame one_free).1 (300 * page_size)).free_frames ≡ one_free.free_frames)
free_frame-alloc_frame_example =
    free_frame-alloc_frame one_free (300 * page_size) (alloc_frame one_free).1 one_free-IsValid
      one_free_ready one_taken
