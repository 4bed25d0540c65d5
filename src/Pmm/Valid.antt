-- ===== src/Pmm/Valid.antt =====
-- The invariant of the allocator, kept when one page is taken or given back.
use rusty_penguin.Base.{
  ℕ, suc, ◌<◌, ◌≡◌, ap, ◌∙◌, true, false, if◌then◌else◌, ◌==◌, ==_refl, ne→==, arith, ℕ_discrete,
}
use rusty_penguin.Pmm.{Pmm, max_pages, sub64, add64, mark_free, mark_used, is_free}
use rusty_penguin.Pmm.Bitmap.{
  is_free-mark_used, is_free-mark_free, is_free-lt, Words, mark_used-Words, mark_free-Words,
  count_free, count_free-le, count_free-take,
}

-- The words are words, and the counter is the number of free pages.
pub record IsValid (s : Pmm) : Type 0 where
  pub words : Words s.bitmap
  pub counted : s.free_frames ≡ count_free max_pages s.bitmap

-- Taking a free page keeps the invariant and counts it.
pub take_page :
    (s : Pmm) (page : ℕ)
    → IsValid s
    → is_free s.bitmap page ≡ true
    → (s.free_frames ≡ suc (sub64 s.free_frames 1))
      × IsValid (record s { bitmap = mark_used s.bitmap page; free_frames = sub64 s.free_frames 1 })
take_page s page v free =
    let inside = is_free-lt s.bitmap page free in
    let fewer =
      count_free-take max_pages page s.bitmap (mark_used s.bitmap page) inside free
        (λ j. is_free-mark_used s.bitmap page j inside) in
    let bound = count_free-le max_pages s.bitmap in
    (
      omega (arith, v.counted),
      record { words = mark_used-Words s.bitmap page v.words; counted = omega (arith, v.counted) },
    )

-- Giving back a used page keeps the invariant.
pub give_page :
    (s : Pmm) (page : ℕ)
    → IsValid s
    → page < max_pages
    → is_free s.bitmap page ≡ false
    → IsValid (record s { bitmap = mark_free s.bitmap page; free_frames = add64 s.free_frames 1 })
give_page s page v inside used =
    let given : is_free (mark_free s.bitmap page) page ≡ true =
      is_free-mark_free s.bitmap page page inside
      ∙ ap (λ b. if b then true else is_free s.bitmap page) (==_refl page) in
    let more =
      count_free-take max_pages page (mark_free s.bitmap page) s.bitmap inside given back in
    let bound = count_free-le max_pages (mark_free s.bitmap page) in
    record { words = mark_free-Words s.bitmap page v.words; counted = omega (arith, v.counted) }
  where
    back :
        (j : ℕ)
        → is_free s.bitmap j ≡ (if j == page then false else is_free (mark_free s.bitmap page) j)
    back j = elim (ℕ_discrete j page) [
      | yes here ↦ rw (here, ==_refl page) used
      | no there ↦ rw (is_free-mark_free s.bitmap page j inside, ne→== j page there)
    ]
