-- ===== src/Pmm/Free.antt =====
-- `free_frame`, alone and after `alloc_frame`.
use rusty_penguin.Base.{
  ◌+◌, ◌^◌, ℕ, ◌*◌, ◌/◌, ◌≤◌, ◌<◌, ◌≡◌, ap, sym, ◌∙◌, subst, inl, inr, true, not, Option, none,
  some, if◌then◌else◌, ◌==◌, ==_refl, ne→==, arith, Bool-cases, ℕ_discrete,
}
use rusty_penguin.Pmm.{
  Pmm, page_size, max_pages, max_phys, add64, mark_free, is_free, alloc_frame, free_frame,
}
use rusty_penguin.Pmm.Bitmap.{
  is_free-mark_free, is_free-lt, is_free-beyond, mark_free-beyond, count_free, count_free-le,
  count_free-same,
}
use rusty_penguin.Pmm.Valid.{IsValid, give_page}
use rusty_penguin.Pmm.Frames.{Taken, alloc_frame_lem}

-- Giving back a frame below 4 GiB keeps the invariant: its page is free afterwards, and no other page
-- changes.
pub free_frame_lem :
    (s : Pmm) (addr : ℕ)
    → IsValid s
    → addr < max_phys
    → IsValid (free_frame s addr)
      × ((j : ℕ)
          → is_free (free_frame s addr).bitmap j
            ≡ (if j == addr / page_size then true else is_free s.bitmap j))
unfolding free_frame
free_frame_lem s addr v h = elim (Bool-cases (is_free s.bitmap (addr / page_size))) [
  | inl already ↦ rw already (v, λ j. still j already)
  | inr used ↦ rw used (
    give_page s (addr / page_size) v (omega arith) used,
    λ j. is_free-mark_free s.bitmap (addr / page_size) j (omega arith),
  )
]
  where
    still :
        (j : ℕ)
        → is_free s.bitmap (addr / page_size) ≡ true
        → is_free s.bitmap j ≡ (if j == addr / page_size then true else is_free s.bitmap j)
    still j already = elim (ℕ_discrete j (addr / page_size)) [
      | yes here ↦ rw (here, ==_refl (addr / page_size)) already
      | no there ↦ rw (ne→== j (addr / page_size) there)
    ]

already_free :
    (s : Pmm) (addr : ℕ) → is_free s.bitmap (addr / page_size) ≡ true → free_frame s addr ≡ s
unfolding free_frame
already_free s addr h = ap (λ b. if not b then given else s) h
  where
    given : Pmm
    given = record s {
      bitmap = mark_free s.bitmap (addr / page_size);
      free_frames = add64 s.free_frames 1;
    }

-- Freeing a frame a second time changes nothing.
pub free_frame_twice :
    (s : Pmm) (addr : ℕ)
    → IsValid s
    → addr < max_phys
    → free_frame (free_frame s addr) addr ≡ free_frame s addr
free_frame_twice s addr v h =
    let (_, after) = free_frame_lem s addr v h in
    already_free (free_frame s addr) addr (after (addr / page_size) ∙ here)
  where
    here :
        (if addr / page_size == addr / page_size then true else is_free s.bitmap (addr / page_size))
        ≡ true
    here = rw (==_refl (addr / page_size))

-- `free_frame` on the frame that a call returned restores the free pages and the counter of `s`.
abbrev Restores : Pmm → Option ℕ × Pmm → Type 0
Restores s (none, s') = Unit {0}
Restores s (some addr, s') =
    ((j : ℕ) → is_free (free_frame s' addr).bitmap j ≡ is_free s.bitmap j)
    × ((free_frame s' addr).free_frames ≡ s.free_frames)

Taken-Restores :
    (s : Pmm) (page : ℕ) (s' : Pmm)
    → IsValid s
    → Taken s page s'
    → Restores s (some (page * page_size), s')
Taken-Restores s page s' v t =
    let inside = is_free-lt s.bitmap page t.was_free in
    let (valid, after) = free_frame_lem s' (page * page_size) t.valid (omega arith) in
    let same = λ (j : ℕ). after j ∙ undone j in
    (same, valid.counted ∙ count_free-same max_pages _ s.bitmap (λ j h. same j) ∙ sym v.counted)
  where
    page_of : page * page_size / page_size ≡ page
    page_of = omega arith

    undone :
        (j : ℕ)
        → (if j == page * page_size / page_size then true else is_free s'.bitmap j)
          ≡ is_free s.bitmap j
    undone j =
        rw (page_of, t.after j)
          (elim (ℕ_discrete j page) [
            | yes here ↦ rw (here, ==_refl page) (sym t.was_free)
            | no there ↦ rw (ne→== j page there)
          ])

-- A frame taken and given back is free again, and so are exactly the pages that were.
pub free_frame-alloc_frame :
    (s : Pmm) (addr : ℕ) (s' : Pmm)
    → IsValid s
    → s.ready ≡ true
    → alloc_frame s ≡ (some addr, s')
    → ((j : ℕ) → is_free (free_frame s' addr).bitmap j ≡ is_free s.bitmap j)
      × ((free_frame s' addr).free_frames ≡ s.free_frames)
free_frame-alloc_frame s addr s' v r run = subst (Restores s) run (elim (alloc_frame_lem s v r) [
  | inl (_, e) ↦ rw e tt
  | inr (page, t, e, taken) ↦ rw e (Taken-Restores s page t v taken)
])

-- On a valid allocator an address at or above 4 GiB is not refused: the counter goes up by one while
-- the pages that are free stay the same, so the invariant is lost.
pub free_frame_beyond :
    (s : Pmm) (addr : ℕ)
    → IsValid s
    → max_phys ≤ addr
    → ((free_frame s addr).free_frames ≡ s.free_frames + 1)
      × ((j : ℕ) → is_free (free_frame s addr).bitmap j ≡ is_free s.bitmap j)
      × (¬ IsValid (free_frame s addr))
unfolding free_frame
free_frame_beyond s addr v h =
    let e : free_frame s addr ≡ record s { free_frames = add64 s.free_frames 1 } =
      ap (λ b. if not b then given else s)
        (is_free-beyond s.bitmap (addr / page_size) (omega arith))
      ∙ ap (λ bm. record s { bitmap = bm; free_frames = add64 s.free_frames 1 })
          (mark_free-beyond s.bitmap (addr / page_size) (omega arith)) in
    let few : s.free_frames < 2 ^ 32 = omega (arith, v.counted, count_free-le max_pages s.bitmap) in
    let up : (free_frame s addr).free_frames ≡ s.free_frames + 1 =
      omega (arith, ap (λ (t : Pmm). t.free_frames) e) in
    (
      up,
      λ j. ap (λ (t : Pmm). is_free t.bitmap j) e,
      λ w.
          omega
            (arith, v.counted, up, ap (λ (t : Pmm). count_free max_pages t.bitmap) e, w.counted),
    )
  where
    given : Pmm
    given = record s {
      bitmap = mark_free s.bitmap (addr / page_size);
      free_frames = add64 s.free_frames 1;
    }
