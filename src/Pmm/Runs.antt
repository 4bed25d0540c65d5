-- ===== src/Pmm/Runs.antt =====
-- `alloc_frames`: the first contiguous run of free pages above 1 MiB.
use rusty_penguin.Base.{
  ℕ, zero, suc, ◌+◌, ◌-◌, ◌*◌, ◌≤◌, ◌<◌, ◌≡◌, refl, ap, ◌∙◌, ◌⊎◌, inl, inr, true, false, not, ◌&&◌,
  ◌||◌, Option, none, some, if◌then◌else◌, ◌==◌, ne→==, ltb, leb, arith, Option-cases,
}
use rusty_penguin.Pmm.{
  Pmm, Bitmap, page_size, max_pages, sub64, mark_used, is_free, mark_run, find_run, take_run,
  alloc_frame, alloc_frames,
}
use rusty_penguin.Pmm.Bitmap.{
  is_free-mark_used, is_free-lt, Words, mark_used-Words, count_free, count_free-le, count_free-take,
}
use rusty_penguin.Pmm.Valid.{IsValid}
use rusty_penguin.Base.Runs.{FreeRange, Scanning, first_run-some, first_run-none, first_run-first}

-- Marking a run of free pages uses exactly those, and counts them.
record Marked (bm : Bitmap) (n page : ℕ) (bm' : Bitmap) : Type 0 where
  words : Words bm'
  counted : count_free max_pages bm ≡ n + count_free max_pages bm'
  state : (j : ℕ) → is_free bm' j ≡ (if leb page j && ltb j (page + n) then false else is_free bm j)

mark_run-Marked :
    (n page : ℕ) (bm : Bitmap)
    → Words bm
    → FreeRange (is_free bm) page n
    → Marked bm n page (mark_run n page bm)
unfolding mark_run
mark_run-Marked zero page bm ws all = record {
  words = ws;
  counted = omega arith;
  state = λ j. ground arith;
}
mark_run-Marked (suc n) page bm ws all =
    let here = all page (omega arith) (omega arith) in
    let inside = is_free-lt bm page here in
    let one = λ (j : ℕ). is_free-mark_used bm page j inside in
    let m =
      mark_run-Marked n (page + 1) (mark_used bm page) (mark_used-Words bm page ws)
        (λ j lo hi. one j ∙ rest j lo hi) in
    record {
      words = m.words;
      counted =
          omega (
            arith,
            m.counted,
            count_free-take max_pages page bm (mark_used bm page) inside here one,
          );
      state = λ j. ground (arith, m.state j, one j);
    }
  where
    rest :
        (j : ℕ)
        → page + 1 ≤ j
        → j < page + 1 + n
        → (if j == page then false else is_free bm j) ≡ true
    rest j lo hi = rw (ne→== j page (omega arith)) (all j (omega arith) (omega arith))

-- The `n` pages from `start` on are taken from `s`, which leaves `s'`.
pub record RunTaken (s : Pmm) (n start : ℕ) (s' : Pmm) : Type 0 where
  pub above : 256 ≤ start
  pub below : start + n ≤ s.total_frames
  pub were_free : FreeRange (is_free s.bitmap) start n
  pub first : (q : ℕ) → 256 ≤ q → q < start → ¬ FreeRange (is_free s.bitmap) q n
  pub after :
      (j : ℕ)
      → is_free s'.bitmap j
        ≡ (if leb start j && ltb j (start + n) then false else is_free s.bitmap j)
  pub counter : s.free_frames ≡ s'.free_frames + n
  pub valid : IsValid s'

several_run :
    (s : Pmm) (n : ℕ)
    → s.ready ≡ true
    → 2 ≤ n
    → alloc_frames s n ≡ take_run s n (find_run n s.bitmap (s.total_frames - 256) 256 0 0)
unfolding alloc_frames
several_run s n r h =
    ap (λ b. if b || not s.ready then (none, s) else if n == 1 then alloc_frame s else found)
      (ne→== n 0 (omega arith))
    ∙ ap (λ b. if not b then (none, s) else if n == 1 then alloc_frame s else found) r
    ∙ ap (λ b. if b then alloc_frame s else found) (ne→== n 1 (omega arith))
  where
    found : Option ℕ × Pmm
    found = take_run s n (find_run n s.bitmap (s.total_frames - 256) 256 0 0)

-- With the allocator ready and valid, a request for two or more frames fails, changing nothing, only
-- where no run of that many free pages lies between page 256 and the total; otherwise it returns the
-- address of the first such run, marks exactly those pages used and counts them.
pub alloc_frames_lem :
    (s : Pmm) (n : ℕ)
    → IsValid s
    → s.ready ≡ true
    → 2 ≤ n
    → ((alloc_frames s n ≡ (none, s))
        × ((q : ℕ) → 256 ≤ q → q + n ≤ s.total_frames → ¬ FreeRange (is_free s.bitmap) q n))
      ⊎ ((start : ℕ) × (s' : Pmm) × (alloc_frames s n ≡ (some (start * page_size), s'))
          × RunTaken s n start s')
unfolding take_run find_run
alloc_frames_lem s n v r h =
    let step = several_run s n r h in
    elim (Option-cases (find_run n s.bitmap (s.total_frames - 256) 256 0 0)) [
      | inl absent ↦ inl (
        step ∙ ap (take_run s n) absent,
        λ q lo hi.
            first_run-none n (is_free s.bitmap) (s.total_frames - 256) 256 0 0 fresh absent q
              (omega arith) (omega arith),
      )
      | inr (start, found) ↦
          let (lo, hi, all) =
            first_run-some n (is_free s.bitmap) (s.total_frames - 256) 256 0 0 start fresh found in
          let m = mark_run-Marked n start s.bitmap v.words all in
          let bound = count_free-le max_pages s.bitmap in
          let fewer : s.free_frames ≡ sub64 s.free_frames n + n =
            omega (arith, v.counted, m.counted) in
          inr (
            start,
            record s { bitmap = mark_run n start s.bitmap; free_frames = sub64 s.free_frames n },
            step ∙ ap (take_run s n) found,
            record {
              above = omega arith;
              below = omega arith;
              were_free = all;
              first = λ q from before.
                  first_run-first n (is_free s.bitmap) (s.total_frames - 256) 256 0 0 start fresh
                    found q (omega arith) before;
              after = m.state;
              counter = fewer;
              valid = record {
                words = m.words;
                counted = omega (arith, v.counted, m.counted, fewer);
              };
            },
          )
    ]
  where
    fresh : Scanning n (is_free s.bitmap) 256 0 0
    fresh = record {
      shorter = omega arith;
      fits = omega arith;
      starts = λ ne. absurd (ne refl);
      seen = λ j lo hi. absurd (omega arith);
    }
