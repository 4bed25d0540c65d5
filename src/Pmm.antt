-- ===== src/Pmm.antt =====
-- kernel/src/pmm.rs: the physical frame allocator over a bitmap of 64-bit words, a set bit for a free
-- page. The statics are a record; a function that changes them returns the new record.
pub mod Bitmap
pub mod Scan
pub mod Valid
pub mod Frames
pub mod Free
pub mod Runs
mod Tests
use Prim.Native.Nat.{bit_and, bit_or}
use rusty_penguin.Base.{
  ℕ, zero, suc, ◌+◌, ◌-◌, ◌*◌, ◌/◌, ◌%◌, ◌^◌, min, Bool, true, false, not, ◌&&◌, ◌||◌, Option, none,
  some, if◌then◌else◌, ◌==◌, ltb, leb,
}
use rusty_penguin.Base.Bits.{mask_without}
use rusty_penguin.Base.Runs.{first_run}

abbrev pub page_size : ℕ
page_size = 4096

abbrev pub max_phys : ℕ
max_phys = 4 * 1024 * 1024 * 1024

abbrev pub max_pages : ℕ
max_pages = max_phys / page_size

abbrev pub bitmap_len : ℕ
bitmap_len = max_pages / 64

-- The words of `BITMAP`, by index.
abbrev pub Bitmap : Type 0
Bitmap = ℕ → ℕ

pub record Pmm : Type 0 where
  pub bitmap : Bitmap
  pub free_frames : ℕ
  pub total_frames : ℕ
  pub ready : Bool

-- `fetch_add` and `fetch_sub` on an `AtomicUsize`, which wrap.
abbrev pub add64 : ℕ → ℕ → ℕ
add64 a b = (a + b) % 2 ^ 64

abbrev pub sub64 : ℕ → ℕ → ℕ
sub64 a b = (a + 2 ^ 64 - b) % 2 ^ 64

unfoldable pub write_word : Bitmap → ℕ → ℕ → Bitmap
write_word bm i w j = if j == i then w else bm j

unfoldable pub mark_free : Bitmap → ℕ → Bitmap
mark_free bm page =
    if ltb page max_pages
    then write_word bm (page / 64) (bit_or (bm (page / 64)) (2 ^ (page % 64)))
    else bm

unfoldable pub mark_used : Bitmap → ℕ → Bitmap
mark_used bm page =
    if ltb page max_pages
    then write_word bm (page / 64) (bit_and (bm (page / 64)) (mask_without 64 (page % 64)))
    else bm

unfoldable pub is_free : Bitmap → ℕ → Bool
is_free bm page = ltb page max_pages && not (bit_and (bm (page / 64)) (2 ^ (page % 64)) == 0)

-- `w.trailing_zeros()`, looking at `n` bits.
unfoldable pub trailing_zeros : ℕ → ℕ → ℕ
trailing_zeros zero w = 0
trailing_zeros (suc n) w = elim (w % 2 == 1) [ true ↦ 0 | false ↦ suc (trailing_zeros n (w / 2)) ]

-- The loop of `alloc_frame`: the first word that is not 0, of the `left` words from `i` on.
unfoldable pub first_word : ℕ → ℕ → Bitmap → Option ℕ
first_word zero i bm = none
first_word (suc left) i bm = elim (bm i == 0) [ true ↦ first_word left (i + 1) bm | false ↦ some i ]

unfoldable pub take_first : Pmm → Option ℕ → Option ℕ × Pmm
take_first s none = (none, s)
take_first s (some i) =
    let page = i * 64 + trailing_zeros 64 (s.bitmap i) in
    (
      some (page * page_size),
      record s { bitmap = mark_used s.bitmap page; free_frames = sub64 s.free_frames 1 },
    )

unfoldable pub alloc_frame : Pmm → Option ℕ × Pmm
unfolding take_first
alloc_frame s = if s.ready then take_first s (first_word bitmap_len 0 s.bitmap) else (none, s)

-- `mark_used` on the `n` pages from `page` on.
unfoldable pub mark_run : ℕ → ℕ → Bitmap → Bitmap
mark_run zero page bm = bm
mark_run (suc n) page bm = mark_run n (page + 1) (mark_used bm page)

-- The loop of `alloc_frames`, over the `left` pages from `page` on: the start of the first run of
-- `n` free pages.
unfoldable pub find_run : ℕ → Bitmap → ℕ → ℕ → ℕ → ℕ → Option ℕ
find_run n bm left page start run = first_run n (is_free bm) left page start run

unfoldable pub take_run : Pmm → ℕ → Option ℕ → Option ℕ × Pmm
take_run s n none = (none, s)
take_run s n (some start) = (
  some (start * page_size),
  record s { bitmap = mark_run n start s.bitmap; free_frames = sub64 s.free_frames n },
)

unfoldable pub alloc_frames : Pmm → ℕ → Option ℕ × Pmm
unfolding take_run
alloc_frames s n =
    if (n == 0) || not s.ready
    then (none, s)
    else if n == 1
    then alloc_frame s
    else take_run s n (find_run n s.bitmap (s.total_frames - 256) 256 0 0)

unfoldable pub free_frame : Pmm → ℕ → Pmm
free_frame s addr =
    let page = addr / page_size in
    if not (is_free s.bitmap page)
    then record s { bitmap = mark_free s.bitmap page; free_frames = add64 s.free_frames 1 }
    else s

-- (free_frames, total_frames)
unfoldable pub stats : Pmm → ℕ × ℕ
stats s = (s.free_frames, s.total_frames)
