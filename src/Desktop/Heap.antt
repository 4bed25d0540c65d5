-- ===== src/Desktop/Heap.antt =====
-- desktop-metal/src/heap.rs: the free-list heap. Memory is a function from addresses to the 64-bit
-- words stored there; all accesses are at multiples of 8. A function that changes the heap returns
-- the new one; a walk along the list runs on fuel and returns none where it runs out.
pub mod Align
pub mod Blocks
pub mod Gaps
pub mod Fit
pub mod Alloc
pub mod Valid
pub mod Insert
pub mod Merge
pub mod Dealloc
mod Tests
use Prim.Native.Nat.{bit_and}
use rusty_penguin.Base.{
  ℕ, zero, suc, ◌+◌, ◌-◌, ◌*◌, ◌^◌, ◌%◌, Bool, true, false, ◌&&◌, not, Option, none, some,
  if◌then◌else◌, ◌==◌, ltb, leb, map,
}

abbrev pub hdr : ℕ
hdr = 16

-- `ALIGN`
abbrev pub min_align : ℕ
min_align = 16

-- `usize` arithmetic, which wraps.
abbrev pub add64 : ℕ → ℕ → ℕ
add64 a b = (a + b) % 2 ^ 64

abbrev pub sub64 : ℕ → ℕ → ℕ
sub64 a b = (a + 2 ^ 64 - b) % 2 ^ 64

unfoldable pub align_up : ℕ → ℕ → ℕ
align_up x a = bit_and (sub64 (add64 x a) 1) (2 ^ 64 - 1 - (a - 1))

unfoldable pub round_block : ℕ → ℕ
round_block size = align_up (if ltb size hdr then hdr else size) min_align

abbrev pub Memory : Type 0
Memory = ℕ → ℕ

pub record Heap : Type 0 where
  pub head : ℕ
  pub base : ℕ
  pub end : ℕ
  pub live : ℕ
  pub mem : Memory

unfoldable pub poke : Memory → ℕ → ℕ → Memory
poke m a x b = if b == a then x else m b

abbrev pub size_of : Memory → ℕ → ℕ
size_of m a = m a

abbrev pub next_of : Memory → ℕ → ℕ
next_of m a = m (add64 a 8)

abbrev pub set_next : Memory → ℕ → ℕ → Memory
set_next m a x = poke m (add64 a 8) x

unfoldable pub write : Memory → ℕ → ℕ → ℕ → Memory
write m a size next = set_next (poke m a size) a next

unfoldable pub init : Memory → ℕ → ℕ → Heap
init m base size =
    let size' = bit_and size (2 ^ 64 - 1 - (min_align - 1)) in
    record {
      head = base;
      base = base;
      end = add64 base size';
      live = 0;
      mem = write m base size' 0;
    }

-- A gap of `n` bytes at `a` put in front of `chain`, if a header fits in it.
unfoldable pub put_gap : ℕ → ℕ → ℕ × Memory → ℕ × Memory
put_gap a n t = if leb hdr n then (a, write t.1 a n t.0) else t

-- The pointer that leads to the place behind `prev`, set to `chain`.
unfoldable pub relink : Heap → ℕ → ℕ × Memory → Heap
relink h prev t =
    if prev == 0
    then record h { head = t.0; mem = t.1 }
    else record h { mem = set_next t.1 prev t.0 }

-- The block `cur`, with `need` bytes taken at `payload`.
unfoldable pub take_block : Heap → ℕ → ℕ → ℕ → ℕ → Heap
take_block h need prev cur payload =
    let cend = add64 cur (size_of h.mem cur) in
    let taken = add64 payload need in
    let tail = put_gap taken (sub64 cend taken) (next_of h.mem cur, h.mem) in
    let h' = relink h prev (put_gap cur (sub64 payload cur) tail) in
    record h' { live = add64 h'.live need }

-- The loop of `alloc`; 0 stands for no memory.
unfoldable pub alloc_from : ℕ → Heap → ℕ → ℕ → ℕ → ℕ → Option (ℕ × Heap)
alloc_from zero h align need prev cur = none
alloc_from (suc fuel) h align need prev cur = elim (cur == 0) [
  | true ↦ some (0, h)
  | false ↦
      let payload = align_up cur align in
      elim (leb (add64 payload need) (add64 cur (size_of h.mem cur))) [
        | true ↦ some (payload, take_block h need prev cur payload)
        | false ↦ alloc_from fuel h align need cur (next_of h.mem cur)
      ]
]

-- Addresses go up along the list, so `end` rounds are enough.
unfoldable pub alloc : Heap → ℕ → ℕ → Option (ℕ × Heap)
alloc h size align =
    alloc_from (suc h.end) h (if ltb align min_align then min_align else align) (round_block size) 0
      h.head

-- (prev, cur) of `dealloc`.
unfoldable pub locate : ℕ → Memory → ℕ → ℕ → ℕ → Option (ℕ × ℕ)
locate zero m ptr prev cur = none
locate (suc fuel) m ptr prev cur = elim (not (cur == 0) && ltb cur ptr) [
  | true ↦ locate fuel m ptr cur (next_of m cur)
  | false ↦ some (prev, cur)
]

-- The block at `ptr` put behind `prev`.
unfoldable pub put_block : Heap → ℕ → ℕ → ℕ → ℕ → Heap
put_block h prev ptr size next = relink h prev (ptr, write h.mem ptr size next)

unfoldable pub coalesce : Heap → ℕ → ℕ → ℕ × ℕ → Heap
coalesce h ptr need (prev, cur) =
    let m = h.mem in
    let cur_adj = not (cur == 0) && (add64 ptr need == cur) in
    if not (prev == 0) && (add64 prev (size_of m prev) == ptr)
    then if cur_adj
      then record h {
        mem = write m prev (add64 (add64 (size_of m prev) need) (size_of m cur)) (next_of m cur);
      }
      else record h { mem = poke m prev (add64 (size_of m prev) need) }
    else if cur_adj
    then put_block h prev ptr (add64 need (size_of m cur)) (next_of m cur)
    else put_block h prev ptr need cur

unfoldable pub dealloc : Heap → ℕ → ℕ → Option Heap
dealloc h ptr size =
    if ptr == 0
    then some h
    else let need = round_block size in
      let h' = record h { live = sub64 h.live need } in
      elim (locate (suc h.end) h.mem ptr 0 h.head) [
        | none ↦ none
        | some place ↦ some (coalesce h' ptr need place)
      ]
