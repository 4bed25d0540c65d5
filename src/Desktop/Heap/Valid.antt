-- ===== src/Desktop/Heap/Valid.antt =====
-- The invariant of the heap, and `alloc`.
use native.Mathlib.Nat.{pow-le-pow_right}
use rusty_penguin.Base.{
  ℕ, suc, max, ◌+◌, ◌%◌, ◌^◌, ◌≤◌, ◌<◌, ◌≡◌, refl, subst, ◌∙◌, ◌⊎◌, true, false, [], ◌∷◌, some,
  if◌then◌else◌, length, arith, inl, inr,
}
use rusty_penguin.Desktop.Heap.{Heap, round_block, alloc}
use rusty_penguin.Desktop.Heap.Align.{round_block-Rounded, least_align}
use rusty_penguin.Desktop.Heap.Blocks.{Blocks, Chain, Sorted, in_block, free_at, total}
use rusty_penguin.Desktop.Heap.Gaps.{link_first}
use rusty_penguin.Desktop.Heap.Fit.{Request, Fitted, fit-Fitted, fit-none}
use rusty_penguin.Desktop.Heap.Alloc.{Walked, alloc_from-Outcome}

-- The free list of the heap is the blocks `bs`: in address order, coalesced, inside the arena, and
-- with the bytes handed out they make up the whole of it.
pub record IsValid (h : Heap) (bs : Blocks) : Type 0 where
  pub chain : Chain h.mem h.head bs
  pub sorted : Sorted h.base h.end bs
  pub based : 16 ≤ h.base
  pub counted : h.base + total bs + h.live ≡ h.end
  pub small : h.end < 2 ^ 63

pub length-le-total : (lo top : ℕ) (bs : Blocks) → Sorted lo top bs → length bs ≤ total bs
unfolding total
length-le-total lo top [] w = omega arith
length-le-total lo top ((p, s) ∷ bs) (b, w) =
    let room = b.room in omega (arith, length-le-total (p + s + 1) top bs w)

-- `need` bytes at `a` are taken from the free blocks `bs`, which leaves `bs'`. Memory changes in free
-- blocks only.
pub record Allocated (k need : ℕ) (h : Heap) (bs : Blocks) (a : ℕ) (h' : Heap) (bs' : Blocks)
    : Type 0 where
  pub valid : IsValid h' bs'
  pub inside : (h.base ≤ a) × (a + need ≤ h.end)
  pub same_arena : (h'.base ≡ h.base) × (h'.end ≡ h.end)
  pub aligned : a % 2 ^ k ≡ 0
  pub sixteen : a % 16 ≡ 0
  pub were_free : (x : ℕ) → in_block a need x ≡ true → free_at bs x ≡ true
  pub after : (x : ℕ) → free_at bs' x ≡ (if in_block a need x then false else free_at bs x)
  pub live : h'.live ≡ h.live + need
  pub frame : (x : ℕ) → free_at bs x ≡ false → h'.mem x ≡ h.mem x

-- No aligned run of `need` free bytes.
abbrev pub NoRun : ℕ → ℕ → Blocks → Type 0
NoRun k need bs =
    (a : ℕ) → a % 2 ^ k ≡ 0 → ¬ ((x : ℕ) → in_block a need x ≡ true → free_at bs x ≡ true)

module _ (h : Heap) (bs : Blocks) (v : IsValid h bs) where
  Walked-Allocated :
      (k need a : ℕ) (h' : Heap) (bs' : Blocks) (req : Request k need h.end)
      → Fitted k need h.end req h.base bs a bs'
      → Walked h need 0 bs bs' h'
      → Allocated k need h bs a h' bs'
  Walked-Allocated k need a h' bs' req f d =
      let all = v.counted in
      let some_taken = f.counted in
      let small = v.small in
      let base = d.base in
      let top = d.top in
      let live : h'.live ≡ h.live + need = d.live ∙ omega arith in
      record {
        valid = record {
          chain = subst (λ c. Chain h'.mem c bs') (link_first h' 0 refl) d.leads;
          sorted = rw (base, top) f.sorted;
          based = rw base v.based;
          counted = omega arith;
          small = rw top small;
        };
        inside = (f.above, f.inside);
        same_arena = (base, top);
        aligned = f.multiple;
        sixteen = f.sixteen;
        were_free = f.were_free;
        after = f.after;
        live = live;
        frame = λ x out. d.frame x out (λ ne. absurd (ne refl));
      }

  -- On a valid heap, for an alignment `2 ^ k` and a size that keep sums below 2^64, `alloc` does not run
  -- out of rounds. It returns 0, changing nothing, only where no aligned run of enough free bytes
  -- exists; otherwise it returns an aligned address in the arena whose bytes were all free: these bytes
  -- and no others are free no more, they are counted, memory changes in free blocks only, and the heap
  -- is valid again. The bytes are the size rounded up.
  pub alloc_lem :
      (size k : ℕ)
      → k ≤ 62
      → size < 2 ^ 61
      → let need = round_block size in
        let j = max k 4 in
        (size ≤ need)
        × (((alloc h size (2 ^ k) ≡ some (0, h)) × NoRun j need bs)
            ⊎ ((a : ℕ) × (h' : Heap) × (bs' : Blocks) × (alloc h size (2 ^ k) ≡ some (a, h'))
                × Allocated j need h bs a h' bs'))
  unfolding alloc
  alloc_lem size k hk hs =
      let need = round_block size in
      let r = round_block-Rounded size (omega arith) in
      let j = max k 4 in
      let low : 4 ≤ j = omega arith in
      let high : j ≤ 62 = omega arith in
      let small = v.small in
      let base = v.based in
      let near = r.near in
      let pow = pow-le-pow_right {n = 2} (omega arith) {i = j} {j = 62} high in
      let req : Request j need h.end = record {
        align = (low, high);
        room = r.room;
        whole = r.whole;
        bounded = omega arith;
      } in
      let counted = v.counted in
      (
        r.holds,
        rw (least_align k)
            (elim (alloc_from-Outcome j need h.end req (suc h.end) h 0 h.head h.base bs v.sorted
              (omega arith) (link_first h 0 refl) v.chain
              (omega (arith, length-le-total h.base h.end bs v.sorted))) [
                | inl (nowhere, e) ↦
                    inl (e, λ a mult. fit-none j need h.end req h.base bs a v.sorted nowhere mult)
                | inr (a, bs', h', found, e, d) ↦ inr (
                  a,
                  h',
                  bs',
                  e,
                  Walked-Allocated j need a h' bs' req
                      (fit-Fitted j need h.end req h.base bs a bs' v.sorted found) d,
                )
              ]),
      )
