-- ===== src/Desktop/Heap/Dealloc.antt =====
-- `init` and `dealloc` on a valid heap, and `dealloc` after `alloc`.
use Prim.Native.Nat.{bit_and}
use rusty_penguin.Base.{
  ℕ, suc, max, ◌+◌, ◌-◌, ◌*◌, ◌/◌, ◌%◌, ◌^◌, ◌≤◌, ◌<◌, ◌≡◌, ◌≢◌, refl, ap, sym, subst, ◌∙◌, Bool,
  true, false, ◌||◌, [], ◌∷◌, some, if◌then◌else◌, ne→==, ltb, arith, inl, inr, dec_lt,
}
use rusty_penguin.Base.Bits.{bit_and-high_mask}
use rusty_penguin.Desktop.Heap.{
  Heap, Memory, add64, sub64, round_block, init, alloc, locate, coalesce, dealloc,
}
use rusty_penguin.Desktop.Heap.Align.{round_block-Rounded}
use rusty_penguin.Desktop.Heap.Blocks.{
  Blocks, IsBlock, Sorted, in_block, free_at, total, Sorted-weaken,
}
use rusty_penguin.Desktop.Heap.Gaps.{Chain-write}
use rusty_penguin.Desktop.Heap.Valid.{IsValid, length-le-total, Allocated, alloc_lem}
use rusty_penguin.Desktop.Heap.Insert.{free_block, Region, before_block, free_block-Inserted, join}
use rusty_penguin.Desktop.Heap.Merge.{Settled, settle_first, settle_from, walk_stop, walk_on}

-- Blocks in order fit in the arena.
total-Sorted : (lo top : ℕ) (bs : Blocks) → lo ≤ top → Sorted lo top bs → lo + total bs ≤ top
unfolding total
total-Sorted lo top [] h w = omega arith
total-Sorted lo top ((p, s) ∷ bs) h (b, w) =
    let above = b.above in
    let inside = b.inside in
    omega (
      arith,
      total-Sorted (p + s) top bs inside (Sorted-weaken (p + s + 1) (p + s) top bs (omega arith) w),
    )

-- `init` on a 16-aligned arena of at least 16 bytes that ends below 2^63 makes a valid heap with one
-- free block, the whole arena up to a multiple of 16.
pub init-IsValid :
    (m : Memory) (base size : ℕ)
    → 16 ≤ base
    → base % 16 ≡ 0
    → 16 ≤ size
    → base + size < 2 ^ 63
    → IsValid (init m base size) ((base, size / 16 * 16) ∷ [])
unfolding init total
init-IsValid m base size low aligned room small =
    let e : bit_and size (2 ^ 64 - 1 - (16 - 1)) ≡ size / 16 * 16 =
      bit_and-high_mask 64 4 size (omega arith) (omega arith) in
    let end : add64 base (size / 16 * 16) ≡ base + size / 16 * 16 = omega arith in
    rw (e, end)
      (record {
        chain =
            Chain-write m base (size / 16 * 16) (base + size / 16 * 16) 0 [] (omega arith) tt refl;
        sorted = (
          record {
            above = omega arith;
            aligned = aligned;
            whole = omega arith;
            room = omega arith;
            inside = omega arith;
          },
          tt,
        );
        based = low;
        counted = omega arith;
        small = omega arith;
      })

-- The region of `need` bytes at `ptr` is given back.
pub record Freed (h : Heap) (bs : Blocks) (ptr need : ℕ) (h' : Heap) : Type 0 where
  pub valid : IsValid h' (free_block ptr need bs)
  pub after : (x : ℕ) → free_at (free_block ptr need bs) x ≡ (in_block ptr need x || free_at bs x)
  pub live : h'.live + need ≡ h.live
  pub frame : (x : ℕ) → free_at bs x ≡ false → in_block ptr need x ≡ false → h'.mem x ≡ h.mem x

abbrev counted_down_of : Heap → ℕ → Heap
counted_down_of h need = record h { live = sub64 h.live need }

module _ (h : Heap) (bs : Blocks) (v : IsValid h bs) (ptr need : ℕ) (low : h.base ≤ ptr)
    (r : Region h.end ptr need bs) where
  Settled-Freed :
      (h' : Heap)
      → Settled (counted_down_of h need) need ptr bs (free_block ptr need bs) h'.head h'
      → Freed h bs ptr need h'
  Settled-Freed h' d =
      let i = free_block-Inserted h.end ptr need h.base bs low v.sorted r in
      let all = v.counted in
      let more = i.counted in
      let small = v.small in
      let inside = r.inside in
      let room = total-Sorted h.base h.end (free_block ptr need bs) (omega arith) i.sorted in
      let base = d.base in
      let top = d.top in
      let live = d.live in
      record {
        valid = record {
          chain = d.leads;
          sorted = rw (base, top) i.sorted;
          based = rw base v.based;
          counted = omega arith;
          small = rw top small;
        };
        after = i.after;
        live = omega arith;
        frame = d.frame;
      }

abbrev Located : Heap → Blocks → ℕ → ℕ → Type 0
Located h bs ptr need =
    (place : ℕ × ℕ) × (locate (suc h.end) h.mem ptr 0 h.head ≡ some place)
    × Settled (counted_down_of h need) need ptr bs (free_block ptr need bs)
        (coalesce (counted_down_of h need) ptr need place).head
        (coalesce (counted_down_of h need) ptr need place)

located :
    (h : Heap) (ptr need : ℕ) (bs : Blocks)
    → IsValid h bs
    → h.base ≤ ptr
    → Region h.end ptr need bs
    → Located h bs ptr need
unfolding free_block join
located h ptr need [] v low r =
    let based = v.based in
    (
      (0, h.head),
      walk_stop h ptr need h.end v.small h.end 0 h.head (inl v.chain),
      settle_first (counted_down_of h need) ptr need h.end v.small h.head [] (omega arith) r tt
          v.chain,
    )
located h ptr need ((p, s) ∷ bs) v low r =
    let based = v.based in
    let (b, w) = v.sorted in
    let (start, size, rest) = v.chain in
    let few = length-le-total h.base h.end ((p, s) ∷ bs) v.sorted in
    let counted = v.counted in
    let above = b.above in
    let room = b.room in
    let inside = b.inside in
    let small = v.small in
    elim (dec_lt p ptr) [
      | yes more ↦
          let nonzero : p ≢ 0 = omega arith in
          let next : add64 p 8 ≡ p + 8 = omega arith in
          let step =
            walk_on h ptr need h.end small h.end 0 h.head (subst (λ k. k ≢ 0) (sym start) nonzero)
              (subst (λ k. k < ptr) (sym start) more)
            ∙ ap (λ k. locate h.end h.mem ptr k (h.mem (add64 k 8))) start
            ∙ ap (λ k. locate h.end h.mem ptr p (h.mem k)) next in
          let (prev, cur, e, (d, hd)) =
            settle_from (counted_down_of h need) ptr need h.end small h.end p s h.base bs based
              (b, w) more r size rest (omega arith) in
          (
            (prev, cur),
            step ∙ e,
            subst
                (λ k.
                  Settled (counted_down_of h need) need ptr ((p, s) ∷ bs)
                    (free_block ptr need ((p, s) ∷ bs)) k
                    (coalesce (counted_down_of h need) ptr need (prev, cur)))
                (sym (hd ∙ start)) d,
          )
      | no stop ↦
          let front = before_block h.end ptr need h.base p s bs b r (omega arith) in
          let behind : IsBlock (ptr + need) h.end p s = record {
            above = front;
            aligned = b.aligned;
            whole = b.whole;
            room = b.room;
            inside = b.inside;
          } in
          (
            (0, h.head),
            walk_stop h ptr need h.end small h.end 0 h.head (inr (omega arith)),
            rw (ge→ltb p ptr stop) (
                settle_first (counted_down_of h need) ptr need h.end small h.head ((p, s) ∷ bs)
                  (omega arith) r (behind, w) v.chain),
          )
    ]
  where
    ge→ltb : (a b : ℕ) → ¬ (a < b) → ltb a b ≡ false
    ge→ltb a b h = ground arith

-- On a valid heap, `dealloc` of a region of the arena that holds no free byte, its size the request
-- rounded up, does not run out of rounds: the bytes of the region become free and no others, the free
-- list is in order and coalesced again, the count of bytes handed out goes down by the region's, and
-- memory changes only in free blocks and in the region.
pub dealloc_lem :
    (h : Heap) (bs : Blocks) (ptr size : ℕ)
    → IsValid h bs
    → h.base ≤ ptr
    → Region h.end ptr (round_block size) bs
    → (h' : Heap) × (dealloc h ptr size ≡ some h') × Freed h bs ptr (round_block size) h'
unfolding dealloc
dealloc_lem h bs ptr size v low r =
    let need = round_block size in
    let (place, e, d) = located h ptr need bs v low r in
    let based = v.based in
    let h' = coalesce (counted_down_of h need) ptr need place in
    (h', rw (ne→== ptr 0 (λ z. omega arith), e, dealloc), Settled-Freed h bs v ptr need low r h' d)

-- What `alloc` returned can be given back: then the same bytes are free as before, as many are handed
-- out, and the heap is valid. The alignment is a power of two up to 2^62, and the size is below 2^61.
pub dealloc-alloc :
    (h : Heap) (bs : Blocks) (size k a : ℕ) (h' : Heap)
    → IsValid h bs
    → k ≤ 62
    → size < 2 ^ 61
    → alloc h size (2 ^ k) ≡ some (a, h')
    → a ≢ 0
    → (h'' : Heap) × (bs'' : Blocks) × (dealloc h' a size ≡ some h'')
      × IsValid h'' bs''
      × ((x : ℕ) → free_at bs'' x ≡ free_at bs x)
      × (h''.live ≡ h.live)
dealloc-alloc h bs size k a h' v hk hs run ne = elim ((alloc_lem h bs v size k hk hs).1) [
  | inl (e, _) ↦
      let same : some (a, h') ≡ some (0, h) = sym run ∙ e in
      let zero' : a ≡ 0 = cc in absurd (ne zero')
  | inr (b, g, bs', e, t) ↦
      let same : some (b, g) ≡ some (a, h') = sym e ∙ run in
      let addr : b ≡ a = cc in
      let heap : g ≡ h' = cc in
      restored a h' bs' (
        subst (λ z. Allocated (max k 4) (round_block size) h bs z h' bs') addr
          (subst (λ z. Allocated (max k 4) (round_block size) h bs b z bs') heap t))
]
  where
    region :
        (a : ℕ) (h' : Heap) (bs' : Blocks)
        → Allocated (max k 4) (round_block size) h bs a h' bs'
        → h'.end ≡ h.end
        → Region h'.end a (round_block size) bs'
    region a h' bs' t top =
        let r = round_block-Rounded size (omega arith) in
        let (low, inside) = t.inside in
        record {
          aligned = t.sixteen;
          whole = r.whole;
          room = r.room;
          inside = omega arith;
          used = λ x i. t.after x ∙ ap (λ b. if b then false else free_at bs x) i;
        }

    restored :
        (a : ℕ) (h' : Heap) (bs' : Blocks)
        → Allocated (max k 4) (round_block size) h bs a h' bs'
        → (h'' : Heap) × (bs'' : Blocks) × (dealloc h' a size ≡ some h'')
          × IsValid h'' bs''
          × ((x : ℕ) → free_at bs'' x ≡ free_at bs x)
          × (h''.live ≡ h.live)
    restored a h' bs' t =
        let (low, inside) = t.inside in
        let (base, top) = t.same_arena in
        let (h'', e, f) =
          dealloc_lem h' bs' a size t.valid (subst (λ k. k ≤ a) (sym base) low)
            (region a h' bs' t top) in
        let up = t.live in
        let down = f.live in
        (
          h'',
          free_block a (round_block size) bs',
          e,
          f.valid,
          λ x.
              f.after x
              ∙ ap (λ b. in_block a (round_block size) x || b) (t.after x)
              ∙ again x (in_block a (round_block size) x) refl (t.were_free x),
          omega arith,
        )
      where
        again :
            (x : ℕ) (inside : Bool)
            → in_block a (round_block size) x ≡ inside
            → (in_block a (round_block size) x ≡ true → free_at bs x ≡ true)
            → (in_block a (round_block size) x
                || (if in_block a (round_block size) x then false else free_at bs x))
              ≡ free_at bs x
        again x true e was = rw e (sym (was e))
        again x false e was = rw e
