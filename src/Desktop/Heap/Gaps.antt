-- ===== src/Desktop/Heap/Gaps.antt =====
-- What is left of a block when a piece of it is taken: the gaps written as blocks, and the pointer to
-- them.
use rusty_penguin.Base.{
  ℕ, ◌+◌, ◌%◌, ◌^◌, ◌≤◌, ◌<◌, ◌≡◌, ◌≢◌, refl, ap, ◌∙◌, false, ◌||◌, ◌∷◌, if◌then◌else◌, ◌==◌,
  ==_iff, ne→==, leb, arith, Bool-cases, inl, inr, ℕ_discrete,
}
use rusty_penguin.Desktop.Heap.{Heap, Memory, poke, write, put_gap, relink}
use rusty_penguin.Desktop.Heap.Blocks.{
  Blocks, Chain, Sorted, in_block, free_at, total, Sorted-weaken, Chain-frame, poke_self, poke_ne,
  add64_lem, gap,
}

write_at :
    (m : Memory) (a s n : ℕ) → a + 8 < 2 ^ 64 → (write m a s n a ≡ s) × (write m a s n (a + 8) ≡ n)
unfolding write
write_at m a s n h =
    let e = add64_lem a 8 h in
    rw e (
      poke_ne (poke m a s) (a + 8) n a (omega arith) ∙ poke_self m a s,
      poke_self (poke m a s) (a + 8) n,
    )

pub write_ne :
    (m : Memory) (a s n x : ℕ) → a + 8 < 2 ^ 64 → x ≢ a → x ≢ a + 8 → write m a s n x ≡ m x
unfolding write
write_ne m a s n x h ne ne' =
    let e = add64_lem a 8 h in rw e (poke_ne (poke m a s) (a + 8) n x ne' ∙ poke_ne m a s x ne)

-- A block written in front of a chain.
pub Chain-write :
    (m : Memory) (p s top next : ℕ) (bs : Blocks)
    → p + 16 < 2 ^ 64
    → Sorted (p + 16) top bs
    → Chain m next bs
    → Chain (write m p s next) p ((p, s) ∷ bs)
Chain-write m p s top next bs h w c =
    let (size, link) = write_at m p s next (omega arith) in
    (
      refl,
      size,
      rw link (
          Chain-frame (p + 16) top next m (write m p s next) bs w
            (λ x lo. write_ne m p s next x (omega arith) (λ e. omega arith) (λ e. omega arith)) c),
    )

pub put_gap-Chain :
    (p n top : ℕ) (t : ℕ × Memory) (bs : Blocks)
    → p + 16 < 2 ^ 64
    → Sorted (p + n) top bs
    → Chain t.1 t.0 bs
    → Chain (put_gap p n t).1 (put_gap p n t).0 (gap p n bs)
unfolding put_gap gap
put_gap-Chain p n top t bs h w c = elim (Bool-cases (leb 16 n)) [
  | inl large ↦
      rw large (
        Chain-write t.1 p n top t.0 bs h (Sorted-weaken (p + n) (p + 16) top bs (ground arith) w) c)
  | inr small ↦ rw small c
]

pub put_gap-frame :
    (p n : ℕ) (t : ℕ × Memory) (x : ℕ)
    → p + 16 < 2 ^ 64
    → in_block p n x ≡ false
    → (put_gap p n t).1 x ≡ t.1 x
unfolding put_gap
put_gap-frame p n t x h out = elim (Bool-cases (leb 16 n)) [
  | inl large ↦
      rw large (write_ne t.1 p n t.0 x (omega arith) (λ e. ground arith) (λ e. ground arith))
  | inr small ↦ rw small
]

pub gap-Sorted :
    (lo top p n : ℕ) (bs : Blocks)
    → lo ≤ p
    → p % 16 ≡ 0
    → n % 16 ≡ 0
    → p + n ≤ top
    → Sorted (p + n + 1) top bs
    → Sorted lo top (gap p n bs)
unfolding gap
gap-Sorted lo top p n bs above aligned whole inside w = elim (Bool-cases (leb 16 n)) [
  | inl large ↦ rw large (
    record {
      above = above;
      aligned = aligned;
      whole = whole;
      room = ground arith;
      inside = inside;
    },
    w,
  )
  | inr small ↦ rw small (Sorted-weaken (p + n + 1) lo top bs (omega arith) w)
]

pub free_at-gap :
    (p n x : ℕ) (bs : Blocks)
    → n % 16 ≡ 0
    → free_at (gap p n bs) x ≡ (in_block p n x || free_at bs x)
unfolding gap free_at
free_at-gap p n x bs whole = elim (Bool-cases (leb 16 n)) [
  | inl large ↦ rw large
  | inr small ↦ rw small (ground arith)
]

pub total-gap : (p n : ℕ) (bs : Blocks) → n % 16 ≡ 0 → total (gap p n bs) ≡ n + total bs
unfolding gap total
total-gap p n bs whole = elim (Bool-cases (leb 16 n)) [
  | inl large ↦ rw large
  | inr small ↦ rw small (ground arith)
]

-- The pointer behind `prev`.
unfoldable pub link : Heap → ℕ → ℕ
link h prev = if prev == 0 then h.head else h.mem (prev + 8)

pub link_first : (h : Heap) (prev : ℕ) → prev ≡ 0 → link h prev ≡ h.head
unfolding link
link_first h prev e = ap (λ b. if b then h.head else h.mem (prev + 8)) ((==_iff prev 0).1 e)

pub link_later : (h : Heap) (prev : ℕ) → prev ≢ 0 → link h prev ≡ h.mem (prev + 8)
unfolding link
link_later h prev ne = ap (λ b. if b then h.head else h.mem (prev + 8)) (ne→== prev 0 ne)

-- What `relink` changes: that pointer, and the memory given.
pub record Relinked (h : Heap) (prev : ℕ) (m : Memory) (bs : Blocks) (h' : Heap) : Type 0 where
  pub leads : Chain h'.mem (link h' prev) bs
  pub frame : (x : ℕ) → (prev ≢ 0 → x ≢ prev + 8) → h'.mem x ≡ m x
  pub head : prev ≢ 0 → h'.head ≡ h.head
  pub live : h'.live ≡ h.live
  pub base : h'.base ≡ h.base
  pub top : h'.end ≡ h.end

pub relink-Relinked :
    (h : Heap) (prev lo top : ℕ) (t : ℕ × Memory) (bs : Blocks)
    → prev + 8 < 2 ^ 64
    → (prev ≢ 0 → prev + 16 ≤ lo)
    → Sorted lo top bs
    → Chain t.1 t.0 bs
    → Relinked h prev t.1 bs (relink h prev t)
unfolding relink
relink-Relinked h prev lo top t bs fits low w c = elim (ℕ_discrete prev 0) [
  | yes first ↦ rw ((==_iff prev 0).1 first) (record {
    leads = rw (link_first (record h { head = t.0; mem = t.1 }) prev first) c;
    frame = λ x ne. refl;
    head = λ ne. absurd (ne first);
    live = refl;
    base = refl;
    top = refl;
  })
  | no later ↦
      rw (ne→== prev 0 later, add64_lem prev 8 fits)
        (record {
          leads =
              rw
                (
                  link_later (record h { mem = poke t.1 (prev + 8) t.0 }) prev later,
                  poke_self t.1 (prev + 8) t.0,
                )
                (Chain-frame lo top t.0 t.1 (poke t.1 (prev + 8) t.0) bs w
                  (λ x h. poke_ne t.1 (prev + 8) t.0 x (λ e. let l = low later in omega arith)) c);
          frame = λ x ne. poke_ne t.1 (prev + 8) t.0 x (ne later);
          head = λ ne. refl;
          live = refl;
          base = refl;
          top = refl;
        })
]
