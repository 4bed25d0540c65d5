-- ===== src/Desktop/Heap/Insert.antt =====
-- The list of blocks when a region is given back.
use rusty_penguin.Base.{
  ℕ, ◌+◌, ◌%◌, ◌≤◌, ◌<◌, ◌≡◌, refl, ◌∙◌, true, false, ◌||◌, [], ◌∷◌, if◌then◌else◌, ◌==◌, ==_iff,
  ne→==, ltb, arith, Bool-cases, inl, inr, ℕ_discrete,
}
use rusty_penguin.Desktop.Heap.Blocks.{
  Blocks, IsBlock, Sorted, in_block, free_at, total, Sorted-weaken,
}

-- A block put in front of others, one with the first of them where they touch.
unfoldable pub join : ℕ → ℕ → Blocks → Blocks
join p s [] = (p, s) ∷ []
join p s ((q, t) ∷ bs) = if p + s == q then (p, s + t) ∷ bs else (p, s) ∷ (q, t) ∷ bs

unfoldable pub free_block : ℕ → ℕ → Blocks → Blocks
free_block a n [] = (a, n) ∷ []
free_block a n ((p, s) ∷ bs) =
    let rest = free_block a n bs in if ltb p a then join p s rest else join a n ((p, s) ∷ bs)

pub join-Sorted :
    (lo top p s : ℕ) (bs : Blocks)
    → IsBlock lo top p s
    → Sorted (p + s) top bs
    → Sorted lo top (join p s bs)
unfolding join
join-Sorted lo top p s [] b w = (b, tt)
join-Sorted lo top p s ((q, t) ∷ bs) b (c, w) = elim (ℕ_discrete (p + s) q) [
  | yes touch ↦
      let whole = b.whole in
      let whole' = c.whole in
      let room = b.room in
      let inside = c.inside in
      rw ((==_iff (p + s) q).1 touch) (
        record {
          above = b.above;
          aligned = b.aligned;
          whole = omega arith;
          room = omega arith;
          inside = omega arith;
        },
        Sorted-weaken (q + t + 1) (p + (s + t) + 1) top bs (omega arith) w,
      )
  | no apart ↦
      let above = c.above in
      rw (ne→== (p + s) q apart) (
        b,
        (
          record {
            above = omega arith;
            aligned = c.aligned;
            whole = c.whole;
            room = c.room;
            inside = c.inside;
          },
          w,
        ),
      )
]

pub free_at-join :
    (p s x : ℕ) (bs : Blocks) → free_at (join p s bs) x ≡ (in_block p s x || free_at bs x)
unfolding join free_at
free_at-join p s x [] = refl
free_at-join p s x ((q, t) ∷ bs) = elim (ℕ_discrete (p + s) q) [
  | yes touch ↦ rw ((==_iff (p + s) q).1 touch) (ground arith)
  | no apart ↦ rw (ne→== (p + s) q apart)
]

total-join : (p s : ℕ) (bs : Blocks) → total (join p s bs) ≡ s + total bs
unfolding join total
total-join p s [] = refl
total-join p s ((q, t) ∷ bs) = elim (Bool-cases (p + s == q)) [
  | inl touch ↦ rw touch (omega arith)
  | inr apart ↦ rw apart
]

pub join_apart : (p s top : ℕ) (bs : Blocks) → Sorted (p + s + 1) top bs → join p s bs ≡ (p, s) ∷ bs
unfolding join
join_apart p s top [] w = refl
join_apart p s top ((q, t) ∷ bs) (c, w) = let above = c.above in rw (ne→== (p + s) q (omega arith))

-- A region of the arena that the blocks do not cover.
pub record Region (top a n : ℕ) (bs : Blocks) : Type 0 where
  pub aligned : a % 16 ≡ 0
  pub whole : n % 16 ≡ 0
  pub room : 16 ≤ n
  pub inside : a + n ≤ top
  pub used : (x : ℕ) → in_block a n x ≡ true → free_at bs x ≡ false

module _ (top a n : ℕ) where
  -- The region lies behind a block that starts before it, and in front of one that does not.
  pub after_block :
      (lo p s : ℕ) (bs : Blocks)
      → IsBlock lo top p s
      → Region top a n ((p, s) ∷ bs)
      → p < a
      → p + s ≤ a
  unfolding free_at
  after_block lo p s bs b r lt = let room = r.room in ground (arith, r.used a)

  pub before_block :
      (lo p s : ℕ) (bs : Blocks)
      → IsBlock lo top p s
      → Region top a n ((p, s) ∷ bs)
      → a ≤ p
      → a + n ≤ p
  unfolding free_at
  before_block lo p s bs b r le = let room = b.room in ground (arith, r.used p)

  pub Region-tail : (p s : ℕ) (bs : Blocks) → Region top a n ((p, s) ∷ bs) → Region top a n bs
  unfolding free_at
  Region-tail p s bs r = record {
    aligned = r.aligned;
    whole = r.whole;
    room = r.room;
    inside = r.inside;
    used = λ x h. ground (arith, r.used x h);
  }

  pub Region-IsBlock : (lo : ℕ) (bs : Blocks) → lo ≤ a → Region top a n bs → IsBlock lo top a n
  Region-IsBlock lo bs h r = record {
    above = h;
    aligned = r.aligned;
    whole = r.whole;
    room = r.room;
    inside = r.inside;
  }

  -- Giving the region back keeps the order, and frees its bytes and no others.
  pub record Inserted (lo : ℕ) (bs : Blocks) : Type 0 where
    pub sorted : Sorted lo top (free_block a n bs)
    pub after : (x : ℕ) → free_at (free_block a n bs) x ≡ (in_block a n x || free_at bs x)
    pub counted : total (free_block a n bs) ≡ n + total bs

  pub free_block-Inserted :
      (lo : ℕ) (bs : Blocks) → lo ≤ a → Sorted lo top bs → Region top a n bs → Inserted lo bs
  unfolding free_block free_at total
  free_block-Inserted lo [] h w r = record {
    sorted = (Region-IsBlock lo [] h r, tt);
    after = λ x. refl;
    counted = refl;
  }
  free_block-Inserted lo ((p, s) ∷ bs) h (b, w) r = elim (Bool-cases (ltb p a)) [
    | inl lt ↦
        let behind = after_block lo p s bs b r (ground arith) in
        let i =
          free_block-Inserted (p + s) bs behind
            (Sorted-weaken (p + s + 1) (p + s) top bs (omega arith) w) (Region-tail p s bs r) in
        record {
          sorted = rw lt (join-Sorted lo top p s (free_block a n bs) b i.sorted);
          after = λ x. rw lt (free_at-join p s x (free_block a n bs) ∙ ground (arith, i.after x));
          counted = rw lt (omega (arith, total-join p s (free_block a n bs), i.counted));
        }
    | inr ge ↦
        let front = before_block lo p s bs b r (ground arith) in
        record {
          sorted = rw ge (
              join-Sorted lo top a n ((p, s) ∷ bs) (Region-IsBlock lo _ h r) (
                record {
                  above = front;
                  aligned = b.aligned;
                  whole = b.whole;
                  room = b.room;
                  inside = b.inside;
                },
                w,
              ));
          after = λ x. rw ge (free_at-join a n x ((p, s) ∷ bs));
          counted = rw ge (total-join a n ((p, s) ∷ bs));
        }
  ]
