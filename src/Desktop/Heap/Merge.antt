-- ===== src/Desktop/Heap/Merge.antt =====
-- `dealloc` in memory does what `free_block` does on the list of blocks.
use rusty_penguin.Base.{
  ℕ, zero, suc, ◌+◌, ◌^◌, ◌≤◌, ◌<◌, ◌≡◌, ◌≢◌, refl, ap, sym, subst, ◌∙◌, ◌⊎◌, Bool, true, false,
  ◌&&◌, not, [], ◌∷◌, Option, some, if◌then◌else◌, ◌==◌, ==_iff, ne→==, ltb, length, arith,
  Bool-cases, inl, inr, ℕ_discrete, dec_lt, lt→ltb,
}
use rusty_penguin.Desktop.Heap.{
  Heap, Memory, add64, next_of, poke, write, relink, locate, put_block, coalesce,
}
use rusty_penguin.Desktop.Heap.Blocks.{
  Blocks, Chain, IsBlock, Sorted, in_block, free_at, Sorted-weaken, free_at-below, Chain-frame,
  add64_lem, poke_self, poke_ne,
}
use rusty_penguin.Desktop.Heap.Gaps.{Chain-write, write_ne, link_later, relink-Relinked}
use rusty_penguin.Desktop.Heap.Insert.{
  join, free_block, join-Sorted, join_apart, Region, after_block, before_block, Region-tail,
  Region-IsBlock, free_block-Inserted,
}

-- The heap after the blocks `bs` behind a place were changed to `out`, which the pointer `a` leads to.
pub record Settled (h : Heap) (n ptr : ℕ) (bs out : Blocks) (a : ℕ) (h' : Heap) : Type 0 where
  pub leads : Chain h'.mem a out
  pub frame : (x : ℕ) → free_at bs x ≡ false → in_block ptr n x ≡ false → h'.mem x ≡ h.mem x
  pub live : h'.live ≡ h.live
  pub base : h'.base ≡ h.base
  pub top : h'.end ≡ h.end

module _ (h : Heap) (ptr n top : ℕ) (small : top < 2 ^ 63) where
  -- The block that starts where the region ends.
  abbrev touching : ℕ → Bool
  touching cur = not (cur == 0) && (add64 ptr n == cur)

  abbrev merged : ℕ → Memory
  merged cur =
      if touching cur
      then write h.mem ptr (add64 n (h.mem cur)) (next_of h.mem cur)
      else write h.mem ptr n cur

  -- The region written in front of the blocks behind it.
  merged-Chain :
      (cur : ℕ) (bs : Blocks)
      → 16 ≤ ptr
      → Region top ptr n bs
      → Sorted (ptr + n) top bs
      → Chain h.mem cur bs
      → Chain (merged cur) ptr (join ptr n bs)
  unfolding join
  merged-Chain cur [] based r w c =
      let room = r.room in
      let inside = r.inside in
      let end : touching cur ≡ false = rw c in
      rw end (Chain-write h.mem ptr n top cur [] (omega arith) tt c)
  merged-Chain cur ((q, t) ∷ bs) based r (b, w) (start, size, rest) =
      let room = r.room in
      let inside = r.inside in
      let above = b.above in
      let within = b.inside in
      let troom = b.room in
      let sum : add64 ptr n ≡ ptr + n = omega arith in
      let next : add64 q 8 ≡ q + 8 = omega arith in
      let grown : add64 n t ≡ n + t = omega arith in
      let nonzero : q ≢ 0 = omega arith in
      rw (start, ne→== q 0 nonzero, sum, size, next, grown)
        (elim (Bool-cases (ptr + n == q)) [
          | inl touch ↦ rw touch (
              Chain-write h.mem ptr (n + t) top (h.mem (q + 8)) bs (omega arith)
                (Sorted-weaken (q + t + 1) (ptr + 16) top bs (omega arith) w) rest)
          | inr apart ↦ rw apart (
              Chain-write h.mem ptr n top q ((q, t) ∷ bs) (omega arith)
                (Sorted-weaken (ptr + n) (ptr + 16) top ((q, t) ∷ bs) (omega arith) (b, w))
                (refl, size, rest))
        ])

  merged-frame :
      (cur x : ℕ) → ptr + 16 < 2 ^ 64 → 16 ≤ n → in_block ptr n x ≡ false → merged cur x ≡ h.mem x
  merged-frame cur x fits room out = elim (Bool-cases (touching cur)) [
    | inl touch ↦
        rw touch (write_ne h.mem ptr _ _ x (omega arith) (λ e. ground arith) (λ e. ground arith))
    | inr apart ↦
        rw apart (write_ne h.mem ptr n cur x (omega arith) (λ e. ground arith) (λ e. ground arith))
  ]

  -- With no block before it that touches, the region is linked in behind `prev`.
  alone :
      (prev cur : ℕ)
      → (not (prev == 0) && (add64 prev (h.mem prev) == ptr)) ≡ false
      → coalesce h ptr n (prev, cur) ≡ relink h prev (ptr, merged cur)
  unfolding coalesce put_block
  alone prev cur e =
      rw e (elim (Bool-cases (touching cur)) [ inl touch ↦ rw touch | inr apart ↦ rw apart ])

  pub settle_first :
      (cur : ℕ) (bs : Blocks)
      → 16 ≤ ptr
      → Region top ptr n bs
      → Sorted (ptr + n) top bs
      → Chain h.mem cur bs
      → Settled h n ptr bs
          (join ptr n bs)
          (coalesce h ptr n (0, cur)).head
          (coalesce h ptr n (0, cur))
  unfolding relink
  settle_first cur bs based r w c =
      let room = r.room in
      let inside = r.inside in
      let chain = merged-Chain cur bs based r w c in
      rw (alone 0 cur refl) (record {
        leads = chain;
        frame = λ x out free. merged-frame cur x (omega arith) room free;
        live = refl;
        base = refl;
        top = refl;
      })

  module _ (p s lo cur : ℕ) (b : IsBlock lo top p s) (pos : 16 ≤ lo) (size : h.mem p ≡ s) where
    sum : add64 p (h.mem p) ≡ p + s
    sum = let inside = b.inside in rw size (add64_lem p s (omega arith))

    nonzero : p ≢ 0
    nonzero e = let above = b.above in omega arith

    -- A block before the region that touches it takes it in.
    settle_touching :
        (bs : Blocks)
        → p + s ≡ ptr
        → Region top ptr n ((p, s) ∷ bs)
        → Sorted (ptr + n) top bs
        → h.mem (p + 8) ≡ cur
        → Chain h.mem cur bs
        → Settled h n ptr ((p, s) ∷ bs) (join p s (join ptr n bs)) p (coalesce h ptr n (p, cur))
    unfolding coalesce join free_at
    settle_touching [] touch r w next c =
        let room = b.room in
        let end : touching cur ≡ false = rw c in
        rw (ne→== p 0 nonzero, sum, (==_iff (p + s) ptr).1 touch, end, size, grown r)
          (record {
            leads = (
              refl,
              poke_self h.mem p (s + n),
              poke_ne h.mem p (s + n) (p + 8) (λ e. omega arith) ∙ next ∙ c,
            );
            frame = λ x out free. poke_ne h.mem p (s + n) x (λ e. ground arith);
            live = refl;
            base = refl;
            top = refl;
          })
      where
        grown : Region top ptr n ((p, s) ∷ []) → add64 s n ≡ s + n
        grown r = let i = r.inside in omega arith
    settle_touching ((q, t) ∷ bs) touch r (c, w) next (start, tsize, rest) =
        let room = b.room in
        let above = c.above in
        let within = c.inside in
        let rin = r.inside in
        let troom = c.room in
        let nroom = r.room in
        let region : add64 ptr n ≡ ptr + n = omega arith in
        let grown : add64 s n ≡ s + n = omega arith in
        let both : add64 (s + n) t ≡ s + (n + t) = omega arith in
        let qnext : add64 q 8 ≡ q + 8 = omega arith in
        let qne : q ≢ 0 = omega arith in
        rw
          (
            start,
            ne→== p 0 nonzero,
            sum,
            (==_iff (p + s) ptr).1 touch,
            ne→== q 0 qne,
            region,
            size,
            grown,
            tsize,
            both,
            qnext,
          )
          (elim (Bool-cases (ptr + n == q)) [
            | inl meets ↦
                rw (meets, (==_iff (p + s) ptr).1 touch)
                  (record {
                    leads =
                        Chain-write h.mem p (s + (n + t)) top (h.mem (q + 8)) bs (omega arith)
                          (Sorted-weaken (q + t + 1) (p + 16) top bs (omega arith) w) rest;
                    frame = λ x out free.
                        write_ne h.mem p _ _ x (omega arith) (λ e. ground arith)
                          (λ e. ground arith);
                    live = refl;
                    base = refl;
                    top = refl;
                  })
            | inr apart ↦
                rw (apart, (==_iff (p + s) ptr).1 touch)
                  (record {
                    leads = (
                      refl,
                      poke_self h.mem p (s + n),
                      rw (poke_ne h.mem p (s + n) (p + 8) (λ e. omega arith), next)
                          (Chain-frame (ptr + n) top cur h.mem (poke h.mem p (s + n)) ((q, t) ∷ bs)
                            (c, w) (λ x h'. poke_ne h.mem p (s + n) x (λ e. omega arith))
                            (start, tsize, rest)),
                    );
                    frame = λ x out free. poke_ne h.mem p (s + n) x (λ e. ground arith);
                    live = refl;
                    base = refl;
                    top = refl;
                  })
          ])

    -- A block before the region that ends before it stays.
    settle_apart :
        (bs : Blocks)
        → p + s < ptr
        → Region top ptr n ((p, s) ∷ bs)
        → Sorted (ptr + n) top bs
        → Chain h.mem cur bs
        → Settled h n ptr ((p, s) ∷ bs) (join p s (join ptr n bs)) p (coalesce h ptr n (p, cur))
    unfolding free_at
    settle_apart bs apart r w c =
        let room = b.room in
        let nroom = r.room in
        let inside = r.inside in
        let above = b.above in
        let r' = Region-tail top ptr n p s bs r in
        let behind =
          join-Sorted (p + s + 1) top ptr n bs
            (Region-IsBlock top ptr n (p + s + 1) bs (omega arith) r') w in
        let chain = merged-Chain cur bs (omega arith) r' w c in
        let no : (not (p == 0) && (add64 p (h.mem p) == ptr)) ≡ false =
          rw (sum, ne→== (p + s) ptr (λ e. omega arith)) (and-false (not (p == 0))) in
        let l =
          relink-Relinked h p (p + s + 1) top (ptr, merged cur) (join ptr n bs) (omega arith)
            (λ _. omega arith) behind chain in
        rw (alone p cur no, join_apart p s top (join ptr n bs) behind)
          (record {
            leads = (
              refl,
              l.frame p (λ _ e. omega arith)
                  ∙ merged-frame cur p (omega arith) nroom (ground arith)
                  ∙ size,
              subst (λ a. Chain (relink h p (ptr, merged cur)).mem a (join ptr n bs))
                  (link_later (relink h p (ptr, merged cur)) p nonzero) l.leads,
            );
            frame = λ x out free.
                l.frame x (λ _ e. ground arith) ∙ merged-frame cur x (omega arith) nroom free;
            live = l.live;
            base = l.base;
            top = l.top;
          })
      where
        and-false : (t : Bool) → (t && false) ≡ false
        and-false true = refl
        and-false false = refl

    settle_behind :
        (bs : Blocks)
        → p + s ≤ ptr
        → Region top ptr n ((p, s) ∷ bs)
        → Sorted (ptr + n) top bs
        → h.mem (p + 8) ≡ cur
        → Chain h.mem cur bs
        → Settled h n ptr ((p, s) ∷ bs) (join p s (join ptr n bs)) p (coalesce h ptr n (p, cur))
    settle_behind bs le r w next c = elim (ℕ_discrete (p + s) ptr) [
      | yes touch ↦ settle_touching bs touch r w next c
      | no apart ↦ settle_apart bs (omega arith) r w c
    ]

  module _ (fuel prev cur : ℕ) where
    pub walk_on :
        cur ≢ 0
        → cur < ptr
        → locate (suc fuel) h.mem ptr prev cur ≡ locate fuel h.mem ptr cur (next_of h.mem cur)
    unfolding locate
    walk_on ne lt =
        let t : (not (cur == 0) && ltb cur ptr) ≡ true = rw (ne→== cur 0 ne) (ground arith) in
        rw (t, locate)

    pub walk_stop :
        (cur ≡ 0) ⊎ (ptr ≤ cur) → locate (suc fuel) h.mem ptr prev cur ≡ some (prev, cur)
    unfolding locate
    walk_stop stop = rw (stops stop, locate)
      where
        stops : (cur ≡ 0) ⊎ (ptr ≤ cur) → (not (cur == 0) && ltb cur ptr) ≡ false
        stops (inl e) = ground arith
        stops (inr le) = ground arith

  -- From a block before the region on, `locate` ends, and `coalesce` does what `free_block` does.
  abbrev pub Settles : ℕ → ℕ → Blocks → Option (ℕ × ℕ) → Type 0
  Settles p s bs place =
      (prev : ℕ) × (cur : ℕ) × (place ≡ some (prev, cur))
      × (let h' = coalesce h ptr n (prev, cur) in
          Settled h n ptr ((p, s) ∷ bs) (free_block ptr n ((p, s) ∷ bs)) p h' × (h'.head ≡ h.head))

  coalesce_head : (prev cur : ℕ) → prev ≢ 0 → (coalesce h ptr n (prev, cur)).head ≡ h.head
  unfolding coalesce put_block relink
  coalesce_head prev cur ne = rw (ne→== prev 0 ne) (ground arith)

  -- What holds from the next block on holds from this one on.
  settle_later :
      (p s q t lo prev cur : ℕ) (bs : Blocks)
      → 16 ≤ lo
      → Sorted lo top ((p, s) ∷ (q, t) ∷ bs)
      → p < ptr
      → Region top ptr n ((p, s) ∷ (q, t) ∷ bs)
      → h.mem p ≡ s
      → h.mem (p + 8) ≡ q
      → q < ptr
      → Settled h n ptr
          ((q, t) ∷ bs)
          (free_block ptr n ((q, t) ∷ bs))
          q
          (coalesce h ptr n (prev, cur))
      → Settled h n ptr
          ((p, s) ∷ (q, t) ∷ bs)
          (free_block ptr n ((p, s) ∷ (q, t) ∷ bs))
          p
          (coalesce h ptr n (prev, cur))
  unfolding free_at free_block
  settle_later p s q t lo prev cur bs pos (b, (c, w)) lt r size start more d =
      let room = b.room in
      let above = c.above in
      let r' = Region-tail top ptr n p s ((q, t) ∷ bs) r in
      let i = free_block-Inserted top ptr n (p + s + 1) ((q, t) ∷ bs) (omega arith) (c, w) r' in
      let out =
        λ (x : ℕ) (l : x < p + s + 1). free_at-below (p + s + 1) top x ((q, t) ∷ bs) (c, w) l in
      rw (lt→ltb p ptr lt) (
        subst (λ o. Settled h n ptr ((p, s) ∷ (q, t) ∷ bs) o p (coalesce h ptr n (prev, cur)))
          (sym (join_apart p s top (free_block ptr n ((q, t) ∷ bs)) i.sorted))
          (record {
            leads = (
              refl,
              d.frame p (out p (omega arith)) (ground arith) ∙ size,
              subst
                  (λ a. Chain (coalesce h ptr n (prev, cur)).mem a (free_block ptr n ((q, t) ∷ bs)))
                  (sym (d.frame (p + 8) (out (p + 8) (omega arith)) (ground arith) ∙ start))
                  d.leads,
            );
            frame = λ x free region. d.frame x (ground arith) region;
            live = d.live;
            base = d.base;
            top = d.top;
          }))

  pub settle_from :
      (fuel p s lo : ℕ) (bs : Blocks)
      → 16 ≤ lo
      → Sorted lo top ((p, s) ∷ bs)
      → p < ptr
      → Region top ptr n ((p, s) ∷ bs)
      → h.mem p ≡ s
      → Chain h.mem (h.mem (p + 8)) bs
      → length bs < fuel
      → Settles p s bs (locate fuel h.mem ptr p (h.mem (p + 8)))
  unfolding free_block join
  settle_from zero p s lo bs pos w lt r size c enough = absurd (omega arith)
  settle_from (suc fuel) p s lo [] pos (b, w) lt r size c enough =
      let le = after_block top ptr n lo p s [] b r lt in
      (
        p,
        h.mem (p + 8),
        walk_stop fuel p (h.mem (p + 8)) (inl c),
        (
          rw (lt→ltb p ptr lt) (settle_behind p s lo (h.mem (p + 8)) b pos size [] le r tt refl c),
          coalesce_head p (h.mem (p + 8)) (nonzero p s lo (h.mem (p + 8)) b pos size),
        ),
      )
  settle_from (suc fuel) p s lo ((q, t) ∷ bs) pos (b, (c, w)) lt r size (start, tsize, rest)
        enough =
      let le = after_block top ptr n lo p s ((q, t) ∷ bs) b r lt in
      let r' = Region-tail top ptr n p s ((q, t) ∷ bs) r in
      elim (dec_lt q ptr) [
        | yes more ↦
            let above = c.above in
            let nonzero_q : q ≢ 0 = omega arith in
            let next : add64 q 8 ≡ q + 8 = (let i = c.inside in let tr = c.room in omega arith) in
            let step =
              walk_on fuel p (h.mem (p + 8)) (subst (λ k. k ≢ 0) (sym start) nonzero_q)
                (subst (λ k. k < ptr) (sym start) more)
              ∙ ap (λ k. locate fuel h.mem ptr k (next_of h.mem k)) start
              ∙ ap (λ k. locate fuel h.mem ptr q (h.mem k)) next in
            let (prev, cur, e, (d, hd)) =
              settle_from fuel q t (p + s + 1) bs (omega arith) (c, w) more r' tsize rest
                (omega arith) in
            (
              prev,
              cur,
              step ∙ e,
              (settle_later p s q t lo prev cur bs pos (b, (c, w)) lt r size start more d, hd),
            )
        | no stop ↦
            let front = before_block top ptr n (p + s + 1) q t bs c r' (omega arith) in
            let behind : IsBlock (ptr + n) top q t = record {
              above = front;
              aligned = c.aligned;
              whole = c.whole;
              room = c.room;
              inside = c.inside;
            } in
            (
              p,
              h.mem (p + 8),
              walk_stop fuel p (h.mem (p + 8)) (inr (omega arith)),
              (
                rw (lt→ltb p ptr lt, ge→ltb q ptr stop)
                    (settle_behind p s lo (h.mem (p + 8)) b pos size ((q, t) ∷ bs) le r (behind, w)
                      refl (start, tsize, rest)),
                coalesce_head p (h.mem (p + 8)) (nonzero p s lo (h.mem (p + 8)) b pos size),
              ),
            )
      ]
    where
      ge→ltb : (a b : ℕ) → ¬ (a < b) → ltb a b ≡ false
      ge→ltb a b h = ground arith
