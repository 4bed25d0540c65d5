-- ===== src/Desktop/Heap/Alloc.antt =====
-- `alloc` in memory does what `fit` does on the list of blocks.
use rusty_penguin.Base.{
  ℕ, zero, suc, ◌+◌, ◌-◌, ◌^◌, ◌≤◌, ◌<◌, ◌≡◌, ◌≢◌, refl, ap, sym, subst, ◌∙◌, ◌⊎◌, true, false, [],
  ◌∷◌, Option, none, some, ne→==, leb, length, arith, Bool-cases, inl, inr, ℕ_discrete,
}
use rusty_penguin.Desktop.Heap.{Heap, add64, sub64, align_up, put_gap, take_block, alloc_from}
use rusty_penguin.Desktop.Heap.Blocks.{
  Blocks, Chain, IsBlock, Sorted, free_at, Sorted-weaken, free_at-below, add64_lem, gap, fit,
}
use rusty_penguin.Desktop.Heap.Fit
use rusty_penguin.Desktop.Heap.Fit.{Request, Placed}
use rusty_penguin.Desktop.Heap.Gaps.{
  put_gap-Chain, put_gap-frame, link, link_first, link_later, relink-Relinked,
}

-- What a walk from `prev` on through `bs` leaves: the blocks `bs'` behind `prev`, and memory as it was
-- but in the free blocks and the pointer behind `prev`.
pub record Walked (h : Heap) (need prev : ℕ) (bs bs' : Blocks) (h' : Heap) : Type 0 where
  pub leads : Chain h'.mem (link h' prev) bs'
  pub frame : (x : ℕ) → free_at bs x ≡ false → (prev ≢ 0 → x ≢ prev + 8) → h'.mem x ≡ h.mem x
  pub head : prev ≢ 0 → h'.head ≡ h.head
  pub live : h'.live ≡ add64 h.live need
  pub base : h'.base ≡ h.base
  pub top : h'.end ≡ h.end

module _ (k need top : ℕ) (req : Request k need top) where
  abbrev up : ℕ → ℕ
  up p = align_up p (2 ^ k)

  placed : (p : ℕ) → p < top → Placed k need top req p
  placed p h = Fit.placed k need top req p h

  module _ (h : Heap) (prev lo p s : ℕ) (bs : Blocks) (b : IsBlock lo top p s)
      (w : Sorted (p + s + 1) top bs) (low : prev + 16 ≤ lo) (size : h.mem p ≡ s)
      (rest : Chain h.mem (h.mem (p + 8)) bs) (fits : up p + need ≤ p + s) where
    abbrev post : ℕ
    post = p + s - (up p + need)

    abbrev left : Blocks
    left = gap p (up p - p) (gap (up p + need) post bs)

    taken-Walked : Walked h need prev ((p, s) ∷ bs) left (take_block h need prev p (up p))
    unfolding take_block free_at link
    taken-Walked =
        let i = b.inside in
        let q = req.bounded in
        let pl = placed p (let r = b.room in omega arith) in
        let ab = pl.above in
        let above = b.above in
        let cend : add64 p (h.mem p) ≡ p + s = rw size (add64_lem p s (omega arith)) in
        let taken : add64 (up p) need ≡ up p + need = omega arith in
        let next : add64 p 8 ≡ p + 8 = omega arith in
        let pre : sub64 (up p) p ≡ up p - p = omega arith in
        let after : sub64 (p + s) (up p + need) ≡ post = omega arith in
        rw (cend, taken, next, pre, after)
          (let tail_weak = Fit.tail-weak k need top req p s lo bs b w fits in
            let left_sorted = Fit.left-Sorted k need top req p s lo bs b w fits in
            let tail = put_gap (up p + need) post (h.mem (p + 8), h.mem) in
            let whole = put_gap p (up p - p) tail in
            let tail_chain =
              put_gap-Chain (up p + need) post top (h.mem (p + 8), h.mem) bs (omega arith)
                (Sorted-weaken (p + s + 1) (up p + need + post) top bs (omega arith) w) rest in
            let chain =
              put_gap-Chain p (up p - p) top tail (gap (up p + need) post bs) (omega arith)
                (Sorted-weaken (p + (up p - p) + 1) (p + (up p - p)) top _ (omega arith) tail_weak)
                tail_chain in
            let r =
              relink-Relinked h prev p top whole left (omega arith) (λ _. omega arith) left_sorted
                chain in
            record {
              leads = r.leads;
              frame = λ x out ne.
                  r.frame x ne
                  ∙ put_gap-frame p (up p - p) tail x (omega arith) (ground arith)
                  ∙ put_gap-frame (up p + need) post (h.mem (p + 8), h.mem) x (omega arith)
                      (ground arith);
              head = r.head;
              live = ap (λ t. add64 t need) r.live;
              base = r.base;
              top = r.top;
            })

  module _ (h : Heap) (prev p s : ℕ) (fuel : ℕ) (nonzero : p ≢ 0) (size : add64 p (h.mem p) ≡ p + s)
      (taken : add64 (up p) need ≡ up p + need) where
    step_fit :
        leb (up p + need) (p + s) ≡ true
        → alloc_from (suc fuel) h (2 ^ k) need prev p ≡ some (up p, take_block h need prev p (up p))
    unfolding alloc_from
    step_fit e = rw (ne→== p 0 nonzero, size, taken, e, alloc_from)

    step_next :
        leb (up p + need) (p + s) ≡ false
        → alloc_from (suc fuel) h (2 ^ k) need prev p
          ≡ alloc_from fuel h (2 ^ k) need p (h.mem (add64 p 8))
    unfolding alloc_from
    step_next e = rw (ne→== p 0 nonzero, size, taken, e, alloc_from)

  -- A walk that started behind `p` is one that started behind `prev`.
  extend :
      (h h' : Heap) (prev lo p s : ℕ) (bs bs' : Blocks)
      → IsBlock lo top p s
      → Sorted (p + s + 1) top bs
      → prev + 16 ≤ lo
      → h.mem p ≡ s
      → link h prev ≡ p
      → Walked h need p bs bs' h'
      → Walked h need prev ((p, s) ∷ bs) ((p, s) ∷ bs') h'
  unfolding free_at
  extend h h' prev lo p s bs bs' b w low size here d =
      let above = b.above in
      let room = b.room in
      let nonzero : p ≢ 0 = omega arith in
      let outside = λ (x : ℕ) (lt : x < p + s + 1). free_at-below (p + s + 1) top x bs w lt in
      record {
        leads = (
          pointer nonzero,
          d.frame p (outside p (omega arith)) (λ _ e. omega arith) ∙ size,
          subst (λ c. Chain h'.mem c bs') (link_later h' p nonzero) d.leads,
        );
        frame = λ x out ne. d.frame x (ground arith) (λ _ e. ground arith);
        head = λ ne. d.head nonzero;
        live = d.live;
        base = d.base;
        top = d.top;
      }
    where
      pointer : p ≢ 0 → link h' prev ≡ p
      pointer nonzero = elim (ℕ_discrete prev 0) [
        | yes first ↦
            link_first h' prev first ∙ d.head nonzero ∙ sym (link_first h prev first) ∙ here
        | no later ↦
            link_later h' prev later
            ∙ d.frame (prev + 8)
                (free_at-below (p + s + 1) top (prev + 8) bs w (let above = b.above in omega arith))
                (λ _ e. let above = b.above in omega arith)
            ∙ sym (link_later h prev later)
            ∙ here
      ]

  -- What the walk returns: no block fits and nothing is changed, or the block that `fit` finds.
  abbrev Outcome : Heap → ℕ → Blocks → Option (ℕ × Heap) → Type 0
  Outcome h prev bs r =
      ((fit up need bs ≡ none) × (r ≡ some (0, h)))
      ⊎ ((payload : ℕ) × (bs' : Blocks) × (h' : Heap) × (fit up need bs ≡ some (payload, bs'))
          × (r ≡ some (payload, h'))
          × Walked h need prev bs bs' h')

  pub alloc_from-Outcome :
      (fuel : ℕ) (h : Heap) (prev cur lo : ℕ) (bs : Blocks)
      → Sorted lo top bs
      → prev + 16 ≤ lo
      → link h prev ≡ cur
      → Chain h.mem cur bs
      → length bs < fuel
      → Outcome h prev bs (alloc_from fuel h (2 ^ k) need prev cur)
  unfolding alloc_from fit
  alloc_from-Outcome zero h prev cur lo bs w low here c enough = absurd (omega arith)
  alloc_from-Outcome (suc fuel) h prev cur lo [] w low here c enough =
      inl (refl, rw (c, alloc_from))
  alloc_from-Outcome (suc fuel) h prev cur lo ((p, s) ∷ bs) (b, w) low here (start, size, rest)
        enough =
      let above = b.above in
      let inside = b.inside in
      let room = b.room in
      let q = req.bounded in
      let pl = placed p (omega arith) in
      let near = pl.near in
      let cend : add64 p (h.mem p) ≡ p + s = rw size (add64_lem p s (omega arith)) in
      let taken : add64 (up p) need ≡ up p + need = omega arith in
      let nonzero : p ≢ 0 = omega arith in
      subst (λ t. Outcome h prev ((p, s) ∷ bs) (alloc_from (suc fuel) h (2 ^ k) need prev t))
        (sym start)
        (elim (Bool-cases (leb (up p + need) (p + s))) [
          | inl fits ↦ inr (
            up p,
            gap p (up p - p) (gap (up p + need) (p + s - (up p + need)) bs),
            take_block h need prev p (up p),
            rw (fits, fit),
            step_fit h prev p s fuel nonzero cend taken fits,
            taken-Walked h prev lo p s bs b w low size rest (ground arith),
          )
          | inr short ↦
              let next : add64 p 8 ≡ p + 8 = omega arith in
              let step =
                step_next h prev p s fuel nonzero cend taken short
                ∙ ap (λ t. alloc_from fuel h (2 ^ k) need p (h.mem t)) next in
              elim (alloc_from-Outcome fuel h p (h.mem (p + 8)) (p + s + 1) bs w (omega arith)
                (link_later h p nonzero) rest (omega arith)) [
                  | inl (nowhere, e) ↦ inl (rw (short, nowhere, fit), step ∙ e)
                  | inr (payload, bs', h', found, e, d) ↦ inr (
                    payload,
                    (p, s) ∷ bs',
                    h',
                    rw (short, found, fit),
                    step ∙ e,
                    extend h h' prev lo p s bs bs' b w low size (here ∙ start) d,
                  )
                ]
        ])
