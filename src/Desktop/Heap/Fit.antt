-- ===== src/Desktop/Heap/Fit.antt =====
-- The list of blocks when a piece of the first block that fits is taken.
use rusty_penguin.Base.{
  ℕ, suc, ◌+◌, ◌-◌, ◌/◌, ◌%◌, ◌^◌, ◌≤◌, ◌<◌, ◌≡◌, sym, subst, ◌∙◌, true, false, [], ◌∷◌, none, some,
  if◌then◌else◌, leb, arith, Bool-cases, Option-cases, inl, inr, dec_lt,
}
use native.Mathlib.Nat.{div-add-mod', mul-le-mul_right, one-le-pow}
use rusty_penguin.Desktop.Heap.{align_up}
use rusty_penguin.Desktop.Heap.Align.{align_up-RoundsUp, align_up-sixteen}
use rusty_penguin.Desktop.Heap.Blocks.{
  Blocks, IsBlock, Sorted, in_block, free_at, total, Sorted-weaken, free_at-below, gap, fit,
}
use rusty_penguin.Desktop.Heap.Gaps.{gap-Sorted, free_at-gap, total-gap}

-- A request: `need` bytes aligned to `2 ^ k`, in an arena that ends at `top`.
pub record Request (k need top : ℕ) : Type 0 where
  pub align : (4 ≤ k) × (k ≤ 62)
  pub room : 16 ≤ need
  pub whole : need % 16 ≡ 0
  pub bounded : top + 2 ^ k + need < 2 ^ 64

module _ (k need top : ℕ) (req : Request k need top) where
  abbrev pub up : ℕ → ℕ
  up p = align_up p (2 ^ k)

  -- The payload in a block of the arena.
  pub record Placed (p : ℕ) : Type 0 where
    pub above : p ≤ up p
    pub near : up p < p + 2 ^ k
    pub aligned : up p % 16 ≡ 0
    pub multiple : up p % 2 ^ k ≡ 0

  pub placed : (p : ℕ) → p < top → Placed p
  placed p h =
      let (low, high) = req.align in
      let b = req.bounded in
      let r = align_up-RoundsUp p k (omega arith) (omega arith) in
      record {
        above = r.above;
        near = r.near;
        multiple = r.multiple;
        aligned = align_up-sixteen p k low (omega arith) (omega arith);
      }

  module _ (p s lo : ℕ) (bs : Blocks) (b : IsBlock lo top p s) (w : Sorted (p + s + 1) top bs)
      (fits : up p + need ≤ p + s) where
    abbrev pub post : ℕ
    post = p + s - (up p + need)

    abbrev pub left : Blocks
    left = gap p (up p - p) (gap (up p + need) post bs)

    pub tail-Sorted : Sorted (up p + need) top (gap (up p + need) post bs)
    tail-Sorted =
        let pl = placed p (let i = b.inside in let r = b.room in omega arith) in
        let a = pl.aligned in
        let n = req.whole in
        let al = b.aligned in
        let wh = b.whole in
        gap-Sorted (up p + need) top (up p + need) post bs (omega arith) (omega arith) (omega arith)
          (let i = b.inside in omega arith)
          (Sorted-weaken (p + s + 1) (up p + need + post + 1) top bs (omega arith) w)

    pub tail-weak : Sorted (p + (up p - p) + 1) top (gap (up p + need) post bs)
    tail-weak =
        let pl = placed p (let i = b.inside in let r = b.room in omega arith) in
        let a = pl.above in
        let n = req.room in
        Sorted-weaken (up p + need) (p + (up p - p) + 1) top _ (omega arith) tail-Sorted

    pub left-Sorted : Sorted p top left
    left-Sorted =
        let pl = placed p (let i = b.inside in let r = b.room in omega arith) in
        let a = pl.aligned in
        let ab = pl.above in
        let al = b.aligned in
        let i = b.inside in
        gap-Sorted p top p (up p - p) _ (omega arith) al (omega arith) (omega arith) tail-weak

    -- The bytes taken are bytes of the block, and the others stay free.
    free_at-left :
        (x : ℕ)
        → free_at left x ≡ (if in_block (up p) need x then false else free_at ((p, s) ∷ bs) x)
    unfolding free_at
    free_at-left x =
        let inside = b.inside in
        let room = b.room in
        let pl = placed p (omega arith) in
        let above = pl.above in
        let aligned = pl.aligned in
        let pa = b.aligned in
        let sw = b.whole in
        let nw = req.whole in
        let post_whole : post % 16 ≡ 0 = omega arith in
        let pre_whole : (up p - p) % 16 ≡ 0 = omega arith in
        rw
          (
            free_at-gap p (up p - p) x (gap (up p + need) post bs) pre_whole,
            free_at-gap (up p + need) post x bs post_whole,
          )
          (elim (dec_lt x (p + s + 1)) [
            | yes below ↦
                let out = free_at-below (p + s + 1) top x bs w below in rw out (ground arith)
            | no beyond ↦ ground arith
          ])

    total-left : total ((p, s) ∷ bs) ≡ need + total left
    unfolding total
    total-left =
        let inside = b.inside in
        let room = b.room in
        let pl = placed p (omega arith) in
        let above = pl.above in
        let aligned = pl.aligned in
        let pa = b.aligned in
        let sw = b.whole in
        let nw = req.whole in
        omega (
          arith,
          total-gap p (up p - p) (gap (up p + need) post bs) (omega arith),
          total-gap (up p + need) post bs (omega arith),
        )

  -- What taking `need` bytes at `a` makes of the list.
  pub record Fitted (lo : ℕ) (bs : Blocks) (a : ℕ) (bs' : Blocks) : Type 0 where
    pub sorted : Sorted lo top bs'
    pub above : lo ≤ a
    pub inside : a + need ≤ top
    pub multiple : a % 2 ^ k ≡ 0
    pub sixteen : a % 16 ≡ 0
    pub were_free : (x : ℕ) → in_block a need x ≡ true → free_at bs x ≡ true
    pub after : (x : ℕ) → free_at bs' x ≡ (if in_block a need x then false else free_at bs x)
    pub counted : total bs ≡ need + total bs'

  Fitted-here :
      (lo p s : ℕ) (bs : Blocks) (b : IsBlock lo top p s) (w : Sorted (p + s + 1) top bs)
      (fits : up p + need ≤ p + s)
      → Fitted lo ((p, s) ∷ bs) (up p) (left p s lo bs b w fits)
  unfolding free_at
  Fitted-here lo p s bs b w fits =
      let inside = b.inside in
      let room = b.room in
      let above = b.above in
      let pl = placed p (omega arith) in
      let up_above = pl.above in
      record {
        sorted = Sorted-weaken p lo top _ above (left-Sorted p s lo bs b w fits);
        above = omega arith;
        inside = omega arith;
        multiple = pl.multiple;
        sixteen = pl.aligned;
        were_free = λ x h. ground arith;
        after = λ x. free_at-left p s lo bs b w fits x;
        counted = total-left p s lo bs b w fits;
      }

  Fitted-later :
      (lo p s : ℕ) (bs : Blocks) (a : ℕ) (bs' : Blocks)
      → IsBlock lo top p s
      → Fitted (p + s + 1) bs a bs'
      → Fitted lo ((p, s) ∷ bs) a ((p, s) ∷ bs')
  unfolding free_at total
  Fitted-later lo p s bs a bs' b f =
      let above = f.above in
      let low = b.above in
      record {
        sorted = (b, f.sorted);
        above = omega arith;
        inside = f.inside;
        multiple = f.multiple;
        sixteen = f.sixteen;
        were_free = λ x h. ground (arith, f.were_free x);
        after = λ x. ground (arith, f.after x);
        counted = omega (arith, f.counted);
      }

  fit_here :
      (p s : ℕ) (bs : Blocks)
      → leb (up p + need) (p + s) ≡ true
      → fit up need ((p, s) ∷ bs)
        ≡ some (up p, gap p (up p - p) (gap (up p + need) (p + s - (up p + need)) bs))
  unfolding fit
  fit_here p s bs e = rw (e, fit)

  -- `fit` finds the first block that fits, and leaves a list in order.
  pub fit-Fitted :
      (lo : ℕ) (bs : Blocks) (a : ℕ) (bs' : Blocks)
      → Sorted lo top bs
      → fit up need bs ≡ some (a, bs')
      → Fitted lo bs a bs'
  unfolding fit
  fit-Fitted lo [] a bs' w e = cc
  fit-Fitted lo ((p, s) ∷ bs) a bs' (b, w) e = elim (Bool-cases (leb (up p + need) (p + s))) [
    | inl fits ↦
        let ok : up p + need ≤ p + s = ground arith in
        let got : some (up p, left p s lo bs b w ok) ≡ some (a, bs') =
          sym (fit_here p s bs fits) ∙ e in
        let here : up p ≡ a = cc in
        let rest : left p s lo bs b w ok ≡ bs' = cc in
        subst (λ t. Fitted lo ((p, s) ∷ bs) t bs') here
          (subst (λ t. Fitted lo ((p, s) ∷ bs) (up p) t) rest (Fitted-here lo p s bs b w ok))
    | inr short ↦ elim (Option-cases (fit up need bs)) [
      | inl nowhere ↦ let no : fit up need ((p, s) ∷ bs) ≡ none = rw (short, nowhere, fit) in cc
      | inr ((a', bs''), found) ↦
          let got : some (a', (p, s) ∷ bs'') ≡ some (a, bs') =
            sym (later p s bs a' bs'' short found) ∙ e in
          let here : a' ≡ a = cc in
          let rest : (p, s) ∷ bs'' ≡ bs' = cc in
          subst (λ t. Fitted lo ((p, s) ∷ bs) t bs') here
            (subst (λ t. Fitted lo ((p, s) ∷ bs) a' t) rest
              (Fitted-later lo p s bs a' bs'' b (fit-Fitted (p + s + 1) bs a' bs'' w found)))
    ]
  ]
    where
      later :
          (p s : ℕ) (bs : Blocks) (a : ℕ) (bs' : Blocks)
          → leb (up p + need) (p + s) ≡ false
          → fit up need bs ≡ some (a, bs')
          → fit up need ((p, s) ∷ bs) ≡ some (a, (p, s) ∷ bs')
      later p s bs a bs' e f = rw (e, f, fit)

  next_multiple : (x y m : ℕ) → 0 < m → x % m ≡ 0 → y % m ≡ 0 → x < y → x + m ≤ y
  next_multiple x y m pos hx hy lt = elim (dec_lt (x / m) (y / m)) [
    | yes more ↦ omega (
      arith,
      div-add-mod' x m,
      div-add-mod' y m,
      mul-le-mul_right {m = suc (x / m)} {n = y / m} m (omega arith),
    )
    | no less ↦ omega (
      arith,
      div-add-mod' x m,
      div-add-mod' y m,
      mul-le-mul_right {m = y / m} {n = x / m} m (omega arith),
    )
  ]

  -- Where it finds none, no aligned run of `need` free bytes exists.
  pub fit-none :
      (lo : ℕ) (bs : Blocks) (a : ℕ)
      → Sorted lo top bs
      → fit up need bs ≡ none
      → a % 2 ^ k ≡ 0
      → ¬ ((x : ℕ) → in_block a need x ≡ true → free_at bs x ≡ true)
  unfolding fit free_at
  fit-none lo [] a w e mult all = let room = req.room in cc (all a (ground arith))
  fit-none lo ((p, s) ∷ bs) a (b, w) e mult all =
      let room = req.room in
      let broom = b.room in
      let inside = b.inside in
      let out = λ (x : ℕ) (lt : x < p + s + 1). free_at-below (p + s + 1) top x bs w lt in
      elim (Bool-cases (leb (up p + need) (p + s))) [
        | inl fits ↦ cc (sym (fit_here p s bs fits) ∙ e)
        | inr short ↦ elim (dec_lt a (p + s)) [
          | yes early ↦
              let from : p ≤ a = ground (arith, all a (ground arith), out a (omega arith)) in
              let within : a + need ≤ p + s =
                ground (arith, all (p + s), out (p + s) (omega arith)) in
              let pl = placed p (omega arith) in
              let near = pl.near in
              let umult = pl.multiple in
              ground
                (arith, next_multiple a (up p) (2 ^ k) (omega (arith, one-le-pow k 2)) mult umult)
          | no late ↦
              fit-none (p + s + 1) bs a w (rest p s bs short e) mult
                (λ x h. ground (arith, all x h))
        ]
      ]
    where
      rest :
          (p s : ℕ) (bs : Blocks)
          → leb (up p + need) (p + s) ≡ false
          → fit up need ((p, s) ∷ bs) ≡ none
          → fit up need bs ≡ none
      rest p s bs short e = elim (Option-cases (fit up need bs)) [
        | inl nowhere ↦ nowhere
        | inr ((a', bs''), found) ↦
            let got : fit up need ((p, s) ∷ bs) ≡ some (a', (p, s) ∷ bs'') =
              rw (short, found, fit) in
            cc
      ]
