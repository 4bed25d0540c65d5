-- ===== src/Desktop/Heap/Blocks.antt =====
-- The free list as a list of blocks: what it means in memory, its order, and the bytes it covers.
use rusty_penguin.Base.{
  ℕ, ◌+◌, ◌-◌, ◌%◌, ◌^◌, ◌≤◌, ◌<◌, ◌≡◌, ◌≢◌, refl, ◌∙◌, Bool, true, false, ◌&&◌, ◌||◌, List, [],
  ◌∷◌, if◌then◌else◌, ==_refl, ne→==, ltb, leb, arith, Option, none, some,
}
use rusty_penguin.Desktop.Heap.{Memory, add64, poke}

-- Address and size.
abbrev pub Blocks : Type 0
Blocks = List (ℕ × ℕ)

-- From the pointer `a` the headers in memory lead through these blocks.
abbrev pub Chain : Memory → ℕ → Blocks → Type 0
Chain m a [] = a ≡ 0
Chain m a ((p, s) ∷ bs) = (a ≡ p) × (m p ≡ s) × Chain m (m (p + 8)) bs

pub record IsBlock (lo top p s : ℕ) : Type 0 where
  pub above : lo ≤ p
  pub aligned : p % 16 ≡ 0
  pub whole : s % 16 ≡ 0
  pub room : 16 ≤ s
  pub inside : p + s ≤ top

-- Blocks in address order from `lo` on, no two of them adjacent.
abbrev pub Sorted : ℕ → ℕ → Blocks → Type 0
Sorted lo top [] = Unit {0}
Sorted lo top ((p, s) ∷ bs) = IsBlock lo top p s × Sorted (p + s + 1) top bs

-- The byte at `a` belongs to a free block.
abbrev pub in_block : ℕ → ℕ → ℕ → Bool
in_block p s a = leb p a && ltb a (p + s)

unfoldable pub free_at : Blocks → ℕ → Bool
free_at [] a = false
free_at ((p, s) ∷ bs) a = in_block p s a || free_at bs a

-- The free bytes.
unfoldable pub total : Blocks → ℕ
total [] = 0
total ((p, s) ∷ bs) = s + total bs

pub Sorted-weaken : (lo lo' top : ℕ) (bs : Blocks) → lo' ≤ lo → Sorted lo top bs → Sorted lo' top bs
Sorted-weaken lo lo' top [] h w = tt
Sorted-weaken lo lo' top ((p, s) ∷ bs) h (b, w) = (
  record {
    above = let a = b.above in omega arith;
    aligned = b.aligned;
    whole = b.whole;
    room = b.room;
    inside = b.inside;
  },
  w,
)

-- No byte below the first block is free.
pub free_at-below : (lo top a : ℕ) (bs : Blocks) → Sorted lo top bs → a < lo → free_at bs a ≡ false
unfolding free_at
free_at-below lo top a [] w h = refl
free_at-below lo top a ((p, s) ∷ bs) (b, w) h =
    let above = b.above in
    let room = b.room in ground (arith, free_at-below (p + s + 1) top a bs w (omega arith))

-- A chain depends only on the bytes of its blocks.
pub Chain-frame :
    (lo top a : ℕ) (m m' : Memory) (bs : Blocks)
    → Sorted lo top bs
    → ((x : ℕ) → lo ≤ x → m' x ≡ m x)
    → Chain m a bs
    → Chain m' a bs
Chain-frame lo top a m m' [] w same c = c
Chain-frame lo top a m m' ((p, s) ∷ bs) (b, w) same (here, size, rest) =
    let above = b.above in
    let next = same (p + 8) (omega arith) in
    (
      here,
      same p (omega arith) ∙ size,
      rw next
          (Chain-frame (p + s + 1) top (m (p + 8)) m m' bs w (λ x h. same x (omega arith)) rest),
    )

pub poke_self : (m : Memory) (a x : ℕ) → poke m a x a ≡ x
unfolding poke
poke_self m a x = rw (==_refl a)

pub poke_ne : (m : Memory) (a x b : ℕ) → b ≢ a → poke m a x b ≡ m b
unfolding poke
poke_ne m a x b h = rw (ne→== b a h)

-- Addresses of the arena do not wrap.
pub add64_lem : (a b : ℕ) → a + b < 2 ^ 64 → add64 a b ≡ a + b
add64_lem a b h = omega arith

-- What is left of a block: a gap in front of the blocks behind it, if it is not empty.
unfoldable pub gap : ℕ → ℕ → Blocks → Blocks
gap p n bs = if leb 16 n then (p, n) ∷ bs else bs

-- The first block from which `need` bytes can be taken at `up p`, and what is left of the list.
unfoldable pub fit : (ℕ → ℕ) → ℕ → Blocks → Option (ℕ × Blocks)
fit up need [] = none
fit up need ((p, s) ∷ bs) = elim (leb (up p + need) (p + s)) [
  | true ↦ some (up p, gap p (up p - p) (gap (up p + need) (p + s - (up p + need)) bs))
  | false ↦ elim (fit up need bs) [ none ↦ none | some (a, rest) ↦ some (a, (p, s) ∷ rest) ]
]
