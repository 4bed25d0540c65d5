-- ===== src/Rpfs/Volume/Alloc.antt =====
-- `alloc_run` and `free_run`: contiguous extents of data blocks.
use rusty_penguin.Base.{
  ℕ, ◌+◌, ◌-◌, ◌%◌, ◌^◌, ◌≤◌, ◌<◌, ◌≡◌, refl, ap, ◌∙◌, ◌⊎◌, inl, inr, true, false, ◌&&◌, Option,
  none, some, if◌then◌else◌, ne→==, ltb, leb, arith, Option-cases, subst, Bool-cases,
}
use rusty_penguin.Base.Runs.{FreeRange, Scanning, first_run-some, first_run-none, first_run-first}
use rusty_penguin.Rpfs.Volume.{
  Volume, bit_get, set_run, find_blocks, take_blocks, alloc_run, free_run, count_clear, free_blocks,
}
use rusty_penguin.Rpfs.Volume.Blocks.{unused, set_run_lem, clear_run_lem, count_clear-same}

-- The `n` blocks from `start` on are taken from `v`, which leaves `v'`.
pub record ExtentTaken (v : Volume) (n start : ℕ) (v' : Volume) : Type 0 where
  pub inside : start + n ≤ v.total_blocks
  pub were_free : FreeRange (unused v.bitmap) start n
  pub first : (q : ℕ) → q < start → ¬ FreeRange (unused v.bitmap) q n
  pub after :
      (j : ℕ)
      → bit_get v'.bitmap j
        ≡ (if leb start j && ltb j (start + n) then true else bit_get v.bitmap j)
  pub counted : free_blocks v ≡ n + free_blocks v'
  pub rest : v' ≡ record v { bitmap = v'.bitmap }

nonzero_run :
    (v : Volume) (n : ℕ)
    → 1 ≤ n
    → alloc_run v n ≡ take_blocks n v (find_blocks n v.bitmap v.total_blocks)
unfolding alloc_run
nonzero_run v n h =
    ap (λ b. if b then (none, v) else take_blocks n v (find_blocks n v.bitmap v.total_blocks))
      (ne→== n 0 (omega arith))

-- A request for `n` blocks, `n` not 0, fails, changing nothing, only where the volume has no run of `n`
-- free blocks; otherwise it returns the start of the first such run, sets exactly its bits, lowers the
-- count of free blocks by `n` and changes nothing else.
pub alloc_run_lem :
    (v : Volume) (n : ℕ)
    → 1 ≤ n
    → ((alloc_run v n ≡ (none, v))
        × ((q : ℕ) → q + n ≤ v.total_blocks → ¬ FreeRange (unused v.bitmap) q n))
      ⊎ ((start : ℕ) × (v' : Volume) × (alloc_run v n ≡ (some start, v'))
          × ExtentTaken v n start v')
unfolding take_blocks find_blocks free_blocks
alloc_run_lem v n h = elim (Option-cases (find_blocks n v.bitmap v.total_blocks)) [
  | inl absent ↦ inl (
    nonzero_run v n h ∙ ap (take_blocks n v) absent,
    λ q hi.
        first_run-none n (unused v.bitmap) v.total_blocks 0 0 0 fresh absent q (omega arith)
          (omega arith),
  )
  | inr (start, found) ↦
      let (lo, hi, all) =
        first_run-some n (unused v.bitmap) v.total_blocks 0 0 0 start fresh found in
      let (state, counted) = set_run_lem n start v.total_blocks v.bitmap (omega arith) all in
      inr (
        start,
        record v { bitmap = set_run n start v.bitmap },
        nonzero_run v n h ∙ ap (take_blocks n v) found,
        record {
          inside = omega arith;
          were_free = all;
          first = λ q before.
              first_run-first n (unused v.bitmap) v.total_blocks 0 0 0 start fresh found q
                (omega arith) before;
          after = state;
          counted = counted;
          rest = refl;
        },
      )
]
  where
    fresh : Scanning n (unused v.bitmap) 0 0 0
    fresh = record {
      shorter = omega arith;
      fits = omega arith;
      starts = λ ne. absurd (ne refl);
      seen = λ j lo hi. absurd (omega arith);
    }

-- Freeing an extent whose end fits a `u32` clears the bits of exactly those of its blocks that the
-- volume has.
pub free_run_lem :
    (v : Volume) (start n : ℕ)
    → start + n < 2 ^ 32
    → (j : ℕ)
    → bit_get (free_run v start n).bitmap j ≡ (
        if (leb start j && ltb j (start + n)) && ltb j v.total_blocks
        then false
        else bit_get v.bitmap j)
unfolding free_run
free_run_lem v start n h j =
    let rounds : (start + n) % 2 ^ 32 - start ≡ n = omega arith in
    rw rounds (clear_run_lem n v.total_blocks start v.bitmap j)

-- `free_run` on the extent that a call returned restores the bitmap and the count of `v`.
abbrev Restores : Volume → ℕ → Option ℕ × Volume → Type 0
Restores v n (none, v') = Unit {0}
Restores v n (some start, v') =
    ((j : ℕ) → bit_get (free_run v' start n).bitmap j ≡ bit_get v.bitmap j)
    × (free_blocks (free_run v' start n) ≡ free_blocks v)

ExtentTaken-Restores :
    (v : Volume) (n start : ℕ) (v' : Volume)
    → v.total_blocks < 2 ^ 32
    → ExtentTaken v n start v'
    → Restores v n (some start, v')
unfolding free_blocks free_run
ExtentTaken-Restores v n start v' small t =
    let total : v'.total_blocks ≡ v.total_blocks = ap (λ (w : Volume). w.total_blocks) t.rest in
    let inside = t.inside in
    let same = λ (j : ℕ). free_run_lem v' start n (omega arith) j ∙ undone total j in
    (
      same,
      ap (λ k. count_clear k (free_run v' start n).bitmap) total
          ∙ count_clear-same v.total_blocks _ v.bitmap (λ j h. same j),
    )
  where
    undone :
        v'.total_blocks ≡ v.total_blocks
        → (j : ℕ)
        → (if (leb start j && ltb j (start + n)) && ltb j v'.total_blocks
            then false
            else bit_get v'.bitmap j)
          ≡ bit_get v.bitmap j
    undone total j = elim (Bool-cases (leb start j && ltb j (start + n))) [
      | inl within ↦
          rw (total, t.after j, within) (let i = t.inside in let f = t.were_free j in ground arith)
      | inr outside ↦ rw (t.after j, outside)
    ]

-- On a volume of fewer than 2^32 blocks an extent taken and freed again leaves every bit, and the
-- count of free blocks, as they were.
pub free_run-alloc_run :
    (v : Volume) (n start : ℕ) (v' : Volume)
    → v.total_blocks < 2 ^ 32
    → 1 ≤ n
    → alloc_run v n ≡ (some start, v')
    → ((j : ℕ) → bit_get (free_run v' start n).bitmap j ≡ bit_get v.bitmap j)
      × (free_blocks (free_run v' start n) ≡ free_blocks v)
free_run-alloc_run v n start v' small h run = subst (Restores v n) run (elim (alloc_run_lem v n h) [
  | inl (e, _) ↦ rw e tt
  | inr (start', v'', e, taken) ↦ rw e (ExtentTaken-Restores v n start' v'' small taken)
])
