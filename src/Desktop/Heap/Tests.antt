-- ===== src/Desktop/Heap/Tests.antt =====
-- Runs of the heap, and the theorems at concrete heaps.
use rusty_penguin.Base.{ℕ, ◌*◌, ◌/◌, ◌^◌, ◌≤◌, ◌≡◌, refl, ◌⊎◌, [], ◌∷◌, some, arith}
use rusty_penguin.Desktop.Heap.{
  Heap, init, alloc, dealloc, alloc_from, take_block, align_up, round_block, poke, write,
}
use rusty_penguin.Desktop.Heap.Blocks.{Blocks, free_at, total}
use rusty_penguin.Desktop.Heap.Valid.{IsValid, Allocated, NoRun, alloc_lem}
use rusty_penguin.Desktop.Heap.Insert.{Region}
use rusty_penguin.Desktop.Heap.Dealloc.{init-IsValid, Freed, dealloc_lem, dealloc-alloc}

-- 1024 bytes at address 4096.
abbrev fresh : Heap
fresh = init (λ a. 0) 4096 1024

abbrev whole : Blocks
whole = (4096, 1024 / 16 * 16) ∷ []

init-IsValid_example : IsValid fresh whole
init-IsValid_example =
    init-IsValid (λ a. 0) 4096 1024 (omega arith) (omega arith) (omega arith) (omega arith)

fresh-IsValid : IsValid fresh whole
fresh-IsValid =
    init-IsValid (λ a. 0) 4096 1024 (omega arith) (omega arith) (omega arith) (omega arith)

alloc_lem_example :
    (40 ≤ round_block 40)
    × (((alloc fresh 40 (2 ^ 5) ≡ some (0, fresh)) × NoRun 5 (round_block 40) whole)
        ⊎ ((a : ℕ) × (h' : Heap) × (bs' : Blocks) × (alloc fresh 40 (2 ^ 5) ≡ some (a, h'))
            × Allocated 5 (round_block 40) fresh whole a h' bs'))
alloc_lem_example = alloc_lem fresh whole fresh-IsValid 40 5 (omega arith) (omega arith)

-- The heap after 40 bytes were taken, and the address they have.
abbrev after_forty : Heap
after_forty = take_block fresh 48 0 4096 4096

taken : alloc fresh 40 (2 ^ 5) ≡ some (4096, after_forty)
unfolding alloc alloc_from align_up round_block init write poke
taken = refl

dealloc-alloc_example :
    (h'' : Heap) × (bs'' : Blocks) × (dealloc after_forty 4096 40 ≡ some h'')
    × IsValid h'' bs''
    × ((x : ℕ) → free_at bs'' x ≡ free_at whole x)
    × (h''.live ≡ fresh.live)
dealloc-alloc_example =
    dealloc-alloc fresh whole 40 5 4096 after_forty fresh-IsValid (omega arith) (omega arith) taken
      (omega arith)

-- The first 64 bytes are handed out, and the rest is one block.
abbrev part_taken : Heap
part_taken = record {
  head = 4160;
  base = 4096;
  end = 5120;
  live = 64;
  mem = write (λ a. 0) 4160 960 0;
}

part_taken-IsValid : IsValid part_taken ((4160, 960) ∷ [])
unfolding write poke total
part_taken-IsValid = record {
  chain = (refl, refl, refl);
  sorted = (
    record {
      above = omega arith;
      aligned = refl;
      whole = refl;
      room = omega arith;
      inside = omega arith;
    },
    tt,
  );
  based = omega arith;
  counted = refl;
  small = omega arith;
}

first-Region : Region 5120 4096 (round_block 60) ((4160, 960) ∷ [])
unfolding round_block align_up free_at
first-Region = record {
  aligned = refl;
  whole = refl;
  room = omega arith;
  inside = omega arith;
  used = λ x h. ground arith;
}

dealloc_lem_example :
    (h' : Heap) × (dealloc part_taken 4096 60 ≡ some h')
    × Freed part_taken ((4160, 960) ∷ []) 4096 (round_block 60) h'
dealloc_lem_example =
    dealloc_lem part_taken ((4160, 960) ∷ []) 4096 60 part_taken-IsValid (omega arith) first-Region
