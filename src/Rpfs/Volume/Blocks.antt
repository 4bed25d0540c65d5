-- ===== src/Rpfs/Volume/Blocks.antt =====
-- The block bitmap read bit by bit, and the counts of free blocks.
use rusty_penguin.Base.{
  ℕ, zero, suc, ◌+◌, ◌/◌, ◌%◌, ◌≤◌, ◌<◌, ◌≡◌, refl, ◌≢◌, ap, sym, ◌∙◌, Bool, true, false, not, ◌&&◌,
  if◌then◌else◌, ◌==◌, ==_iff, ==_refl, ne→==, ℕ_discrete, ltb, leb, arith, Bool-cases, inl, inr,
}
use rusty_penguin.Base.Bits.{
  bit_at, shift-bit_and-one, bit_at-set_self, bit_at-set_ne, bit_at-clear_self, bit_at-clear_ne,
}
use rusty_penguin.Base.Runs.{FreeRange}
use rusty_penguin.Rpfs.Layout.{Bytes}
use rusty_penguin.Rpfs.Volume.{store, bit_get, bit_set, set_run, clear_run, count_clear}

-- The bit of a block.
abbrev pub block_bit : Bytes → ℕ → ℕ
block_bit bm b = bit_at (bm (b / 8)) (b % 8)

pub bit_get_lem : (bm : Bytes) (b : ℕ) → bit_get bm b ≡ not (block_bit bm b == 0)
unfolding bit_get
bit_get_lem bm b = rw (shift-bit_and-one (bm (b / 8)) (b % 8))

-- A byte written at `p / 8` whose bits are those of the old byte but at `p % 8`.
block_bit-store :
    (bm : Bytes) (p j w b : ℕ)
    → bit_at w (p % 8) ≡ b
    → (j % 8 ≢ p % 8 → bit_at w (j % 8) ≡ bit_at (bm (p / 8)) (j % 8))
    → block_bit (store bm (p / 8) w) j ≡ (if j == p then b else block_bit bm j)
unfolding store
block_bit-store bm p j w b here there = elim (ℕ_discrete j p) [
  | yes same ↦ rw (same, ==_refl p, ==_refl (p / 8)) here
  | no other ↦ elim (ℕ_discrete (j / 8) (p / 8)) [
    | yes word ↦
        rw (ne→== j p other, (==_iff (j / 8) (p / 8)).1 word, word)
          (there (λ bit. other (omega arith)))
    | no word ↦ rw (ne→== j p other, ne→== (j / 8) (p / 8) word)
  ]
]

block_bit-bit_set :
    (bm : Bytes) (p : ℕ) (v : Bool) (j : ℕ)
    → block_bit (bit_set bm p v) j ≡ (if j == p then (if v then 1 else 0) else block_bit bm j)
unfolding bit_set
block_bit-bit_set bm p true j =
    block_bit-store bm p j _ 1 (bit_at-set_self _ (p % 8)) (bit_at-set_ne _ (p % 8) (j % 8))
block_bit-bit_set bm p false j =
    block_bit-store bm p j _ 0 (bit_at-clear_self 8 _ (p % 8) (omega arith))
      (bit_at-clear_ne 8 _ (p % 8) (j % 8) (omega arith) (omega arith))

-- Writing the bit of a block changes that bit and no other.
pub bit_get-bit_set :
    (bm : Bytes) (p : ℕ) (v : Bool) (j : ℕ)
    → bit_get (bit_set bm p v) j ≡ (if j == p then v else bit_get bm j)
bit_get-bit_set bm p v j =
    rw (bit_get_lem (bit_set bm p v) j, bit_get_lem bm j, block_bit-bit_set bm p v j)
      (elim (Bool-cases (j == p)) [ inl same ↦ rw same (value v) | inr other ↦ rw other ])
  where
    value : (b : Bool) → not ((if b then 1 else 0) == 0) ≡ b
    value true = refl
    value false = refl

-- A block that is not in use.
abbrev pub unused : Bytes → ℕ → Bool
unused bm b = not (bit_get bm b)

pub unused-bit_set :
    (bm : Bytes) (p : ℕ) (v : Bool) (j : ℕ)
    → unused (bit_set bm p v) j ≡ (if j == p then not v else unused bm j)
unused-bit_set bm p v j =
    rw (bit_get-bit_set bm p v j)
      (elim (Bool-cases (j == p)) [ inl same ↦ rw same | inr other ↦ rw other ])

pub count_clear-same :
    (n : ℕ) (bm bm' : Bytes)
    → ((j : ℕ) → j < n → bit_get bm j ≡ bit_get bm' j)
    → count_clear n bm ≡ count_clear n bm'
unfolding count_clear
count_clear-same zero bm bm' same = refl
count_clear-same (suc n) bm bm' same =
    rw (same n (omega arith), count_clear-same n bm bm' (λ j h. same j (omega arith)))

-- Taking one unused block counts it.
pub count_clear-bit_set :
    (n p : ℕ) (bm : Bytes)
    → p < n
    → bit_get bm p ≡ false
    → count_clear n bm ≡ suc (count_clear n (bit_set bm p true))
unfolding count_clear
count_clear-bit_set zero p bm h free = absurd (omega arith)
count_clear-bit_set (suc n) p bm h free = elim (ℕ_discrete n p) [
  | yes last ↦
      let taken : bit_get (bit_set bm p true) n ≡ true =
        bit_get-bit_set bm p true n
        ∙ ap (λ b. if b then true else bit_get bm n) ((==_iff n p).1 last) in
      let was : bit_get bm n ≡ false = rw last free in
      let rest : count_clear n bm ≡ count_clear n (bit_set bm p true) =
        count_clear-same n bm (bit_set bm p true) (λ j hj. sym (other j (omega arith))) in
      rw (taken, was, rest) (omega arith)
  | no below ↦ rw (other n below) (omega (arith, count_clear-bit_set n p bm (omega arith) free))
]
  where
    other : (j : ℕ) → j ≢ p → bit_get (bit_set bm p true) j ≡ bit_get bm j
    other j ne =
        bit_get-bit_set bm p true j ∙ ap (λ b. if b then true else bit_get bm j) (ne→== j p ne)

-- Taking a run of unused blocks sets exactly their bits, and counts them.
pub set_run_lem :
    (n start total : ℕ) (bm : Bytes)
    → start + n ≤ total
    → FreeRange (unused bm) start n
    → ((j : ℕ)
        → bit_get (set_run n start bm) j
          ≡ (if leb start j && ltb j (start + n) then true else bit_get bm j))
      × (count_clear total bm ≡ n + count_clear total (set_run n start bm))
unfolding set_run
set_run_lem zero start total bm h all = (λ j. ground arith, omega arith)
set_run_lem (suc n) start total bm h all =
    let here : bit_get bm start ≡ false = was_clear (all start (omega arith) (omega arith)) in
    let one = λ (j : ℕ). bit_get-bit_set bm start true j in
    let (state, counted) =
      set_run_lem n (start + 1) total (bit_set bm start true) (omega arith)
        (λ j lo hi. rest j lo hi) in
    (
      λ j. ground (arith, state j, one j),
      omega (arith, counted, count_clear-bit_set total start bm (omega arith) here),
    )
  where
    was_clear : {b : Bool} → not b ≡ true → b ≡ false
    was_clear {b} e = ground arith

    rest : (j : ℕ) → start + 1 ≤ j → j < start + 1 + n → unused (bit_set bm start true) j ≡ true
    rest j lo hi =
        rw (unused-bit_set bm start true j, ne→== j start (omega arith))
          (all j (omega arith) (omega arith))

-- Freeing a run clears exactly the bits of its blocks that the volume has.
pub clear_run_lem :
    (n total start : ℕ) (bm : Bytes) (j : ℕ)
    → bit_get (clear_run total n start bm) j
      ≡ (if (leb start j && ltb j (start + n)) && ltb j total then false else bit_get bm j)
unfolding clear_run
clear_run_lem zero total start bm j = ground arith
clear_run_lem (suc n) total start bm j = elim (Bool-cases (ltb start total)) [
  | inl inside ↦ rw inside (
      ground (
        arith,
        clear_run_lem n total (start + 1) (bit_set bm start false) j,
        bit_get-bit_set bm start false j,
      ))
  | inr outside ↦ rw outside (ground (arith, clear_run_lem n total (start + 1) bm j))
]
