-- ===== src/Rpfs/Files/Refusing.antt =====
-- `write_file`: why a write is refused.
use rusty_penguin.Base.{
  ℕ, zero, suc, ◌+◌, ◌≤◌, ◌≡◌, refl, ap, sym, subst, ◌∙◌, List, Bool, true, false, not, ◌||◌,
  Option, none, some, if◌then◌else◌, ◌==◌, ==_iff, ltb, length, arith, Option-cases, Bool-cases,
  inl, inr,
}
use rusty_penguin.Base.Runs.{FreeRange}
use rusty_penguin.Rpfs.Layout.{Bytes, max_name, max_file, k_dir}
use rusty_penguin.Rpfs.Volume.{Volume, find, free_slot, e_kind}
use rusty_penguin.Rpfs.Volume.Blocks.{unused}
use rusty_penguin.Rpfs.Volume.Alloc.{alloc_run_lem}
use rusty_penguin.Rpfs.Volume.Entries.{IsName}
use rusty_penguin.Rpfs.Device.{BlockDev, Rpfs}
use rusty_penguin.Rpfs.Dirs.{release}
use rusty_penguin.Rpfs.Files.{
  blocks_of, write_chunks, commit, write_extent, allocate, write_at, write_new, write_found,
  write_file,
}

-- No `n` contiguous blocks are free.
abbrev pub NoRoom : Volume → ℕ → Type 0
NoRoom v n = (q : ℕ) → q + n ≤ v.total_blocks → ¬ FreeRange (unused v.bitmap) q n

module _ {Dev : Type 0} (B : BlockDev Dev) where
  -- Why a write of `n` blocks under `name` is refused.
  pub data Refusal (s : Rpfs Dev) (name : List ℕ) (n : ℕ) : Type 0 where
    is_dir : (i : ℕ) → find s.vol name ≡ some i → e_kind s.vol.dir i ≡ k_dir → Refusal s name n
    no_slot : find s.vol name ≡ none → free_slot s.vol ≡ none → Refusal s name n
    no_room : find s.vol name ≡ none → NoRoom s.vol n → Refusal s name n
    no_room_over :
        (i : ℕ) → find s.vol name ≡ some i → NoRoom (release B s i).vol n → Refusal s name n

  -- Every write to the device succeeds.
  abbrev pub Reliable : Type 0
  Reliable = (d : Dev) (lba count : ℕ) (buf : Bytes) → (B.write d lba count buf).0 ≡ true

  module _ (reliable : Reliable) where
    chosen :
        (b : Bool) (x y : Bool × Rpfs Dev)
        → x.0 ≡ true
        → (b ≡ false → y.0 ≡ true)
        → (elim b as (λ t. Bool × Rpfs Dev) [ true ↦ x | false ↦ y ]).0 ≡ true
    chosen true x y hx hy = hx
    chosen false x y hx hy = hy refl

    went_well :
        (b : Bool) (x y : Bool × Rpfs Dev)
        → b ≡ true
        → x.0 ≡ true
        → (elim b as (λ t. Bool × Rpfs Dev) [ true ↦ x | false ↦ y ]).0 ≡ true
    went_well true x y e hx = hx
    went_well false x y e hx = cc

    write_chunks-true :
        (fuel nblocks start blk : ℕ) (bytes : List ℕ) (s : Rpfs Dev)
        → (write_chunks B fuel nblocks start blk bytes s).0 ≡ true
    unfolding write_chunks
    write_chunks-true zero nblocks start blk bytes s = refl
    write_chunks-true (suc fuel) nblocks start blk bytes s =
        chosen (ltb blk nblocks) _ _
          (went_well _ _ _ (reliable _ _ _ _) (write_chunks-true fuel nblocks start _ _ _))
          (λ _. refl)

    commit-true :
        (name : List ℕ) (slot start size n : ℕ) (r : Bool × Rpfs Dev)
        → r.0 ≡ true
        → (commit B name slot start size n r).0 ≡ true
    unfolding commit
    commit-true name slot start size n (true, s) e = refl
    commit-true name slot start size n (false, s) e = cc

    write_at-false :
        (s : Rpfs Dev) (name bytes : List ℕ) (slot : ℕ)
        → (write_at B name bytes s slot).0 ≡ false
        → NoRoom s.vol (blocks_of (length bytes))
    unfolding write_at write_extent allocate blocks_of
    write_at-false s name bytes slot =
        elim (alloc_run_lem s.vol (blocks_of (length bytes)) (omega arith)) [
          | inl (full, none_free) ↦ λ e. none_free
          | inr (start, v, found, taken) ↦ subst Good (sym found) (λ e. absurd (
              true_false (
                sym (
                  commit-true name slot start (length bytes) n (chunks v start)
                    (write_chunks-true n n start 0 bytes (record s { vol = v })))
                ∙ e)))
        ]
      where
        n : ℕ
        n = blocks_of (length bytes)

        chunks : Volume → ℕ → Bool × Rpfs Dev
        chunks v start = write_chunks B n n start 0 bytes (record s { vol = v })

        true_false : ¬ (true ≡ false)
        true_false e = cc

        Good : Option ℕ × Volume → Type 0
        Good r =
            (write_extent B name bytes slot (r.0, record s { vol = r.1 })).0 ≡ false
            → NoRoom s.vol (blocks_of (length bytes))

    write_found-false :
        (s : Rpfs Dev) (name bytes : List ℕ)
        → (write_found B name bytes s (find s.vol name)).0 ≡ false
        → Refusal s name (blocks_of (length bytes))
    unfolding write_found write_new
    write_found-false s name bytes = elim (Option-cases (find s.vol name)) [
      | inl absent ↦ subst Good (sym absent) (elim (Option-cases (free_slot s.vol)) [
        | inl full ↦ λ e. no_slot absent full
        | inr (slot, free) ↦
            subst (λ o. Fails (write_new B name bytes s o)) (sym free)
              (λ e. no_room absent (write_at-false s name bytes slot e))
      ])
      | inr (i, there) ↦ subst Good (sym there) (elim (Bool-cases (e_kind s.vol.dir i == k_dir)) [
        | inl dir ↦ λ e. is_dir i there ((==_iff (e_kind s.vol.dir i) k_dir).0 dir)
        | inr file ↦
            subst (λ b. Fails (if b then (false, s) else write_at B name bytes (release B s i) i))
              (sym file) (λ e. no_room_over i there (write_at-false (release B s i) name bytes i e))
      ])
    ]
      where
        Fails : Bool × Rpfs Dev → Type 0
        Fails r = r.0 ≡ false → Refusal s name (blocks_of (length bytes))

        Good : Option ℕ → Type 0
        Good o = Fails (write_found B name bytes s o)

    -- On a device whose writes succeed and a mounted volume, a write of at most 1 MiB under a name of 1
    -- to 111 bytes, none of them 0, returns false only where the name is a directory, where it is new
    -- and no slot is left, or where no run of enough blocks is free, for a name that is there after the
    -- blocks of the old file are freed.
    pub write_file-Refusal :
        (s : Rpfs Dev) (name bytes : List ℕ)
        → s.vol.ready ≡ true
        → IsName name
        → 1 ≤ length name
        → length bytes ≤ max_file
        → (write_file B s name bytes).0 ≡ false
        → Refusal s name (blocks_of (length bytes))
    unfolding write_file
    write_file-Refusal s name bytes r ok h fits =
        subst (λ b. Fails (if b then (false, s) else write_found B name bytes s (find s.vol name)))
          (sym legal) (write_found-false s name bytes)
      where
        Fails : Bool × Rpfs Dev → Type 0
        Fails out = out.0 ≡ false → Refusal s name (blocks_of (length bytes))

        legal :
            ((not s.vol.ready || (length name == 0))
              || (ltb max_name (length name) || ltb max_file (length bytes)))
            ≡ false
        legal =
            ap
              (λ b.
                (not b || (length name == 0))
                || (ltb max_name (length name) || ltb max_file (length bytes)))
              r
            ∙ (let f = ok.fits in ground arith)
