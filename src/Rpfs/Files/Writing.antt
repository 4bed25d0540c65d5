-- ===== src/Rpfs/Files/Writing.antt =====
-- `write_file`: the entry that a write which succeeds leaves.
use rusty_penguin.Base.{
  ℕ, zero, suc, ◌^◌, ◌≤◌, ◌<◌, ◌≡◌, refl, ap, sym, subst, ◌∙◌, List, Bool, true, false, not, ◌||◌,
  Option, some, if◌then◌else◌, ◌==◌, ==_refl, ne→==, ltb, length, arith, Option-cases, Bool-cases,
  inl, inr,
}
use rusty_penguin.Base.Texts.{name_eq, name_eq_refl}
use rusty_penguin.Rpfs.Layout.{Bytes, dir_entries, max_name, max_file, k_dir}
use rusty_penguin.Rpfs.Volume.{
  Volume, set_entry, find, free_slot, holds, e_trit, e_kind, is_vacant, free_run,
}
use rusty_penguin.Rpfs.Volume.Alloc.{alloc_run_lem}
use rusty_penguin.Rpfs.Volume.Entries.{IsName, Reads, set_entry_lem}
use rusty_penguin.Rpfs.Volume.Names.{holds-set_entry}
use rusty_penguin.Rpfs.Volume.Search.{
  first_entry-none, first_entry-some, first_entry-before, first_entry-first,
}
use rusty_penguin.Rpfs.Device.{BlockDev, Rpfs}
use rusty_penguin.Rpfs.Dirs.{ensure_parents, release}
use rusty_penguin.Rpfs.Files.{
  file_entry, blocks_of, write_chunks, commit, write_extent, allocate, write_at, write_new,
  write_found, write_file,
}
use rusty_penguin.Rpfs.Dirs.Others.{ensure_from-other}

module _ {Dev : Type 0} (B : BlockDev Dev) where
  -- The chunks change neither directory nor geometry.
  same_dir :
      (d : Bytes) (b : Bool) (x y : Bool × Rpfs Dev)
      → x.1.vol.dir ≡ d
      → y.1.vol.dir ≡ d
      → (elim b as (λ t. Bool × Rpfs Dev) [ true ↦ x | false ↦ y ]).1.vol.dir ≡ d
  same_dir d true x y hx hy = hx
  same_dir d false x y hx hy = hy

  pub write_chunks-dir :
      (fuel nblocks start blk : ℕ) (bytes : List ℕ) (s : Rpfs Dev)
      → (write_chunks B fuel nblocks start blk bytes s).1.vol.dir ≡ s.vol.dir
  unfolding write_chunks
  write_chunks-dir zero nblocks start blk bytes s = refl
  write_chunks-dir (suc fuel) nblocks start blk bytes s =
      same_dir s.vol.dir (ltb blk nblocks) _ _
        (same_dir s.vol.dir _ _ _ (write_chunks-dir fuel nblocks start _ _ _) refl) refl

  -- The entry of a file that is found at `slot`.
  pub record Written (name : List ℕ) (size slot : ℕ) (s : Rpfs Dev) : Type 0 where
    pub start : ℕ
    pub entry : Reads s.vol.dir slot (file_entry name 1 start size (blocks_of size))
    pub found : find s.vol name ≡ some slot

  module _ (name : List ℕ) (size slot : ℕ) (ok : IsName name) (inside : slot < dir_entries)
      (fits : size ≤ max_file) where
    few_blocks : blocks_of size < 2 ^ 32
    unfolding blocks_of
    few_blocks = omega arith

    commit-Written :
        (start : ℕ) (r : Bool × Rpfs Dev)
        → start < 2 ^ 32
        → ((j : ℕ) → j < slot → holds r.1.vol.dir name j ≡ false)
        → (commit B name slot start size (blocks_of size) r).0 ≡ true
        → Written name size slot (commit B name slot start size (blocks_of size) r).1
    unfolding commit find ensure_parents
    commit-Written start (false, s) small before e = cc
    commit-Written start (true, s) small before e =
        let entry = file_entry name 1 start size (blocks_of size) in
        let dir = (ensure_parents B s name).vol.dir in
        let reads = (set_entry_lem dir slot entry ok small (omega arith) few_blocks).0 in
        record {
          start = start;
          entry = reads;
          found =
              first_entry-first dir_entries 0 slot (holds (set_entry dir slot entry) name)
                (λ j lo hi.
                  holds-set_entry dir slot entry name j reads refl
                  ∙ ap (λ b. if b then name_eq name name else holds dir name j)
                      (ne→== j slot (omega arith))
                  ∙ ensure_from-other B name 0 name s ok (omega arith) j (before j hi))
                (omega arith) (omega arith)
                (holds-set_entry dir slot entry name slot reads refl
                  ∙ ap (λ b. if b then name_eq name name else holds dir name slot) (==_refl slot)
                  ∙ name_eq_refl name);
        }

    -- A write to a slot, with no earlier slot holding the name.
    write_at-Written :
        (s : Rpfs Dev) (bytes : List ℕ)
        → length bytes ≡ size
        → s.vol.total_blocks < 2 ^ 32
        → ((j : ℕ) → j < slot → holds s.vol.dir name j ≡ false)
        → (write_at B name bytes s slot).0 ≡ true
        → Written name size slot (write_at B name bytes s slot).1
    unfolding write_at write_extent allocate blocks_of
    write_at-Written s bytes len few before =
        elim (alloc_run_lem s.vol (blocks_of (length bytes)) (omega arith)) [
          | inl (full, _) ↦ subst Good (sym full) (λ e. cc)
          | inr (start, v, found, taken) ↦
              let dir : v.dir ≡ s.vol.dir = ap (λ (w : Volume). w.dir) taken.rest in
              let same =
                write_chunks-dir (blocks_of (length bytes)) (blocks_of (length bytes)) start 0 bytes
                  (record s { vol = v })
                ∙ dir in
              subst Good (sym found) (
                subst
                  (λ k.
                    (commit B name slot start k (blocks_of k) (chunks v start)).0 ≡ true
                    → Written name size slot
                        (commit B name slot start k (blocks_of k) (chunks v start)).1)
                  (sym len)
                  (commit-Written start (chunks v start) (let i = taken.inside in omega arith)
                    (λ j lt. ap (λ d. holds d name j) same ∙ before j lt)))
        ]
      where
        chunks : Volume → ℕ → Bool × Rpfs Dev
        chunks v start =
            write_chunks B (blocks_of (length bytes)) (blocks_of (length bytes)) start 0 bytes
              (record s { vol = v })

        result : Option ℕ × Volume → Bool × Rpfs Dev
        result r = write_extent B name bytes slot (r.0, record s { vol = r.1 })

        Good : Option ℕ × Volume → Type 0
        Good r = (result r).0 ≡ true → Written name size slot (result r).1

  write_found-Written :
      (s : Rpfs Dev) (name bytes : List ℕ)
      → s.vol.total_blocks < 2 ^ 32
      → IsName name
      → length bytes ≤ max_file
      → (write_found B name bytes s (find s.vol name)).0 ≡ true
      → (slot : ℕ) × Written name
          (length bytes)
          slot
          (write_found B name bytes s (find s.vol name)).1
  unfolding write_found write_new find free_slot release free_run
  write_found-Written s name bytes few ok fits = elim (Option-cases (find s.vol name)) [
    | inl absent ↦ subst Good (sym absent) (elim (Option-cases (free_slot s.vol)) [
      | inl full ↦ subst Fresh (sym full) (λ e. cc)
      | inr (slot, free) ↦
          let (lo, hi, vacant) =
            first_entry-some dir_entries 0 (λ i. is_vacant (e_trit s.vol.dir i)) slot free in
          subst Fresh (sym free) (λ e. (
            slot,
            write_at-Written name (length bytes) slot ok (omega arith) fits s bytes refl few
                (λ j lt.
                  first_entry-none dir_entries 0 (holds s.vol.dir name) absent j (omega arith)
                    (omega arith))
                e,
          ))
    ])
    | inr (slot, there) ↦
        let (lo, hi, held) = first_entry-some dir_entries 0 (holds s.vol.dir name) slot there in
        subst Good (sym there) (elim (Bool-cases (e_kind s.vol.dir slot == k_dir)) [
          | inl dir ↦ subst (Chosen slot) (sym dir) (λ e. cc)
          | inr file ↦ subst (Chosen slot) (sym file) (λ e. (
            slot,
            write_at-Written name (length bytes) slot ok (omega arith) fits (release B s slot) bytes
                refl few
                (λ j lt.
                  first_entry-before dir_entries 0 (holds s.vol.dir name) slot there j (omega arith)
                    lt)
                e,
          ))
        ])
  ]
    where
      Done : Bool × Rpfs Dev → Type 0
      Done r = r.0 ≡ true → (slot : ℕ) × Written name (length bytes) slot r.1

      Good : Option ℕ → Type 0
      Good o = Done (write_found B name bytes s o)

      Fresh : Option ℕ → Type 0
      Fresh o = Done (write_new B name bytes s o)

      Chosen : ℕ → Bool → Type 0
      Chosen slot b = Done (if b then (false, s) else write_at B name bytes (release B s slot) slot)

  -- On a mounted volume of fewer than 2^32 blocks, a write of at most 1 MiB under a name of 1 to 111
  -- bytes, none of them 0, that returns true on any device leaves an entry that a search for the name
  -- returns: an active file of that name, with the size of the data and its number of blocks.
  pub write_file_lem :
      (s : Rpfs Dev) (name bytes : List ℕ)
      → s.vol.ready ≡ true
      → s.vol.total_blocks < 2 ^ 32
      → IsName name
      → 1 ≤ length name
      → length bytes ≤ max_file
      → (write_file B s name bytes).0 ≡ true
      → (slot : ℕ) × Written name (length bytes) slot (write_file B s name bytes).1
  unfolding write_file
  write_file_lem s name bytes r few ok h fits =
      subst (λ b. Done (if b then (false, s) else write_found B name bytes s (find s.vol name)))
        (sym legal) (write_found-Written s name bytes few ok fits)
    where
      Done : Bool × Rpfs Dev → Type 0
      Done out = out.0 ≡ true → (slot : ℕ) × Written name (length bytes) slot out.1

      legal :
          ((not s.vol.ready || (length name == 0))
            || (ltb max_name (length name) || ltb max_file (length bytes)))
          ≡ false
      legal =
          ap
            (λ b.
              (not b || (length name == 0))
              || (ltb max_name (length name) || ltb max_file (length bytes)))
            r
          ∙ (let f = ok.fits in ground arith)
