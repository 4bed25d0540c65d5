-- ===== src/Rpfs/Files.antt =====
-- kernel/src/rpfs.rs: files written and read through the scratch buffer, and directories listed.
pub mod Writing
pub mod Refusing
pub mod Parents
use rusty_penguin.Base.{
  ℕ, zero, suc, ◌+◌, ◌-◌, ◌*◌, ◌/◌, ◌%◌, ◌^◌, min, max, List, [], ◌∷◌, Bool, true, false, not, ◌&&◌,
  ◌||◌, Option, none, some, if◌then◌else◌, ◌==◌, ltb, leb, length, take, drop,
}
use rusty_penguin.Base.Texts.{name_eq, name_eq_refl, name_eq_sound, name_eq_ne}
use rusty_penguin.Rpfs.Layout.{
  Bytes, sector, dir_entries, max_name, max_file, k_file, k_dir, scratch_sectors, put, clear,
  splice,
}
use rusty_penguin.Rpfs.Volume.{
  Volume, Entry, set_entry, find, free_slot, alloc_run, e_kind, e_start, e_size, e_nblocks, e_trit,
  e_name, is_one,
}
use rusty_penguin.Rpfs.Device.{BlockDev, Rpfs, flush_dir_entry, flush_bitmap_range}
use rusty_penguin.Rpfs.Dirs.{enter, ensure_parents, release}

-- What a listing holds; the name is the child's bytes.
pub record DirItem : Type 0 where
  pub name : List ℕ
  pub is_dir : Bool
  pub size : ℕ

-- The bytes before the last slash, and after it, if there is one.
unfoldable pub split_last : List ℕ → Option (List ℕ × List ℕ)
split_last [] = none
split_last (c ∷ cs) = split_at c cs (split_last cs)
  where
    split_at : ℕ → List ℕ → Option (List ℕ × List ℕ) → Option (List ℕ × List ℕ)
    split_at c cs (some (before, after)) = some (c ∷ before, after)
    split_at c cs none = if c == 47 then some ([], cs) else none

unfoldable pub parent_of : List ℕ → List ℕ
parent_of name = elim (split_last name) [ some (before, _) ↦ before | none ↦ [] ]

unfoldable pub child_of : List ℕ → List ℕ
child_of name = elim (split_last name) [ some (_, after) ↦ after | none ↦ name ]

-- The entries from `i` on, `n` of them.
unfoldable pub list_from : ℕ → ℕ → Bytes → List ℕ → List DirItem
list_from zero i dir path = []
list_from (suc n) i dir path =
    let rest = list_from n (i + 1) dir path in
    if is_one (e_trit dir i) && name_eq (parent_of (e_name dir i)) path
    then record {
      name = child_of (e_name dir i);
      is_dir = e_kind dir i == k_dir;
      size = e_size dir i;
    }
      ∷ rest
    else rest

unfoldable pub list_dir : Volume → List ℕ → List DirItem
list_dir v path = list_from dir_entries 0 v.dir path

abbrev pub file_entry : List ℕ → ℕ → ℕ → ℕ → ℕ → Entry
file_entry name trit start size nblocks = record {
  name = name;
  kind = k_file;
  trit = trit;
  start = start;
  size = size;
  nblocks = nblocks;
}

-- `((data.len() + SECTOR - 1) / SECTOR).max(1)`
unfoldable pub blocks_of : ℕ → ℕ
blocks_of len = max ((len + sector - 1) / sector) 1

module _ {Dev : Type 0} (B : BlockDev Dev) where
  -- The chunks of `write_file` from block `blk` on, at most 64 blocks each; `bytes` is what is left
  -- of the file. Each round writes at least one block, so `nblocks` rounds are enough.
  unfoldable pub write_chunks : ℕ → ℕ → ℕ → ℕ → List ℕ → Rpfs Dev → Bool × Rpfs Dev
  write_chunks zero nblocks start blk bytes s = (true, s)
  write_chunks (suc fuel) nblocks start blk bytes s = elim (ltb blk nblocks) [
    | true ↦
        let cnt = min (nblocks - blk) scratch_sectors in
        let cbytes = cnt * sector in
        let copy = min (length bytes) cbytes in
        let scratch = clear (put s.vol.scratch 0 (take copy bytes)) copy (cbytes - copy) in
        let (ok, d) = B.write s.dev (s.vol.data_lba + (start + blk) % 2 ^ 32) cnt scratch in
        let s' : Rpfs Dev = record { dev = d; vol = record s.vol { scratch = scratch } } in
        elim ok [
          | true ↦ write_chunks fuel nblocks start (blk + cnt) (drop copy bytes) s'
          | false ↦ (false, s')
        ]
    | false ↦ (true, s)
  ]

  -- The entry of a file whose data is on the disk.
  unfoldable pub commit : List ℕ → ℕ → ℕ → ℕ → ℕ → Bool × Rpfs Dev → Bool × Rpfs Dev
  commit name slot start size nblocks (false, s) = (false, s)
  commit name slot start size nblocks (true, s) =
      let s1 = ensure_parents B s name in
      let e = file_entry name 1 start size nblocks in
      let v = record s1.vol { dir = set_entry s1.vol.dir slot e } in
      let d = flush_bitmap_range B v start nblocks s1.dev in
      (true, record { vol = v; dev = flush_dir_entry B v slot d })

  unfoldable pub write_extent : List ℕ → List ℕ → ℕ → Option ℕ × Rpfs Dev → Bool × Rpfs Dev
  write_extent name bytes slot (none, s) = (false, enter B s slot (file_entry name 255 0 0 0))
  write_extent name bytes slot (some start, s) =
      let n = blocks_of (length bytes) in
      commit name slot start (length bytes) n (write_chunks n n start 0 bytes s)

  unfoldable pub allocate : Rpfs Dev → ℕ → Option ℕ × Rpfs Dev
  allocate s n = let (o, v) = alloc_run s.vol n in (o, record s { vol = v })

  unfoldable pub write_at : List ℕ → List ℕ → Rpfs Dev → ℕ → Bool × Rpfs Dev
  write_at name bytes s slot = write_extent name bytes slot (allocate s (blocks_of (length bytes)))

  unfoldable pub write_new : List ℕ → List ℕ → Rpfs Dev → Option ℕ → Bool × Rpfs Dev
  write_new name bytes s none = (false, s)
  write_new name bytes s (some slot) = write_at name bytes s slot

  unfoldable pub write_found : List ℕ → List ℕ → Rpfs Dev → Option ℕ → Bool × Rpfs Dev
  write_found name bytes s none = write_new name bytes s (free_slot s.vol)
  write_found name bytes s (some i) =
      if e_kind s.vol.dir i == k_dir then (false, s) else write_at name bytes (release B s i) i

  unfoldable pub write_file : Rpfs Dev → List ℕ → List ℕ → Bool × Rpfs Dev
  write_file s name bytes =
      if (not s.vol.ready || (length name == 0))
        || (ltb max_name (length name) || ltb max_file (length bytes))
      then (false, s)
      else write_found name bytes s (find s.vol name)

  -- The chunks of `read_file` from block `blk` on, into a buffer of `len` bytes.
  unfoldable pub read_chunks :
      ℕ → ℕ → ℕ → ℕ → ℕ → ℕ → ℕ → ℕ → Bytes → Rpfs Dev → Option ℕ × Bytes × Rpfs Dev
  read_chunks zero nblocks start size blk file_pos out_pos len out s = (some out_pos, out, s)
  read_chunks (suc fuel) nblocks start size blk file_pos out_pos len out s =
      elim (ltb blk nblocks) [
        | true ↦
            let cnt = min (nblocks - blk) scratch_sectors in
            let cbytes = cnt * sector in
            let (ok, got, d) =
              B.read s.dev (s.vol.data_lba + (start + blk) % 2 ^ 32) cnt s.vol.scratch in
            let scratch = splice s.vol.scratch 0 cbytes got in
            let s' : Rpfs Dev = record { dev = d; vol = record s.vol { scratch = scratch } } in
            let valid = min (size - file_pos) cbytes in
            let n = min valid (len - out_pos) in
            let out' = splice out out_pos n scratch in
            elim ok [
              | true ↦ elim (leb len (out_pos + n) || leb size (file_pos + cbytes)) [
                | true ↦ (some (out_pos + n), out', s')
                | false ↦
                    read_chunks fuel nblocks start size (blk + cnt) (file_pos + cbytes)
                      (out_pos + n) len out' s'
              ]
              | false ↦ (none, out, s')
            ]
        | false ↦ (some out_pos, out, s)
      ]

  unfoldable pub read_found : Rpfs Dev → ℕ → Bytes → Option ℕ → Option ℕ × Bytes × Rpfs Dev
  read_found s len out none = (none, out, s)
  read_found s len out (some i) =
      if e_kind s.vol.dir i == k_dir
      then (none, out, s)
      else let n = e_nblocks s.vol.dir i in
        read_chunks n n (e_start s.vol.dir i) (e_size s.vol.dir i) 0 0 0 len out s

  unfoldable pub read_file : Rpfs Dev → List ℕ → ℕ → Bytes → Option ℕ × Bytes × Rpfs Dev
  read_file s name len out =
      if not s.vol.ready then (none, out, s) else read_found s len out (find s.vol name)
