-- ===== src/Rpfs/Tests.antt =====
-- Runs of the filesystem's operations, and the theorems at concrete volumes.
use rusty_penguin.Base.{
  ℕ, ◌+◌, ◌*◌, ◌≤◌, ◌<◌, ◌≡◌, refl, ◌≢◌, ap, ◌⊎◌, List, [], ◌∷◌, true, false, ◌&&◌, none, some,
  if◌then◌else◌, ltb, leb, arith, zero, suc, get_or, sym, ◌∙◌, ne→==, ℕ_discrete,
}
use rusty_penguin.Base.Runs.{FreeRange, first_run}
use rusty_penguin.Base.Texts.{name_eq}
use rusty_penguin.Rpfs.Layout.{Bytes, sector, entry_sz, dir_entries, k_dir, k_file, splice, from}
use rusty_penguin.Rpfs.Volume.{
  free_slot, Volume, Entry, bit_get, alloc_run, free_run, free_blocks, find, set_entry, ent,
  is_vacant, holds, e_trit, e_kind, is_one, as_i8, take_blocks, find_blocks, first_entry,
}
use rusty_penguin.Rpfs.Volume.Blocks.{unused}
use rusty_penguin.Rpfs.Volume.Alloc.{ExtentTaken, alloc_run_lem, free_run_lem, free_run-alloc_run}
use rusty_penguin.Rpfs.Volume.Entries.{IsName, Reads, set_entry_lem}
use rusty_penguin.Rpfs.Volume.Names.{find-set_entry, holds-set_entry}
use rusty_penguin.Rpfs.Volume.Search.{first_entry-never}
use rusty_penguin.Rpfs.Device.{BlockDev, Rpfs}
use rusty_penguin.Rpfs.Dirs.Below.{Below}
use rusty_penguin.Rpfs.Dirs.{mkdir, delete_file}
use rusty_penguin.Rpfs.Dirs.Making.{Made, mkdir_lem}
use rusty_penguin.Rpfs.Dirs.Deleting.{Distinct, Removed, delete_file_lem}
use rusty_penguin.Rpfs.Files.{
  write_file, write_found, write_new, write_at, allocate, blocks_of, write_extent, write_chunks,
  commit,
}
use rusty_penguin.Rpfs.Files.Refusing.{Refusal, write_file-Refusal}
use rusty_penguin.Rpfs.Files.Parents.{find-write_file}
use rusty_penguin.Rpfs.Files.Writing.{Written, write_file_lem}

-- A disk in memory: the byte at each address, always ready.
abbrev ram : BlockDev Bytes
ram = record {
  read = λ d lba count buf. (true, splice buf 0 (count * sector) (from d (lba * sector)), d);
  write = λ d lba count buf. (true, splice d (lba * sector) (count * sector) buf);
}

-- A mounted volume of 40 blocks, with nothing on it.
abbrev empty : Volume
empty = record {
  base = 0;
  total_blocks = 40;
  bitmap_lba = 1;
  bitmap_sectors = 1;
  dir_lba = 2;
  data_lba = 514;
  bitmap = λ k. 0;
  dir = λ k. 0;
  scratch = λ k. 0;
  ready = true;
}

abbrev fresh : Rpfs Bytes
fresh = record { dev = λ k. 0; vol = empty }

-- The names "a" and "a/b".
abbrev a_dir : List ℕ
a_dir = 97 ∷ []

abbrev a_file : List ℕ
a_file = 97 ∷ 47 ∷ 98 ∷ []

a_file-IsName : IsName a_file
a_file-IsName = record { fits = omega arith; clean = clean }
  where
    clean : (j : ℕ) → j < 3 → get_or a_file j 0 ≢ 0
    clean zero h = omega arith
    clean (suc zero) h = omega arith
    clean (suc (suc zero)) h = omega arith
    clean (suc (suc (suc j))) h = absurd (omega arith)

abbrev file : Entry
file = record { name = a_file; kind = k_file; trit = 1; start = 2; size = 600; nblocks = 2 }

nothing_held : (name : List ℕ) (j : ℕ) → holds (λ k. 0) name j ≡ false
unfolding holds is_one e_trit as_i8
nothing_held name j = refl

nothing_found : (name : List ℕ) → find empty name ≡ none
unfolding find
nothing_found name =
    first_entry-never dir_entries 0 (holds empty.dir name) (λ j lo hi. nothing_held name j)

vacant : is_vacant (e_trit empty.dir 3) ≡ true
unfolding is_vacant e_trit as_i8
vacant = refl

-- The empty volume with "a/b" in slot 3.
one_file : Rpfs Bytes
one_file = record fresh { vol = record empty { dir = set_entry empty.dir 3 file } }

one_file_found : find one_file.vol a_file ≡ some 3
unfolding one_file
one_file_found =
    (find-set_entry empty 3 file (omega arith) vacant (nothing_found a_file) refl a_file-IsName
      (omega arith) (omega arith) (omega arith)).0

only_slot : (name : List ℕ) (j : ℕ) → holds one_file.vol.dir name j ≡ true → j ≡ 3
unfolding one_file
only_slot name j held = elim (ℕ_discrete j 3) [
  | yes here ↦ here
  | no other ↦
      let reads =
        (set_entry_lem empty.dir 3 file a_file-IsName (omega arith) (omega arith)
          (omega arith)).0 in
      let not_there : holds one_file.vol.dir name j ≡ false =
        holds-set_entry empty.dir 3 file name j reads refl
        ∙ ap (λ b. if b then name_eq file.name name else holds empty.dir name j) (ne→== j 3 other)
        ∙ nothing_held name j in
      cc
]

one_file-Distinct : Distinct one_file.vol.dir
one_file-Distinct name i j hi hj here there = only_slot name i here ∙ sym (only_slot name j there)

alloc_run_lem_example :
    ((alloc_run empty 3 ≡ (none, empty))
      × ((q : ℕ) → q + 3 ≤ 40 → ¬ FreeRange (unused empty.bitmap) q 3))
    ⊎ ((start : ℕ) × (v' : Volume) × (alloc_run empty 3 ≡ (some start, v'))
        × ExtentTaken empty 3 start v')
alloc_run_lem_example = alloc_run_lem empty 3 (omega arith)

free_run_lem_case :
    bit_get (free_run empty 4 2).bitmap 5
    ≡ (if (leb 4 5 && ltb 5 (4 + 2)) && ltb 5 40 then false else bit_get empty.bitmap 5)
free_run_lem_case = free_run_lem empty 4 2 (omega arith) 5

taken : alloc_run empty 2 ≡ (some 0, (alloc_run empty 2).1)
unfolding alloc_run take_blocks find_blocks first_run bit_get
taken = refl

free_run-alloc_run_example :
    ((j : ℕ) → bit_get (free_run (alloc_run empty 2).1 0 2).bitmap j ≡ bit_get empty.bitmap j)
    × (free_blocks (free_run (alloc_run empty 2).1 0 2) ≡ free_blocks empty)
free_run-alloc_run_example =
    free_run-alloc_run empty 2 0 (alloc_run empty 2).1 (omega arith) (omega arith) taken

set_entry_lem_example :
    Reads (set_entry empty.dir 3 file) 3 file
    × ((j k : ℕ) → j ≢ 3 → k < entry_sz → ent (set_entry empty.dir 3 file) j k ≡ ent empty.dir j k)
set_entry_lem_example =
    set_entry_lem empty.dir 3 file a_file-IsName (omega arith) (omega arith) (omega arith)

find-set_entry_example :
    (find (record empty { dir = set_entry empty.dir 3 file }) a_file ≡ some 3)
    × ((name : List ℕ)
        → name ≢ a_file
        → find (record empty { dir = set_entry empty.dir 3 file }) name ≡ find empty name)
find-set_entry_example =
    find-set_entry empty 3 file (omega arith) vacant (nothing_found a_file) refl a_file-IsName
      (omega arith) (omega arith) (omega arith)

mkdir_lem_example : Made ram fresh a_file (mkdir ram fresh a_file)
mkdir_lem_example = mkdir_lem ram fresh a_file refl a_file-IsName (omega arith)

delete_file_lem_example :
    ((e_kind one_file.vol.dir 3 ≡ k_dir)
      × ((j : ℕ) × (rest : List ℕ) × (j < dir_entries) × Below one_file.vol.dir a_file j rest)
      × (delete_file ram one_file a_file ≡ (false, one_file)))
    ⊎ ((s' : Rpfs Bytes) × (delete_file ram one_file a_file ≡ (true, s'))
        × Removed ram one_file a_file 3 s')
unfolding one_file
delete_file_lem_example =
    delete_file_lem ram one_file a_file 3 refl one_file-Distinct one_file_found

-- A volume with no blocks.
abbrev no_blocks : Rpfs Bytes
no_blocks = record fresh { vol = record empty { total_blocks = 0 } }

refused : (write_file ram no_blocks a_file (7 ∷ [])).0 ≡ false
unfolding write_file find write_found write_new free_slot first_entry is_vacant e_trit as_i8
    write_at allocate alloc_run take_blocks find_blocks first_run blocks_of write_extent
refused = ap (λ o. (write_found ram a_file (7 ∷ []) no_blocks o).0) (nothing_found a_file)

write_file-Refusal_example : Refusal ram no_blocks a_file (blocks_of 1)
write_file-Refusal_example =
    write_file-Refusal ram (λ d lba count buf. refl) no_blocks a_file (7 ∷ []) refl a_file-IsName
      (omega arith) (omega arith) refused

-- Slot 0, block 0: the write of one byte goes through.
wrote : (write_found ram a_file (7 ∷ []) fresh none).0 ≡ true
unfolding write_found write_new free_slot first_entry is_vacant e_trit as_i8 write_at allocate
    alloc_run take_blocks find_blocks first_run bit_get blocks_of write_extent write_chunks commit
wrote = refl

wrote_file : (write_file ram fresh a_file (7 ∷ [])).0 ≡ true
unfolding write_file
wrote_file = ap (λ o. (write_found ram a_file (7 ∷ []) fresh o).0) (nothing_found a_file) ∙ wrote

write_file_lem_example :
    (slot : ℕ) × Written ram a_file 1 slot (write_file ram fresh a_file (7 ∷ [])).1
write_file_lem_example =
    write_file_lem ram fresh a_file (7 ∷ []) refl (omega arith) a_file-IsName (omega arith)
      (omega arith) wrote_file

slot_zero : free_slot empty ≡ some 0
unfolding free_slot first_entry is_vacant e_trit as_i8
slot_zero = refl

find-write_file_example : find (write_file ram fresh a_file (7 ∷ [])).1.vol a_dir ≡ none
find-write_file_example =
    find-write_file ram a_dir (98 ∷ []) 0 ((λ e. omega arith), tt) ((λ e. omega arith), tt)
      (omega arith) fresh (7 ∷ []) refl (omega arith) a_file-IsName (omega arith)
      (nothing_found a_dir) (nothing_found a_file) slot_zero wrote_file
