-- ===== src/Desktop/Vfs/Tests.antt =====
-- The filesystem on a disk that is a function from names to bytes.
use rusty_penguin.Base.{
  ltb, ◌||◌, none, Bool, Option, take, ap, ℕ, ◌≡◌, ◌≢◌, refl, ap, [], ◌∷◌, true, false, some,
  if◌then◌else◌, length,
}
use rusty_penguin.Base.Texts.{name_eq}
use rusty_penguin.Desktop.Vfs.{
  is_empty, data_length, packed, sys_disk_write, Bytes, exists, file, directory, write_mem, read,
  renamed, persistable, listing, manifest_bytes, split_names, Vfs, persist_write, flush_manifest,
  write, delete, rename,
}
use rusty_penguin.Desktop.Vfs.Names.{kept, split_names-manifest_bytes}
use rusty_penguin.Desktop.Vfs.Files.{read-write, delete_lem}

-- A disk that keeps files of up to 4096 bytes, refuses larger ones and empty ones, and has no directories.
abbrev Disk : Type 0
Disk = Bytes → Bytes

abbrev refuses : Bytes → Bool
refuses bytes = is_empty bytes || ltb 4096 (length bytes)

abbrev pick : Bool → Disk → Disk → Bool × Disk
pick no_way d d' = if no_way then (false, d) else (true, d')

abbrev put : Disk → Bytes → Bytes → Bool × Disk
put d n bytes = pick (refuses bytes) d (λ m. if name_eq n m then bytes else d m)

abbrev fetch : Disk → Bytes → ℕ → Option Bytes
fetch d n size = if is_empty (d n) then none else some (take size (d n))

-- It always serves.
abbrev Serves : Disk → Type 0
Serves d = Unit {0}

-- A directory "d" and the files "b" and "a", mirrored.
abbrev vfs : Vfs Disk
vfs = record {
  entries = directory (100 ∷ []) ∷ file (98 ∷ []) (50 ∷ []) ∷ file (97 ∷ []) (49 ∷ []) ∷ [];
  persist_on = true;
  disk = λ n. [];
}

-- As it starts, with "a" among the files of its own.
abbrev booted : Disk → Vfs Disk
booted d = record { entries = file (97 ∷ []) [] ∷ []; persist_on = false; disk = d }

abbrev a_name : Bytes
a_name = 97 ∷ []

abbrev b_name : Bytes
b_name = 98 ∷ []

a_ne_b : a_name ≢ b_name
unfolding name_eq
a_ne_b e = let same : true ≡ false = ap (λ n. name_eq n a_name) e in cc

split_names-manifest_bytes_case : split_names [] (manifest_bytes vfs.entries) ≡ kept vfs.entries
split_names-manifest_bytes_case = split_names-manifest_bytes vfs.entries refl

read-write_case :
    (read (write put fetch vfs (97 ∷ []) (51 ∷ [])).entries (97 ∷ []) ≡ some (51 ∷ []))
    × (read (write put fetch vfs (97 ∷ []) (51 ∷ [])).entries (98 ∷ [])
        ≡ read vfs.entries (98 ∷ []))
read-write_case = read-write put fetch vfs (97 ∷ []) (98 ∷ []) (51 ∷ []) a_ne_b

delete_lem_case :
    ((delete put fetch vfs (97 ∷ [])).0 ≡ exists vfs.entries (97 ∷ []))
    × (exists (delete put fetch vfs (97 ∷ [])).1.entries (97 ∷ []) ≡ false)
    × (read (delete put fetch vfs (97 ∷ [])).1.entries (98 ∷ []) ≡ read vfs.entries (98 ∷ []))
delete_lem_case = delete_lem put fetch vfs (97 ∷ []) (98 ∷ []) a_ne_b

-- A file renamed to the name of another: it reads as the other file, while its bytes are on the disk.
rename_onto :
    ((rename put fetch vfs (97 ∷ []) (98 ∷ [])).0 ≡ true)
    × (read (rename put fetch vfs (97 ∷ []) (98 ∷ [])).1.entries (98 ∷ []) ≡ some (50 ∷ []))
    × ((rename put fetch vfs (97 ∷ []) (98 ∷ [])).1.disk (98 ∷ []) ≡ 49 ∷ [])
unfolding rename renamed read name_eq persistable flush_manifest persist_write sys_disk_write packed
    manifest_bytes listing
rename_onto = (refl, refl, refl)

-- A file that is emptied keeps its old bytes on the disk.
write_empty :
    (write put fetch (record vfs { disk = (put vfs.disk (97 ∷ []) (49 ∷ [])).1 }) (97 ∷ []) []).disk
      (97 ∷ [])
    ≡ 49 ∷ []
unfolding write write_mem exists name_eq persistable persist_write sys_disk_write packed
    flush_manifest
write_empty = refl

-- The length of a file of 64 KiB and more is cut: of 65541 bytes, five go to the disk.
packed_cut : data_length (packed 1 65541) ≡ 5
unfolding packed
packed_cut = refl
