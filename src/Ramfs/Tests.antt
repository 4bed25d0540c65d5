-- ===== src/Ramfs/Tests.antt =====
-- An archive too short for a header, and a table with two files.
use rusty_penguin.Base.{
  ℕ, ◌≤◌, ◌≡◌, ◌≢◌, ◌⊎◌, if◌then◌else◌, ◌==◌, ltb, ◌||◌, length, arith, refl, [], ◌∷◌, true, false,
  none, some,
}
use rusty_penguin.Base.Texts.{name_eq}
use rusty_penguin.Ramfs.{
  max_inodes, Archive, slice, align4, name_size, file_size, data_offset, next_offset, stops,
  add_inode, walk, init, Ramfs, hex_digit, parse_hex, parse_hex8, before_nul, is_trailer, trailer,
  Inode, inode, delete, is_deleted, stored_name, find_from, find,
}
use rusty_penguin.Base.Edits.{all}
use rusty_penguin.Ramfs.Table.{sound_inode, init_lem, inode-delete}

-- One entry, "a", of four bytes.
abbrev archive : Archive
archive i =
    if (i == 1) || (i == 3)
    then 55
    else if i == 5
    then 49
    else if i == 61
    then 52
    else if i == 101
    then 50
    else if i == 110
    then 97
    else if ltb i 110
    then 48
    else 0

abbrev nothing : Ramfs
nothing = record { inodes = []; deleted = 0 }

init_one :
    init nothing archive 200
    ≡ some (record nothing { inodes = record { name = 97 ∷ []; data_at = 112; size = 4 } ∷ [] })
unfolding init walk stops slice name_size file_size data_offset next_offset align4 add_inode
    parse_hex8 parse_hex hex_digit before_nul is_trailer name_eq
init_one = refl

init_lem_example :
    (s' : Ramfs) × (init nothing archive 200 ≡ some s')
    × (length s'.inodes ≤ max_inodes)
    × (all sound_inode s'.inodes ≡ true)
init_lem_example = init_lem nothing archive 200

-- "./a" and "b"
abbrev table : Ramfs
table = record {
  inodes =
      record { name = 46 ∷ 47 ∷ 97 ∷ []; data_at = 116; size = 4 }
      ∷ record { name = 98 ∷ []; data_at = 236; size = 8 }
      ∷ [];
  deleted = 0;
}

find_a : find table (97 ∷ []) ≡ some (116, 4)
unfolding find find_from is_deleted stored_name name_eq
find_a = refl

inode-delete_example :
    ((ino : Inode) × (inode table 0 ≡ some ino)
      × ((delete table 0).0 ≡ true)
      × (inode (delete table 0).1 0 ≡ none)
      × (inode (delete table 0).1 1 ≡ inode table 1))
    ⊎ ((delete table 0 ≡ (false, table)) × (inode table 0 ≡ none))
inode-delete_example = inode-delete table 0 1 one_ne_zero
  where
    one_ne_zero : ◌≢◌ {A = ℕ} 1 0
    one_ne_zero e = omega arith

find_deleted : find (delete table 0).1 (97 ∷ []) ≡ none
unfolding find find_from is_deleted stored_name name_eq delete
find_deleted = refl

parse_size : parse_hex8 (48 ∷ 48 ∷ 48 ∷ 48 ∷ 48 ∷ 49 ∷ 70 ∷ 102 ∷ []) ≡ 511
unfolding parse_hex8 parse_hex hex_digit
parse_size = refl

-- The name of the last entry of an archive, with its zero, does not pass for it.
trailer_missed : is_trailer trailer ≡ false
unfolding is_trailer before_nul name_eq
trailer_missed = refl
