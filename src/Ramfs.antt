-- ===== src/Ramfs.antt =====
-- kernel/src/ramfs.rs: the archive that the boot loader hands over, and the files in it. An archive is a
-- function from offsets to bytes; a file's data is named by its offset. The table is filled once, at
-- boot, so a slot at or past the count is empty.
pub mod Table
mod Tests
use Prim.Native.Nat.{bit_and, bit_or}
use rusty_penguin.Base.{
  ℕ, zero, suc, ◌+◌, ◌-◌, ◌*◌, ◌/◌, ◌%◌, ◌^◌, min, List, [], ◌∷◌, ◌++◌, Bool, true, false, not,
  ◌&&◌, ◌||◌, Option, none, some, if◌then◌else◌, ◌==◌, ltb, leb, length, get_elem?, take,
}
use rusty_penguin.Base.Texts.{name_eq}

abbrev pub max_inodes : ℕ
max_inodes = 64

abbrev pub header : ℕ
header = 110

abbrev pub Archive : Type 0
Archive = ℕ → ℕ

pub record Inode : Type 0 where
  pub name : List ℕ
  pub data_at : ℕ
  pub size : ℕ

-- INODES up to INODE_COUNT, and DELETED_MASK, a word of 64 bits.
pub record Ramfs : Type 0 where
  pub inodes : List Inode
  pub deleted : ℕ

unfoldable pub slice : Archive → ℕ → ℕ → List ℕ
slice a off zero = []
slice a off (suc n) = a off ∷ slice a (off + 1) n

unfoldable pub hex_digit : ℕ → ℕ
hex_digit b =
    if leb 48 b && leb b 57
    then b - 48
    else if leb 97 b && leb b 102
    then b - 97 + 10
    else if leb 65 b && leb b 70
    then b - 65 + 10
    else 0

-- The low four bits are free after the shift, so the digit is added.
unfoldable pub parse_hex : ℕ → List ℕ → ℕ
parse_hex v [] = v
parse_hex v (b ∷ bs) = parse_hex (v * 16 % 2 ^ 32 + hex_digit b) bs

unfoldable pub parse_hex8 : List ℕ → ℕ
parse_hex8 bs = parse_hex 0 (take 8 bs)

unfoldable pub align4 : ℕ → ℕ
align4 n = (n + 3) / 4 * 4

-- "070701" and "TRAILER!!!\0"
abbrev pub magic : List ℕ
magic = 48 ∷ 55 ∷ 48 ∷ 55 ∷ 48 ∷ 49 ∷ []

abbrev pub trailer : List ℕ
trailer = 84 ∷ 82 ∷ 65 ∷ 73 ∷ 76 ∷ 69 ∷ 82 ∷ 33 ∷ 33 ∷ 33 ∷ 0 ∷ []

-- The bytes before the first 0.
unfoldable pub before_nul : List ℕ → List ℕ
before_nul [] = []
before_nul (b ∷ bs) = let rest = before_nul bs in if b == 0 then [] else b ∷ rest

unfoldable pub is_trailer : List ℕ → Bool
is_trailer name_bytes =
    (length (before_nul name_bytes) == 11) && name_eq (take 11 name_bytes) trailer

unfoldable pub add_inode : List Inode → List ℕ → ℕ → ℕ → List Inode
add_inode inodes name data_at filesize =
    if ltb (length inodes) max_inodes && ltb 0 filesize
    then inodes ++ record { name = take 63 name; data_at = data_at; size = filesize } ∷ []
    else inodes

unfoldable pub name_size : Archive → ℕ → ℕ
name_size a off = parse_hex8 (slice a (off + 94) 8)

unfoldable pub file_size : Archive → ℕ → ℕ
file_size a off = parse_hex8 (slice a (off + 54) 8)

-- The data of the entry at `off`, and the entry after it.
unfoldable pub data_offset : Archive → ℕ → ℕ
data_offset a off = align4 (off + header + name_size a off)

unfoldable pub next_offset : Archive → ℕ → ℕ
next_offset a off = align4 (data_offset a off + file_size a off)

-- The tests that end the loop of `init`.
unfoldable pub stops : Archive → ℕ → ℕ → Bool
stops a total_size off =
    ltb total_size (off + header)
    || (not (name_eq (slice a off 6) magic)
        || (ltb total_size (off + header + name_size a off)
            || is_trailer (slice a (off + header) (name_size a off))))

-- The loop of `init`.
unfoldable pub walk : ℕ → Archive → ℕ → ℕ → List Inode → Option (List Inode)
walk zero a total_size off inodes = none
walk (suc fuel) a total_size off inodes =
    let name = before_nul (slice a (off + header) (name_size a off)) in
    elim (stops a total_size off) [
      | true ↦ some inodes
      | false ↦
          walk fuel a total_size (next_offset a off)
            (add_inode inodes name (data_offset a off) (file_size a off))
    ]

-- Each round goes on by the size of a header at least.
unfoldable pub init : Ramfs → Archive → ℕ → Option Ramfs
init s a total_size = elim (walk (suc total_size) a total_size 0 []) [
  | none ↦ none
  | some inodes ↦ some (record s { inodes = inodes })
]

-- `(DELETED_MASK & (1u64 << i)) != 0`, for a slot below 64.
unfoldable pub is_deleted : ℕ → ℕ → Bool
is_deleted mask i = not (bit_and mask (2 ^ i) == 0)

unfoldable pub inode : Ramfs → ℕ → Option Inode
inode s i =
    if leb max_inodes i then none else if is_deleted s.deleted i then none else get_elem? s.inodes i

unfoldable pub delete : Ramfs → ℕ → Bool × Ramfs
delete s i = if leb max_inodes i then (false, s) else elim (get_elem? s.inodes i) [
  | none ↦ (false, s)
  | some ino ↦
      if is_deleted s.deleted i
      then (false, s)
      else (true, record s { deleted = bit_or s.deleted (2 ^ i) })
]

-- "./" at the front is not part of the name.
unfoldable pub stored_name : List ℕ → List ℕ
stored_name [] = []
stored_name (b ∷ []) = b ∷ []
stored_name (b ∷ c ∷ bs) = if (b == 46) && (c == 47) then bs else b ∷ c ∷ bs

-- The loop of `find`, from slot `i` on.
unfoldable pub find_from : ℕ → ℕ → List Inode → List ℕ → Option (ℕ × ℕ)
find_from deleted i [] path = none
find_from deleted i (ino ∷ inos) path =
    let rest = find_from deleted (i + 1) inos path in
    if not (is_deleted deleted i) && name_eq (stored_name ino.name) path
    then some (ino.data_at, ino.size)
    else rest

unfoldable pub find : Ramfs → List ℕ → Option (ℕ × ℕ)
find s path = find_from s.deleted 0 s.inodes path
