-- ===== src/Rpfs/Volume.antt =====
-- kernel/src/rpfs.rs: the state of a mounted volume, its block bitmap and its directory entries.
pub mod Blocks
pub mod Alloc
pub mod Entries
pub mod Search
pub mod Names
use Prim.Native.Nat.{bit_and, bit_or}
use rusty_penguin.Base.{
  ℕ, zero, suc, ◌+◌, ◌-◌, ◌*◌, ◌/◌, ◌%◌, ◌^◌, min, List, [], ◌∷◌, Bool, true, false, not, ◌&&◌,
  ◌||◌, Option, none, some, if◌then◌else◌, ◌==◌, ltb, leb, length, take,
}
use rusty_penguin.Base.Int.{ℤ, pos, negsuc, ltb_ℤ}
use rusty_penguin.Base.Bits.{mask_without}
use rusty_penguin.Base.Runs.{first_run}
use rusty_penguin.Base.Texts.{name_eq, name_eq_refl, name_eq_sound, name_eq_ne}
use rusty_penguin.Rpfs.Layout.{
  Bytes, entry_sz, dir_entries, max_name, put, clear, rd_u32, wr_u32, from,
}

-- `Rpfs` less its device: everything that is kept in memory.
pub record Volume : Type 0 where
  pub base : ℕ
  pub total_blocks : ℕ
  pub bitmap_lba : ℕ
  pub bitmap_sectors : ℕ
  pub dir_lba : ℕ
  pub data_lba : ℕ
  pub bitmap : Bytes
  pub dir : Bytes
  pub scratch : Bytes
  pub ready : Bool

-- One byte written.
unfoldable pub store : Bytes → ℕ → ℕ → Bytes
store b i x k = if k == i then x else b k

unfoldable pub bit_get : Bytes → ℕ → Bool
bit_get bm b = not (bit_and (bm (b / 8) / 2 ^ (b % 8)) 1 == 0)

unfoldable pub bit_set : Bytes → ℕ → Bool → Bytes
bit_set bm b v =
    if v
    then store bm (b / 8) (bit_or (bm (b / 8)) (2 ^ (b % 8)))
    else store bm (b / 8) (bit_and (bm (b / 8)) (mask_without 8 (b % 8)))

-- `bit_set(k, true)` for the `n` blocks from `k` on.
unfoldable pub set_run : ℕ → ℕ → Bytes → Bytes
set_run zero k bm = bm
set_run (suc n) k bm = set_run n (k + 1) (bit_set bm k true)

-- The loop of `alloc_run`.
unfoldable pub find_blocks : ℕ → Bytes → ℕ → Option ℕ
find_blocks n bm total = first_run n (λ b. not (bit_get bm b)) total 0 0 0

unfoldable pub take_blocks : ℕ → Volume → Option ℕ → Option ℕ × Volume
take_blocks n v none = (none, v)
take_blocks n v (some start) = (some start, record v { bitmap = set_run n start v.bitmap })

unfoldable pub alloc_run : Volume → ℕ → Option ℕ × Volume
unfolding take_blocks find_blocks
alloc_run v n =
    if n == 0 then (none, v) else take_blocks n v (find_blocks n v.bitmap v.total_blocks)

-- `bit_set(k, false)` for those of the `n` blocks from `k` on that the volume has.
unfoldable pub clear_run : ℕ → ℕ → ℕ → Bytes → Bytes
clear_run total zero k bm = bm
clear_run total (suc n) k bm =
    clear_run total n (k + 1) (if ltb k total then bit_set bm k false else bm)

-- The end of the range is a `u32`, and wraps.
unfoldable pub free_run : Volume → ℕ → ℕ → Volume
unfolding clear_run
free_run v start n = record v {
  bitmap = clear_run v.total_blocks ((start + n) % 2 ^ 32 - start) start v.bitmap;
}

unfoldable pub count_clear : ℕ → Bytes → ℕ
count_clear zero bm = 0
count_clear (suc b) bm = count_clear b bm + (if bit_get bm b then 0 else 1)

unfoldable pub free_blocks : Volume → ℕ
unfolding count_clear
free_blocks v = count_clear v.total_blocks v.bitmap

-- A byte as an `i8`.
unfoldable pub as_i8 : ℕ → ℤ
as_i8 b = if ltb b 128 then pos b else negsuc (255 - b)

-- The entry of index `i`.
abbrev pub ent : Bytes → ℕ → Bytes
ent dir i = from dir (i * entry_sz)

unfoldable pub e_trit : Bytes → ℕ → ℤ
e_trit dir i = as_i8 (ent dir i 112)

unfoldable pub e_kind : Bytes → ℕ → ℕ
e_kind dir i = ent dir i 111

-- The bytes before the first zero, of the `n` from offset `k` on.
unfoldable pub until_nul : ℕ → ℕ → Bytes → List ℕ
until_nul zero k b = []
until_nul (suc n) k b = let rest = until_nul n (k + 1) b in if b k == 0 then [] else b k ∷ rest

unfoldable pub e_name : Bytes → ℕ → List ℕ
unfolding until_nul
e_name dir i = until_nul max_name 0 (ent dir i)

unfoldable pub e_start : Bytes → ℕ → ℕ
e_start dir i = rd_u32 (ent dir i) 116

unfoldable pub e_size : Bytes → ℕ → ℕ
e_size dir i = rd_u32 (ent dir i) 120

unfoldable pub e_nblocks : Bytes → ℕ → ℕ
e_nblocks dir i = rd_u32 (ent dir i) 124

-- What an entry holds. `trit` is the byte of the `i8`: 1 active, 0 empty, 255 deleted.
pub record Entry : Type 0 where
  pub name : List ℕ
  pub kind : ℕ
  pub trit : ℕ
  pub start : ℕ
  pub size : ℕ
  pub nblocks : ℕ

unfoldable pub set_entry : Bytes → ℕ → Entry → Bytes
set_entry dir i e =
    let off = i * entry_sz in
    let d1 = clear dir off entry_sz in
    let d2 = put d1 off (take max_name e.name) in
    let d3 = store d2 (off + 111) e.kind in
    let d4 = store d3 (off + 112) e.trit in
    let d5 = wr_u32 d4 (off + 116) e.start in
    let d6 = wr_u32 d5 (off + 120) e.size in wr_u32 d6 (off + 124) e.nblocks

-- The first of the `n` entries from `i` on that passes a test.
unfoldable pub first_entry : ℕ → ℕ → (ℕ → Bool) → Option ℕ
first_entry zero i test = none
first_entry (suc n) i test = elim (test i) [ true ↦ some i | false ↦ first_entry n (i + 1) test ]

-- `t == 1` and `t <= 0` on a trit of an entry
unfoldable pub is_one : ℤ → Bool
is_one (pos n) = n == 1
is_one (negsuc n) = false

unfoldable pub is_vacant : ℤ → Bool
is_vacant (pos n) = n == 0
is_vacant (negsuc n) = true

unfoldable pub holds : Bytes → List ℕ → ℕ → Bool
holds dir name i = is_one (e_trit dir i) && name_eq (e_name dir i) name

unfoldable pub find : Volume → List ℕ → Option ℕ
find v name = first_entry dir_entries 0 (holds v.dir name)

unfoldable pub free_slot : Volume → Option ℕ
free_slot v = first_entry dir_entries 0 (λ i. is_vacant (e_trit v.dir i))

unfoldable pub count_entries : ℕ → Bytes → ℕ
count_entries zero dir = 0
count_entries (suc n) dir = count_entries n dir + (if is_one (e_trit dir n) then 1 else 0)

unfoldable pub entry_count : Volume → ℕ
entry_count v = count_entries dir_entries v.dir
