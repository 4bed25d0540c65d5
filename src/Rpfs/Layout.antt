-- ===== src/Rpfs/Layout.antt =====
-- kernel/src/rpfs.rs: constants, byte buffers and the geometry of a volume.
use rusty_penguin.Base.{
  ℕ, zero, suc, ◌+◌, ◌-◌, ◌*◌, ◌/◌, ◌%◌, ◌^◌, max, List, [], ◌∷◌, ◌&&◌, if◌then◌else◌, ltb, leb,
  length, get_or,
}

abbrev pub sector : ℕ
sector = 512

abbrev pub entry_sz : ℕ
entry_sz = 128

abbrev pub dir_entries : ℕ
dir_entries = 2048

abbrev pub max_name : ℕ
max_name = 111

abbrev pub max_file : ℕ
max_file = 2 ^ 20

abbrev pub scratch_sectors : ℕ
scratch_sectors = 64

-- `K_FILE` and `K_DIR`
abbrev pub k_file : ℕ
k_file = 0

abbrev pub k_dir : ℕ
k_dir = 1

-- A byte buffer, by offset.
abbrev pub Bytes : Type 0
Bytes = ℕ → ℕ

-- `b[off..]`
abbrev pub from : Bytes → ℕ → Bytes
from b off k = b (off + k)

-- `b[off..off + xs.len()].copy_from_slice(xs)`
unfoldable pub put : Bytes → ℕ → List ℕ → Bytes
put b off xs k = if leb off k && ltb k (off + length xs) then get_or xs (k - off) 0 else b k

-- `n` bytes of `src` copied to `off`.
unfoldable pub splice : Bytes → ℕ → ℕ → Bytes → Bytes
splice b off n src k = if leb off k && ltb k (off + n) then src (k - off) else b k

-- `n` zero bytes at `off`.
unfoldable pub clear : Bytes → ℕ → ℕ → Bytes
clear b off n k = if leb off k && ltb k (off + n) then 0 else b k

unfoldable pub rd_u32 : Bytes → ℕ → ℕ
rd_u32 b o = b o + 2 ^ 8 * b (o + 1) + 2 ^ 16 * b (o + 2) + 2 ^ 24 * b (o + 3)

-- `v.to_le_bytes()` of a `u32`
abbrev pub le_bytes : ℕ → List ℕ
le_bytes v = v % 2 ^ 8 ∷ v / 2 ^ 8 % 2 ^ 8 ∷ v / 2 ^ 16 % 2 ^ 8 ∷ v / 2 ^ 24 % 2 ^ 8 ∷ []

unfoldable pub wr_u32 : Bytes → ℕ → ℕ → Bytes
wr_u32 b o v = put b o (le_bytes v)

-- Data blocks and bitmap sectors of a region, tightened at most `fuel` times.
unfoldable pub tighten : ℕ → ℕ → ℕ → ℕ × ℕ
tighten zero avail data_blocks = (data_blocks, (data_blocks + 4095) / 4096)
tighten (suc fuel) avail data_blocks =
    let smaller = tighten fuel avail (data_blocks - 1) in
    if ltb avail ((data_blocks + 4095) / 4096 + data_blocks) && ltb 0 data_blocks
    then smaller
    else (data_blocks, (data_blocks + 4095) / 4096)

-- (data blocks, bitmap sectors). The sums on the way stay below 2^64 but the two that wrap. The loop that tightens runs at most as often as there are blocks.
unfoldable pub geometry : ℕ → ℕ → ℕ × ℕ
geometry base disk_sectors =
    let avail = disk_sectors - (base + 1 + dir_entries * entry_sz / sector) % 2 ^ 64 in
    let start = avail * 4096 % 2 ^ 64 / 4097 in
    let (data_blocks, bitmap_sectors) = tighten start avail start in
    (data_blocks % 2 ^ 32, max (bitmap_sectors % 2 ^ 32) 1)
