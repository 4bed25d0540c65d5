-- ===== src/Rpfs/Device.antt =====
-- kernel/src/rpfs.rs: the block device and the writes that keep the disk in step with the volume.
use rusty_penguin.Base.{
  ℕ, zero, suc, ◌+◌, ◌-◌, ◌*◌, ◌/◌, ◌%◌, ◌^◌, min, List, [], ◌∷◌, Bool, true, false, ◌&&◌,
  if◌then◌else◌, ◌==◌, ltb,
}
use rusty_penguin.Rpfs.Layout.{
  Bytes, sector, entry_sz, dir_entries, from, put, splice, rd_u32, wr_u32, geometry,
}
use rusty_penguin.Rpfs.Volume.{Volume}

-- The driver: `count` sectors at `lba`, read into the front of a buffer or written from it.
pub record BlockDev (Dev : Type 0) : Type 0 where
  pub read : Dev → ℕ → ℕ → Bytes → Bool × Bytes × Dev
  pub write : Dev → ℕ → ℕ → Bytes → Bool × Dev

pub record Rpfs (Dev : Type 0) : Type 0 where
  pub dev : Dev
  pub vol : Volume

-- `MAGIC` and `VERSION`
abbrev pub magic : List ℕ
magic = 82 ∷ 80 ∷ 70 ∷ 83 ∷ 50 ∷ 48 ∷ 50 ∷ 55 ∷ []

abbrev pub version : ℕ
version = 2

unfoldable pub dir_sectors : ℕ
dir_sectors = dir_entries * entry_sz / sector

abbrev pub zeros : Bytes
zeros k = 0

-- `&b[off..off + xs.len()] == xs`
unfoldable pub starts_with : Bytes → ℕ → List ℕ → Bool
starts_with b off [] = true
starts_with b off (x ∷ xs) = (b off == x) && starts_with b (off + 1) xs

module _ {Dev : Type 0} (B : BlockDev Dev) where
  unfoldable pub flush_super : Volume → Dev → Dev
  flush_super v d =
      let s1 = put zeros 0 magic in
      let s2 = wr_u32 s1 8 version in
      let s3 = wr_u32 s2 12 v.total_blocks in
      let s4 = wr_u32 s3 16 v.bitmap_sectors in
      let s5 = wr_u32 s4 20 dir_entries in (B.write d v.base 1 s5).1

  -- The sectors from `done` on of a buffer of `total` sectors, at most 64 in one transfer. Each round
  -- writes at least one.
  unfoldable pub flush_chunks : ℕ → ℕ → Bytes → ℕ → ℕ → Dev → Dev
  flush_chunks zero lba buf total done d = d
  flush_chunks (suc fuel) lba buf total done d = elim (ltb done total) [
    | true ↦
        let n = min (total - done) 64 in
        flush_chunks fuel lba buf total (done + n)
          (B.write d (lba + done) n (from buf (done * sector))).1
    | false ↦ d
  ]

  unfoldable pub flush_dir_all : Volume → Dev → Dev
  flush_dir_all v d = flush_chunks dir_sectors v.dir_lba v.dir dir_sectors 0 d

  unfoldable pub flush_bitmap_all : Volume → Dev → Dev
  flush_bitmap_all v d = flush_chunks v.bitmap_sectors v.bitmap_lba v.bitmap v.bitmap_sectors 0 d

  unfoldable pub load_chunks : ℕ → ℕ → ℕ → ℕ → Bytes → Dev → Bytes × Dev
  load_chunks zero lba total done buf d = (buf, d)
  load_chunks (suc fuel) lba total done buf d = elim (ltb done total) [
    | true ↦
        let n = min (total - done) 64 in
        let off = done * sector in
        let (_, got, d') = B.read d (lba + done) n (from buf off) in
        load_chunks fuel lba total (done + n) (splice buf off (n * sector) got) d'
    | false ↦ (buf, d)
  ]

  unfoldable pub load_dir : Volume → Dev → Volume × Dev
  load_dir v d =
      let (dir, d') = load_chunks dir_sectors v.dir_lba dir_sectors 0 v.dir d in
      (record v { dir = dir }, d')

  unfoldable pub flush_dir_entry : Volume → ℕ → Dev → Dev
  flush_dir_entry v idx d =
      let s = idx * entry_sz / sector in (B.write d (v.dir_lba + s) 1 (from v.dir (s * sector))).1

  -- The bitmap sectors from `s` on, at most `count`, up to the end of the bitmap.
  unfoldable pub flush_sectors : ℕ → Volume → ℕ → Dev → Dev
  flush_sectors zero v s d = d
  flush_sectors (suc count) v s d = elim (ltb (v.bitmap_sectors * sector) (s * sector + sector)) [
    | true ↦ d
    | false ↦
        flush_sectors count v (s + 1)
          (B.write d (v.bitmap_lba + s) 1 (from v.bitmap (s * sector))).1
  ]

  unfoldable pub flush_bitmap_range : Volume → ℕ → ℕ → Dev → Dev
  flush_bitmap_range v start n d =
      let first = start / 8 / sector in
      let last = ((start + n) % 2 ^ 32 - 1) / 8 / sector in
      flush_sectors (last + 1 - first) v first d

  -- A volume with the geometry given, its buffers zeroed.
  unfoldable pub blank : ℕ → ℕ → ℕ → Volume
  blank base total_blocks bitmap_sectors = record {
    base = base;
    total_blocks = total_blocks;
    bitmap_lba = (base + 1) % 2 ^ 64;
    bitmap_sectors = bitmap_sectors;
    dir_lba = (base + 1 + bitmap_sectors) % 2 ^ 64;
    data_lba = (base + 1 + bitmap_sectors + dir_sectors) % 2 ^ 64;
    bitmap = zeros;
    dir = zeros;
    scratch = zeros;
    ready = false;
  }

  unfoldable pub format : Volume → Dev → Volume × Dev
  format v d =
      let v' = record v { bitmap = zeros; dir = zeros } in
      (v', flush_dir_all v' (flush_bitmap_all v' (flush_super v' d)))

  -- Mounting: the bitmap is read in one transfer, whose count is a `u16`.
  unfoldable pub mount : ℕ → Bytes → Dev → Rpfs Dev
  mount base sb d =
      let v = blank base (rd_u32 sb 12) (rd_u32 sb 16) in
      let count = v.bitmap_sectors % 2 ^ 16 in
      let (_, got, d1) = B.read d v.bitmap_lba count v.bitmap in
      let (v', d2) = load_dir (record v { bitmap = splice v.bitmap 0 (count * sector) got }) d1 in
      record { dev = d2; vol = record v' { ready = true } }

  unfoldable pub open_volume : Dev → ℕ → ℕ → Rpfs Dev
  open_volume d base disk_sectors =
      let (ok, sb, d1) = B.read d base 1 zeros in
      if ok && (starts_with sb 0 magic && (rd_u32 sb 8 == version))
      then mount base sb d1
      else let (total_blocks, bitmap_sectors) = geometry base disk_sectors in
        let (v, d2) = format (blank base total_blocks bitmap_sectors) d1 in
        record { dev = d2; vol = record v { ready = true } }
