-- ===== src/Rpfs/Dirs.antt =====
-- kernel/src/rpfs.rs: directories: parents made on the way, `mkdir` and `delete_file`.
pub mod Making
pub mod Others
pub mod Below
pub mod Deleting
use rusty_penguin.Base.{
  ℕ, zero, suc, ◌+◌, ◌*◌, ◌-◌, ◌/◌, ◌%◌, ◌^◌, List, [], ◌∷◌, Bool, true, false, not, ◌&&◌, ◌||◌,
  Option, none, some, if◌then◌else◌, ◌==◌, ltb, leb, length, take, drop, get_or,
}
use rusty_penguin.Base.Texts.{name_eq, name_eq_refl, name_eq_sound, name_eq_ne}
use rusty_penguin.Rpfs.Layout.{Bytes, entry_sz, dir_entries, max_name, k_dir}
use rusty_penguin.Rpfs.Volume.{
  Volume, Entry, set_entry, find, free_slot, store, free_run, e_kind, e_start, e_nblocks, e_trit,
  e_name, is_one,
}
use rusty_penguin.Rpfs.Device.{BlockDev, Rpfs, flush_dir_entry, flush_bitmap_range}

-- An active directory.
abbrev pub dir_entry : List ℕ → Entry
dir_entry name = record { name = name; kind = k_dir; trit = 1; start = 0; size = 0; nblocks = 0 }

-- A path that starts with `name` and a slash.
unfoldable pub is_child : List ℕ → List ℕ → Bool
is_child name cn =
    ltb (length name) (length cn)
    && (name_eq (take (length name) cn) name && (get_or cn (length name) 0 == 47))

unfoldable pub has_child : ℕ → Bytes → List ℕ → Bool
has_child zero dir name = false
has_child (suc n) dir name =
    has_child n dir name || (is_one (e_trit dir n) && is_child name (e_name dir n))

module _ {Dev : Type 0} (B : BlockDev Dev) where
  -- `set_entry` and `flush_dir_entry`
  unfoldable pub enter : Rpfs Dev → ℕ → Entry → Rpfs Dev
  enter s slot e =
      let v = record s.vol { dir = set_entry s.vol.dir slot e } in
      record { vol = v; dev = flush_dir_entry B v slot s.dev }

  -- A directory made in the first free slot, if there is one.
  unfoldable pub make_dir : Rpfs Dev → List ℕ → Option ℕ → Bool × Rpfs Dev
  make_dir s name none = (false, s)
  make_dir s name (some slot) = (true, enter s slot (dir_entry name))

  unfoldable pub make_missing : Rpfs Dev → List ℕ → Option ℕ → Bool × Rpfs Dev
  make_missing s name (some i) = (true, s)
  make_missing s name none = make_dir s name (free_slot s.vol)

  -- The loop of `ensure_parents`, over the bytes `rest` of `name` from `cut` on.
  unfoldable pub ensure_from : List ℕ → ℕ → List ℕ → Rpfs Dev → Rpfs Dev
  ensure_from name cut [] s = s
  ensure_from name cut (c ∷ rest) s = ensure_from name (cut + 1) rest (
      if (c == 47) && ltb 0 cut
      then (make_missing s (take cut name) (find s.vol (take cut name))).1
      else s)

  unfoldable pub ensure_parents : Rpfs Dev → List ℕ → Rpfs Dev
  ensure_parents s name = ensure_from name 0 name s

  unfoldable pub mkdir : Rpfs Dev → List ℕ → Bool × Rpfs Dev
  mkdir s name =
      if not s.vol.ready || ((length name == 0) || ltb max_name (length name))
      then (false, s)
      else let s' = ensure_parents s name in make_missing s' name (find s'.vol name)

  -- The tombstone of entry `i`.
  unfoldable pub bury : Rpfs Dev → ℕ → Rpfs Dev
  bury s i =
      let v = record s.vol { dir = store s.vol.dir (i * entry_sz + 112) 255 } in
      record { vol = v; dev = flush_dir_entry B v i s.dev }

  -- The blocks of the file of entry `i`.
  unfoldable pub release : Rpfs Dev → ℕ → Rpfs Dev
  release s i =
      let start = e_start s.vol.dir i in
      let n = e_nblocks s.vol.dir i in
      let v = free_run s.vol start n in
      record { vol = v; dev = flush_bitmap_range B v start n s.dev }

  unfoldable pub delete_found : Rpfs Dev → List ℕ → Option ℕ → Bool × Rpfs Dev
  delete_found s name none = (false, s)
  delete_found s name (some i) =
      if e_kind s.vol.dir i == k_dir
      then if has_child dir_entries s.vol.dir name then (false, s) else (true, bury s i)
      else (true, bury (release s i) i)

  unfoldable pub delete_file : Rpfs Dev → List ℕ → Bool × Rpfs Dev
  delete_file s name = if not s.vol.ready then (false, s) else delete_found s name (find s.vol name)
