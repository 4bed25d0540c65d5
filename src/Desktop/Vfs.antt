-- ===== src/Desktop/Vfs.antt =====
-- desktop-metal/src/vfs.rs: the flat filesystem in memory and its mirror on disk. A name is the list of
-- its bytes. The system calls 25 and 26 are those of kernel/src/syscall.rs, over the files of a disk.
pub mod Names
pub mod Files
pub mod Kept
pub mod Calls
pub mod Mirror
mod Tests
use rusty_penguin.Base.{
  ◌*◌, ◌/◌, ◌%◌, ◌^◌, ℕ, zero, suc, ◌+◌, ◌≤◌, ◌<◌, List, [], ◌∷◌, ◌++◌, Bool, true, false, not,
  ◌&&◌, ◌||◌, Option, none, some, if◌then◌else◌, ◌==◌, ltb, leb, length, take,
}
use rusty_penguin.Base.Texts.{name_eq, is_utf8}

abbrev pub Bytes : Type 0
Bytes = List ℕ

-- ".vfsmanifest"
abbrev pub manifest : Bytes
manifest = 46 ∷ 118 ∷ 102 ∷ 115 ∷ 109 ∷ 97 ∷ 110 ∷ 105 ∷ 102 ∷ 101 ∷ 115 ∷ 116 ∷ []

-- ".config/rusty-penguin/settings.ini"
abbrev pub settings : Bytes
settings =
    46 ∷ 99 ∷ 111 ∷ 110 ∷ 102 ∷ 105 ∷ 103 ∷ 47 ∷ 114 ∷ 117 ∷ 115 ∷ 116 ∷ 121 ∷ 45 ∷ 112 ∷ 101 ∷ 110
    ∷ 103 ∷ 117 ∷ 105 ∷ 110 ∷ 47 ∷ 115 ∷ 101 ∷ 116 ∷ 116 ∷ 105 ∷ 110 ∷ 103 ∷ 115 ∷ 46 ∷ 105 ∷ 110
    ∷ 105 ∷ []

abbrev pub max_name : ℕ
max_name = 51

abbrev pub buffer : ℕ
buffer = 65535

abbrev pub is_empty : Bytes → Bool
is_empty [] = true
is_empty (b ∷ bs) = false

unfoldable pub persistable : Bytes → Bool
persistable name =
    not (is_empty name) && (leb (length name) max_name && not (name_eq name manifest))

pub record VfsEntry : Type 0 where
  pub name : Bytes
  pub contents : Bytes
  pub is_dir : Bool

unfoldable pub exists : List VfsEntry → Bytes → Bool
exists [] name = false
exists (e ∷ es) name = name_eq e.name name || exists es name

abbrev pub is_file : VfsEntry → Bytes → Bool
is_file e name = name_eq e.name name && not e.is_dir

abbrev pub file : Bytes → Bytes → VfsEntry
file name bytes = record { name = name; contents = bytes; is_dir = false }

abbrev pub directory : Bytes → VfsEntry
directory name = record { name = name; contents = []; is_dir = true }

-- The first file of the name, or a new one at the end.
unfoldable pub write_mem : List VfsEntry → Bytes → Bytes → List VfsEntry
write_mem [] name bytes = file name bytes ∷ []
write_mem (e ∷ es) name bytes =
    let rest = write_mem es name bytes in
    if is_file e name then record e { contents = bytes } ∷ es else e ∷ rest

unfoldable pub read : List VfsEntry → Bytes → Option Bytes
read [] name = none
read (e ∷ es) name = let rest = read es name in if is_file e name then some e.contents else rest

unfoldable pub mkdir : List VfsEntry → Bytes → List VfsEntry
mkdir es name = if exists es name then es else es ++ directory name ∷ []

-- `retain`
unfoldable pub without : List VfsEntry → Bytes → List VfsEntry
without [] name = []
without (e ∷ es) name = let rest = without es name in if name_eq e.name name then rest else e ∷ rest

-- The entry that is renamed, and the entries then.
unfoldable pub renamed : List VfsEntry → Bytes → Bytes → Option (VfsEntry × List VfsEntry)
renamed [] from to = none
renamed (e ∷ es) from to = elim (name_eq e.name from) [
  | true ↦ some (e, record e { name = to } ∷ es)
  | false ↦ elim (renamed es from to) [ none ↦ none | some t ↦ some (t.0, e ∷ t.1) ]
]

-- The names of the files that the mirror keeps, each with a line feed.
unfoldable pub listing : List VfsEntry → Bytes
listing [] = []
listing (e ∷ es) =
    let rest = listing es in
    if not e.is_dir && persistable e.name then e.name ++ 10 ∷ rest else rest

unfoldable pub manifest_bytes : List VfsEntry → Bytes
manifest_bytes es = if is_empty (listing es) then 10 ∷ [] else listing es

-- `split('\n')`, without the empty parts; `word` is what was read of the part at hand.
unfoldable pub split_names : Bytes → Bytes → List Bytes
split_names [] [] = []
split_names (w ∷ ws) [] = (w ∷ ws) ∷ []
split_names [] (c ∷ cs) =
    let skip = split_names [] cs in
    let more = split_names (c ∷ []) cs in if c == 10 then skip else more
split_names (w ∷ ws) (c ∷ cs) =
    let rest = split_names [] cs in
    let more = split_names ((w ∷ ws) ++ c ∷ []) cs in if c == 10 then (w ∷ ws) ∷ rest else more

-- A directory for each '/' of the name, unless it is there; `front` is what stands before.
unfoldable pub ensure_parent_dirs : List VfsEntry → Bytes → Bytes → List VfsEntry
ensure_parent_dirs es front [] = es
ensure_parent_dirs es front (c ∷ cs) =
    ensure_parent_dirs (if (c == 47) && not (is_empty front) then mkdir es front else es)
      (front ++ c ∷ []) cs

pub record Vfs (Disk : Type 0) : Type 0 where
  pub entries : List VfsEntry
  pub persist_on : Bool
  pub disk : Disk

-- The second argument of the system calls 25 and 26: a length below 2^16 and another one above it.
unfoldable pub packed : ℕ → ℕ → ℕ
packed name_len len = (name_len + len * 2 ^ 16) % 2 ^ 64

abbrev pub name_length : ℕ → ℕ
name_length arg = arg % 2 ^ 8

abbrev pub data_length : ℕ → ℕ
data_length arg = arg / 2 ^ 16 % 2 ^ 16

-- `disk_write` and `disk_read` are `write_file` and `read_file` of diskfs.rs: whether the file is written,
-- and the bytes that are read of it, at most as many as are asked for.
module _ {Disk : Type 0} (disk_write : Disk → Bytes → Bytes → Bool × Disk)
    (disk_read : Disk → Bytes → ℕ → Option Bytes) where
  -- System call 25: true stands for 0. The pointers are not null.
  unfoldable pub sys_disk_write : Disk → Bytes → Bytes → ℕ → Bool × Disk
  sys_disk_write d name bytes arg =
      if (name_length arg == 0) || (ltb max_name (name_length arg) || ltb 65536 (data_length arg))
      then (false, d)
      else disk_write d (take (name_length arg) name) (take (data_length arg) bytes)

  -- System call 26
  unfoldable pub sys_disk_read : Disk → Bytes → ℕ → Option Bytes
  sys_disk_read d name arg =
      if (name_length arg == 0) || (ltb max_name (name_length arg) || (data_length arg == 0))
      then none
      else disk_read d (take (name_length arg) name) (data_length arg)

  unfoldable pub persist_write : Disk → Bytes → Bytes → Bool × Disk
  persist_write d name bytes =
      if is_empty name || (ltb max_name (length name) || is_empty bytes)
      then (false, d)
      else sys_disk_write d name bytes (packed (length name) (length bytes))

  -- An error reads as no bytes.
  unfoldable pub persist_read : Disk → Bytes → Bytes
  persist_read d name =
      if is_empty name || ltb max_name (length name)
      then []
      else elim (sys_disk_read d name (packed (length name) buffer)) [
        | none ↦ []
        | some bytes ↦ bytes
      ]

  unfoldable pub flush_manifest : Vfs Disk → Vfs Disk
  flush_manifest v = record v {
    disk = (persist_write v.disk manifest (manifest_bytes v.entries)).1;
  }

  unfoldable pub write : Vfs Disk → Bytes → Bytes → Vfs Disk
  write v name bytes =
      let v' : Vfs Disk = record v { entries = write_mem v.entries name bytes } in
      if v.persist_on && persistable name
      then (let v'' : Vfs Disk = record v' { disk = (persist_write v.disk name bytes).1 } in
          if not (exists v.entries name) then flush_manifest v'' else v'')
      else v'

  unfoldable pub load_one : Disk → List VfsEntry → Bytes → List VfsEntry
  load_one d es name =
      if is_empty (persist_read d name)
      then es
      else write_mem (ensure_parent_dirs es [] name) name (persist_read d name)

  unfoldable pub load_all : Disk → List VfsEntry → List Bytes → List VfsEntry
  load_all d es [] = es
  load_all d es (n ∷ ns) = load_all d (load_one d es n) ns

  -- A manifest that is not UTF-8 counts as empty.
  unfoldable pub load_persisted : Vfs Disk → Vfs Disk
  load_persisted v =
      let names = persist_read v.disk manifest in
      let es = load_all v.disk v.entries (if is_utf8 names then split_names [] names else []) in
      record v { entries = if exists es settings then es else load_one v.disk es settings }

  unfoldable pub delete : Vfs Disk → Bytes → Bool × Vfs Disk
  delete v name =
      let es = without v.entries name in
      let v' : Vfs Disk = record v { entries = es } in
      let removed = ltb (length es) (length v.entries) in
      (removed, if removed && (v.persist_on && persistable name) then flush_manifest v' else v')

  unfoldable pub rename : Vfs Disk → Bytes → Bytes → Bool × Vfs Disk
  rename v from to = elim (renamed v.entries from to) [
    | none ↦ (false, v)
    | some t ↦ (
      true,
      if v.persist_on && (not t.0.is_dir && persistable to)
          then flush_manifest
              (record v { entries = t.1; disk = (persist_write v.disk to t.0.contents).1 })
          else record v { entries = t.1 },
    )
  ]
