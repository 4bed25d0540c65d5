-- ===== src/Desktop/Vfs/Files.antt =====
-- What the entries answer after a change.
use rusty_penguin.Base.{
  Option, Bool, and_parts, ℕ, suc, ◌≤◌, ◌≡◌, ◌≢◌, refl, ap, ◌∙◌, List, [], ◌∷◌, ◌++◌, true, false,
  not, ◌&&◌, some, if◌then◌else◌, ◌==◌, ltb, length, Bool-cases, inl, inr, arith, lt→ltb,
}
use rusty_penguin.Base.Texts.{name_eq, name_eq_refl, name_eq_sound, name_eq_ne}
use rusty_penguin.Desktop.Vfs.{
  Bytes, VfsEntry, exists, is_file, directory, write_mem, read, mkdir, without, ensure_parent_dirs,
  is_empty, Vfs, write, delete, flush_manifest, persistable,
}

-- An entry of one name is none of another.
other-file : (e : VfsEntry) (n m : Bytes) → is_file e n ≡ true → n ≢ m → is_file e m ≡ false
other-file e n m h ne =
    let named = name_eq_sound e.name n (and_parts (name_eq e.name n) (not e.is_dir) h).0 in
    rw (named, name_eq_ne n m ne) refl

pub read-write_mem :
    (es : List VfsEntry) (n bytes : Bytes) → read (write_mem es n bytes) n ≡ some bytes
unfolding read write_mem
read-write_mem [] n bytes = rw (name_eq_refl n) refl
read-write_mem (e ∷ es) n bytes = elim (Bool-cases (is_file e n)) [
  | inl here ↦ rw (here, here) refl
  | inr away ↦ rw (away, away) (read-write_mem es n bytes)
]

pub read-write_mem_ne :
    (es : List VfsEntry) (n m bytes : Bytes) → n ≢ m → read (write_mem es n bytes) m ≡ read es m
unfolding read write_mem
read-write_mem_ne [] n m bytes ne = rw (name_eq_ne n m ne) refl
read-write_mem_ne (e ∷ es) n m bytes ne = elim (Bool-cases (is_file e n)) [
  | inl here ↦ rw (here, other-file e n m here ne) refl
  | inr away ↦
      rw away
        (ap (λ r. if is_file e m then some e.contents else r) (read-write_mem_ne es n m bytes ne))
]

read-directory : (es : List VfsEntry) (n m : Bytes) → read (es ++ directory n ∷ []) m ≡ read es m
unfolding read
read-directory [] n m = elim (Bool-cases (name_eq n m)) [ inl e ↦ rw e refl | inr e ↦ rw e refl ]
read-directory (e ∷ es) n m =
    ap (λ r. if is_file e m then some e.contents else r) (read-directory es n m)

pub read-mkdir : (es : List VfsEntry) (n m : Bytes) → read (mkdir es n) m ≡ read es m
unfolding mkdir
read-mkdir es n m = elim (Bool-cases (exists es n)) [
  | inl there ↦ rw there refl
  | inr fresh ↦ rw fresh (read-directory es n m)
]

pub read-ensure_parent_dirs :
    (es : List VfsEntry) (front name m : Bytes)
    → read (ensure_parent_dirs es front name) m ≡ read es m
unfolding ensure_parent_dirs
read-ensure_parent_dirs es front [] m = refl
read-ensure_parent_dirs es front (c ∷ cs) m =
    let es' = if (c == 47) && not (is_empty front) then mkdir es front else es in
    let same : read es' m ≡ read es m = elim (Bool-cases ((c == 47) && not (is_empty front))) [
      | inl slash ↦ rw slash (read-mkdir es front m)
      | inr plain ↦ rw plain refl
    ] in
    read-ensure_parent_dirs es' (front ++ c ∷ []) cs m ∙ same

exists-without : (es : List VfsEntry) (n : Bytes) → exists (without es n) n ≡ false
unfolding exists without
exists-without [] n = refl
exists-without (e ∷ es) n = elim (Bool-cases (name_eq e.name n)) [
  | inl here ↦ rw here (exists-without es n)
  | inr away ↦ rw (away, away) (exists-without es n)
]

read-without_ne : (es : List VfsEntry) (n m : Bytes) → n ≢ m → read (without es n) m ≡ read es m
unfolding read without
read-without_ne [] n m ne = refl
read-without_ne (e ∷ es) n m ne = elim (Bool-cases (name_eq e.name n)) [
  | inl here ↦
      let named = name_eq_sound e.name n here in
      rw (here, named, name_eq_ne n m ne) (read-without_ne es n m ne)
  | inr away ↦
      rw away (ap (λ r. if is_file e m then some e.contents else r) (read-without_ne es n m ne))
]

length-without_le : (es : List VfsEntry) (n : Bytes) → length (without es n) ≤ length es
unfolding without
length-without_le [] n = omega arith
length-without_le (e ∷ es) n = ground (arith, length-without_le es n)

-- Something is removed just when the name exists.
removed-exists :
    (es : List VfsEntry) (n : Bytes) → ltb (length (without es n)) (length es) ≡ exists es n
unfolding exists without
removed-exists [] n = refl
removed-exists (e ∷ es) n = elim (Bool-cases (name_eq e.name n)) [
  | inl here ↦
      rw here
        (lt→ltb (length (without es n)) (suc (length es)) (omega (arith, length-without_le es n)))
  | inr away ↦ rw away (less_suc (length (without es n)) (length es) ∙ removed-exists es n)
]
  where
    less_suc : (a b : ℕ) → ltb (suc a) (suc b) ≡ ltb a b
    less_suc a b = ground arith

module _ {Disk : Type 0} (disk_write : Disk → Bytes → Bytes → Bool × Disk)
    (disk_read : Disk → Bytes → ℕ → Option Bytes) where
  pub write-entries :
      (v : Vfs Disk) (n bytes : Bytes)
      → (write disk_write disk_read v n bytes).entries ≡ write_mem v.entries n bytes
  unfolding write flush_manifest
  write-entries v n bytes = elim (Bool-cases (v.persist_on && persistable n)) [
    | inr memory ↦ rw memory refl
    | inl mirrored ↦ rw mirrored (elim (Bool-cases (not (exists v.entries n))) [
      | inl fresh ↦ rw fresh refl
      | inr there ↦ rw there refl
    ])
  ]

  delete-entries :
      (v : Vfs Disk) (n : Bytes) → (delete disk_write disk_read v n).1.entries ≡ without v.entries n
  unfolding delete flush_manifest
  delete-entries v n =
      elim (Bool-cases (
        ltb (length (without v.entries n)) (length v.entries) && (v.persist_on && persistable n))) [
          | inl mirrored ↦ rw mirrored refl
          | inr memory ↦ rw memory refl
        ]

  -- After a write, the file of the name reads as what was written, and every other name reads as before,
  -- whether the mirror is armed or not.
  pub read-write :
      (v : Vfs Disk) (n m bytes : Bytes)
      → n ≢ m
      → (read (write disk_write disk_read v n bytes).entries n ≡ some bytes)
        × (read (write disk_write disk_read v n bytes).entries m ≡ read v.entries m)
  read-write v n m bytes ne =
      rw (write-entries v n bytes)
        (read-write_mem v.entries n bytes, read-write_mem_ne v.entries n m bytes ne)

  -- A deletion says whether the name existed; then no entry has the name, and every other name reads as
  -- before.
  pub delete_lem :
      (v : Vfs Disk) (n m : Bytes)
      → n ≢ m
      → ((delete disk_write disk_read v n).0 ≡ exists v.entries n)
        × (exists (delete disk_write disk_read v n).1.entries n ≡ false)
        × (read (delete disk_write disk_read v n).1.entries m ≡ read v.entries m)
  unfolding delete
  delete_lem v n m ne = (
    removed-exists v.entries n,
    ap (λ es. exists es n) (delete-entries v n) ∙ exists-without v.entries n,
    ap (λ es. read es m) (delete-entries v n) ∙ read-without_ne v.entries n m ne,
  )
