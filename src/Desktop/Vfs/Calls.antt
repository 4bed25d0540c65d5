-- ===== src/Desktop/Vfs/Calls.antt =====
-- What the system calls 25 and 26 pass on.
use rusty_penguin.Base.{
  ℕ, ◌^◌, ◌≤◌, ◌<◌, ◌≡◌, refl, ap, [], ◌∷◌, Bool, false, ◌==◌, Option, some, ltb, length, take,
  arith, ne→==,
}
use rusty_penguin.Desktop.Vfs.{
  Bytes, max_name, buffer, is_empty, packed, name_length, data_length, sys_disk_write,
  sys_disk_read, persist_write, persist_read,
}

take-length : (xs : Bytes) → take (length xs) xs ≡ xs
take-length [] = refl
take-length (x ∷ xs) = ap (x ∷◌) (take-length xs)

some-length : (xs : Bytes) → is_empty xs ≡ false → 0 < length xs
some-length [] e = cc
some-length (x ∷ xs) e = omega arith

-- Both lengths come back, if they fit their fields.
packed_lem :
    (n m : ℕ)
    → n < 2 ^ 8
    → m < 2 ^ 16
    → (name_length (packed n m) ≡ n) × (data_length (packed n m) ≡ m)
unfolding packed
packed_lem n m h h' = (omega arith, omega arith)

-- A name that the calls take.
pub record Callable (name : Bytes) : Type 0 where
  pub some_name : is_empty name ≡ false
  pub short : ltb max_name (length name) ≡ false

module _ {Disk : Type 0} (disk_write : Disk → Bytes → Bytes → Bool × Disk)
    (disk_read : Disk → Bytes → ℕ → Option Bytes) where
  pub persist_write-whole :
      (d : Disk) (name bytes : Bytes)
      → Callable name
      → is_empty bytes ≡ false
      → length bytes ≤ buffer
      → persist_write disk_write disk_read d name bytes ≡ disk_write d name bytes
  unfolding persist_write sys_disk_write
  persist_write-whole d name bytes c some_bytes le =
      let short = c.short in
      let p = packed_lem (length name) (length bytes) (ground arith) (omega arith) in
      let named : (length name == 0) ≡ false =
        ne→== (length name) 0 (λ e. omega (arith, e, some-length name c.some_name)) in
      let fits : ltb 65536 (length bytes) ≡ false = ground arith in
      rw
        (
          c.some_name,
          c.short,
          some_bytes,
          p.0,
          p.1,
          named,
          c.short,
          fits,
          take-length name,
          take-length bytes,
        )
        refl

  pub persist_read-whole :
      (d : Disk) (name bytes : Bytes)
      → Callable name
      → disk_read d name buffer ≡ some bytes
      → persist_read disk_write disk_read d name ≡ bytes
  unfolding persist_read sys_disk_read
  persist_read-whole d name bytes c e =
      let short = c.short in
      let p = packed_lem (length name) buffer (ground arith) (omega arith) in
      let named : (length name == 0) ≡ false =
        ne→== (length name) 0 (λ e. omega (arith, e, some-length name c.some_name)) in
      rw (c.some_name, c.short, p.0, p.1, named, c.short, take-length name, e) refl
