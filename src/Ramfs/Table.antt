-- ===== src/Ramfs/Table.antt =====
-- The table that the walk fills, and what a deletion does to it.
use rusty_penguin.Base.{
  ℕ, zero, suc, ◌+◌, ◌≤◌, ◌<◌, ◌≡◌, ◌≢◌, refl, List, [], ◌∷◌, Bool, true, false, ◌&&◌, none, some,
  ltb, leb, length, length-append, get_elem?, take, length-take, Bool-cases, inl, inr, arith,
  and_parts, or_left, le→leb, Option-cases, ne→==, ◌⊎◌, ◌==◌, ◌*◌, ◌^◌, not, ap, sym, ◌∙◌,
}
use native.Mathlib.Nat.{one-le-pow}
use Prim.Native.Nat.{bit_and, bit_or}
use rusty_penguin.Base.Bits.{bit_and-pow, bit_at-set_self, bit_at-set_ne}
use rusty_penguin.Base.Edits.{all, all-append}
use rusty_penguin.Ramfs.{
  Archive, Inode, Ramfs, max_inodes, header, slice, align4, before_nul, add_inode, name_size,
  file_size, data_offset, next_offset, stops, walk, init, inode, delete, is_deleted,
}

-- A name that the 64 bytes of an inode hold with a zero, and some data.
abbrev pub sound_inode : Inode → Bool
sound_inode ino = leb (length ino.name) 63 && ltb 0 ino.size

record Sound (inodes : List Inode) : Type 0 where
  count : length inodes ≤ max_inodes
  each : all sound_inode inodes ≡ true

add_inode-Sound :
    (inodes : List Inode) (name : List ℕ) (at filesize : ℕ)
    → Sound inodes
    → Sound (add_inode inodes name at filesize)
unfolding add_inode
add_inode-Sound inodes name at filesize h =
    let c = h.count in
    elim (Bool-cases (ltb (length inodes) max_inodes && ltb 0 filesize)) [
      | inr kept ↦ rw kept h
      | inl room ↦
          let p = and_parts (ltb (length inodes) max_inodes) (ltb 0 filesize) room in
          let less = p.0 in
          let short : leb (length (take 63 name)) 63 ≡ true =
            le→leb (length (take 63 name)) 63 (omega (arith, length-take 63 name)) in
          let ino : Inode = record { name = take 63 name; data_at = at; size = filesize } in
          rw room (record {
            count = ground (arith, length-append inodes (ino ∷ []));
            each = all-append sound_inode inodes (ino ∷ []) h.each (rw (short, p.1) refl);
          })
    ]

next_offset-lt : (a : Archive) (off : ℕ) → off < next_offset a off
unfolding next_offset data_offset align4
next_offset-lt a off = omega arith

stops-room :
    (a : Archive) (total_size off : ℕ) → stops a total_size off ≡ false → off + header ≤ total_size
unfolding stops
stops-room a total_size off h =
    let fits = or_left (ltb total_size (off + header)) _ h in ground arith

walk-Sound :
    (fuel : ℕ) (a : Archive) (total_size off : ℕ) (inodes : List Inode)
    → total_size < off + fuel
    → 0 < fuel
    → Sound inodes
    → (inodes' : List Inode) × (walk fuel a total_size off inodes ≡ some inodes') × Sound inodes'
unfolding walk
walk-Sound zero a total_size off inodes enough some_fuel h = absurd (omega arith)
walk-Sound (suc fuel) a total_size off inodes enough some_fuel h =
    elim (Bool-cases (stops a total_size off)) [
      | inl over ↦ (inodes, rw (over, walk) refl, h)
      | inr on ↦
          let room = stops-room a total_size off on in
          let name = before_nul (slice a (off + header) (name_size a off)) in
          let (inodes', e, h') =
            walk-Sound fuel a total_size (next_offset a off)
              (add_inode inodes name (data_offset a off) (file_size a off))
              (omega (arith, next_offset-lt a off)) (omega arith)
              (add_inode-Sound inodes name (data_offset a off) (file_size a off) h) in
          (inodes', rw (on, walk) e, h')
    ]

-- Whatever the archive, `init` comes to an end; the table then has at most 64 inodes, each with a name of
-- at most 63 bytes and some data.
pub init_lem :
    (s : Ramfs) (a : Archive) (total_size : ℕ)
    → (s' : Ramfs) × (init s a total_size ≡ some s')
      × (length s'.inodes ≤ max_inodes)
      × (all sound_inode s'.inodes ≡ true)
unfolding init
init_lem s a total_size =
    let (inodes, e, h) =
      walk-Sound (suc total_size) a total_size 0 [] (omega arith) (omega arith)
        (record { count = omega arith; each = refl }) in
    (record s { inodes = inodes }, rw (e, init) refl, h.count, h.each)

is_deleted-set_self : (mask i : ℕ) → is_deleted (bit_or mask (2 ^ i)) i ≡ true
unfolding is_deleted
is_deleted-set_self mask i =
    let some_bit : bit_and (bit_or mask (2 ^ i)) (2 ^ i) ≡ 1 * 2 ^ i =
      bit_and-pow (bit_or mask (2 ^ i)) i ∙ ap (λ b. b * 2 ^ i) (bit_at-set_self mask i) in
    let not_zero : (bit_and (bit_or mask (2 ^ i)) (2 ^ i) == 0) ≡ false =
      ne→== _ 0 (λ e. omega (arith, some_bit, e, one-le-pow i 2)) in
    rw not_zero refl

is_deleted-set_ne : (mask i j : ℕ) → j ≢ i → is_deleted (bit_or mask (2 ^ i)) j ≡ is_deleted mask j
unfolding is_deleted
is_deleted-set_ne mask i j other =
    ap (λ b. not (b == 0))
      (bit_and-pow (bit_or mask (2 ^ i)) j
        ∙ ap (λ b. b * 2 ^ j) (bit_at-set_ne mask i j other)
        ∙ sym (bit_and-pow mask j))

-- A deletion either says true: then the inode could be had, and after it that inode is gone, and every
-- other is as it was. Or it says false and changes nothing: then the inode could not be had.
pub inode-delete :
    (s : Ramfs) (i j : ℕ)
    → j ≢ i
    → ((ino : Inode) × (inode s i ≡ some ino)
        × ((delete s i).0 ≡ true)
        × (inode (delete s i).1 i ≡ none)
        × (inode (delete s i).1 j ≡ inode s j))
      ⊎ ((delete s i ≡ (false, s)) × (inode s i ≡ none))
unfolding delete inode
inode-delete s i j other = elim (Bool-cases (leb max_inodes i)) [
  | inl beyond ↦ inr (rw beyond refl, rw beyond refl)
  | inr slot ↦ elim (Option-cases (get_elem? s.inodes i)) [
    | inl empty ↦ elim (Bool-cases (is_deleted s.deleted i)) [
      | inl gone ↦ inr (rw (slot, empty) refl, rw (slot, gone) refl)
      | inr there ↦ inr (rw (slot, empty) refl, rw (slot, there) empty)
    ]
    | inr (ino, full) ↦ elim (Bool-cases (is_deleted s.deleted i)) [
      | inl gone ↦ inr (rw (slot, full, gone) refl, rw (slot, gone) refl)
      | inr there ↦ inl (
        ino,
        rw (slot, there) full,
        rw (slot, full, there) refl,
        rw (slot, full, there, is_deleted-set_self s.deleted i) refl,
        rw (slot, full, there, is_deleted-set_ne s.deleted i j other) refl,
      )
    ]
  ]
]
