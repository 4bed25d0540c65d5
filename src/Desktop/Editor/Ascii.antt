-- ===== src/Desktop/Editor/Ascii.antt =====
-- Strings of ASCII: every place is the start of a character, and every character is one byte.
use rusty_penguin.Base.{
  ℕ, zero, suc, ◌≤◌, ◌<◌, ◌≡◌, refl, [], ◌∷◌, Bool, true, some, ltb, leb, length, get_or, take,
  drop, arith, lt→ltb,
}
use rusty_penguin.Base.Edits.{insert_at, erase_at, all, all-parts}
use rusty_penguin.Desktop.Editor.{
  Text, is_boundary, width, erase_run, insert_char, remove_char, slice_from, truncate,
}

abbrev pub ascii_byte : ℕ → Bool
ascii_byte b = ltb b 128

abbrev pub ascii : Text → Bool
ascii = all ascii_byte

get_or-ascii : (s : Text) (i : ℕ) → ascii s ≡ true → get_or s i 0 < 128
get_or-ascii [] i h = omega arith
get_or-ascii (b ∷ s) zero h = let first = (all-parts ascii_byte b s h).0 in ground arith
get_or-ascii (b ∷ s) (suc i) h = get_or-ascii s i (all-parts ascii_byte b s h).1

pub is_boundary-ascii : (s : Text) (i : ℕ) → ascii s ≡ true → i ≤ length s → is_boundary s i ≡ true
unfolding is_boundary
is_boundary-ascii s i h le = let low = get_or-ascii s i h in ground arith

pub insert_char-ascii :
    (s : Text) (i c : ℕ)
    → ascii s ≡ true
    → i ≤ length s
    → insert_char s i c ≡ some (insert_at s i c)
unfolding insert_char
insert_char-ascii s i c h le = rw (is_boundary-ascii s i h le) refl

pub remove_char-ascii :
    (s : Text) (i : ℕ) → ascii s ≡ true → i < length s → remove_char s i ≡ some (erase_at s i)
unfolding remove_char width erase_run
remove_char-ascii s i h lt =
    rw
      (
        is_boundary-ascii s i h (omega arith),
        lt→ltb i (length s) lt,
        lt→ltb (get_or s i 0) 128 (get_or-ascii s i h),
      )
      refl

pub slice_from-ascii :
    (s : Text) (i : ℕ) → ascii s ≡ true → i ≤ length s → slice_from s i ≡ some (drop i s)
unfolding slice_from
slice_from-ascii s i h le = rw (is_boundary-ascii s i h le) refl

pub truncate-ascii :
    (s : Text) (i : ℕ) → ascii s ≡ true → i ≤ length s → truncate s i ≡ some (take i s)
unfolding truncate
truncate-ascii s i h le =
    let fits : leb i (length s) ≡ true = ground arith in rw (fits, is_boundary-ascii s i h le) refl
