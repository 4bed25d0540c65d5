-- ===== src/Desktop/Editor/Undo.antt =====
-- BackKey takes back what was typed.
use rusty_penguin.Base.{
  ◌⊎◌, inl, inr, ℕ, ◌+◌, ◌-◌, ◌≤◌, ◌<◌, min, ◌≡◌, refl, ap, ◌∙◌, ◌++◌, true, false, Option, some,
  ◌==◌, leb, length, get_elem?, get_elem?-set_self, set, take, drop, ◌>>=◌, arith, take-append-drop,
  length-take, lt→ltb, length-set,
}
use rusty_penguin.Base.Edits.{
  insert_at, erase_at, all-insert_at, erase_at-insert_at, length-insert_at,
  get_elem?-insert_at_self, set-set, set-get_elem?,
}
use rusty_penguin.Desktop.Ansi.{feed}
use rusty_penguin.Desktop.Editor.{
  Text, TextEditor, current, with_line, touched, touch, clamp_cursor, on_backspace, type_char,
  on_char, on_key, copied, send_key, remove_line,
}
use rusty_penguin.Desktop.Editor.Ascii.{ascii_byte, ascii, remove_char-ascii}
use rusty_penguin.Desktop.Editor.Cursor.{Valid, line-ascii, row-lt, set-Inside}
use rusty_penguin.Desktop.Editor.Safe.{break_line-value, break_line-Inside, type_char-value}
use rusty_penguin.Desktop.Editor.Keys.{sent}

-- A cursor that is in the text stays.
clamp_cursor-Valid : (e : TextEditor) → Valid e → clamp_cursor e ≡ some e
unfolding clamp_cursor
clamp_cursor-Valid e v =
    let lt = row-lt e.lines e.cursor_line e.cursor_col v in
    let inside : leb (length e.lines) e.cursor_line ≡ false = ground arith in
    let le = v.col_le in
    let same : min e.cursor_col (length v.line) ≡ e.cursor_col = omega arith in
    rw (inside, v.here, same) refl

-- A key that is no part of an escape sequence, nor Ctrl+C.
send_key-char :
    (clipboard : Option Text) (e : TextEditor) (c : ℕ)
    → e.ansi.state ≡ 0
    → (c == 27) ≡ false
    → (c == 3) ≡ false
    → send_key clipboard e c ≡ (on_char clipboard c e >>= λ e'. clamp_cursor e' >>= sent clipboard)
unfolding send_key feed copied on_key
send_key-char clipboard e c normal plain other = rw (normal, plain, other) refl

on_char-printable :
    (clipboard : Option Text) (e : TextEditor) (c : ℕ)
    → 32 ≤ c
    → c < 127
    → on_char clipboard c e ≡ touch (type_char c e)
unfolding on_char
on_char-printable clipboard e c lo hi = ground arith

-- The two codes of backspace: 8, which the keyboard drivers send, and 127.
abbrev pub BackKey : ℕ → Type 0
BackKey back = (back ≡ 8) ⊎ (back ≡ 127)

on_char-delete :
    (clipboard : Option Text) (e : TextEditor) (back : ℕ)
    → BackKey back
    → on_char clipboard back e ≡ on_backspace e
unfolding on_char
on_char-delete clipboard e back (inl eight) = rw eight refl
on_char-delete clipboard e back (inr last) = rw last refl

-- Neither of them starts an escape sequence or copies.
plain-BackKey : (back : ℕ) → BackKey back → ((back == 27) ≡ false) × ((back == 3) ≡ false)
plain-BackKey back (inl eight) = rw eight (refl, refl)
plain-BackKey back (inr last) = rw last (refl, refl)

-- BackKey after a character of the line.
on_backspace-inside :
    (e : TextEditor) (line : Text)
    → get_elem? e.lines e.cursor_line ≡ some line
    → ascii line ≡ true
    → 0 < e.cursor_col
    → e.cursor_col ≤ length line
    → on_backspace e
      ≡ some (record e {
        lines = set e.lines e.cursor_line (erase_at line (e.cursor_col - 1));
        cursor_col = e.cursor_col - 1;
        dirty = true;
      })
unfolding on_backspace current with_line
on_backspace-inside e line here plain lt le =
    rw
      (
        lt→ltb 0 e.cursor_col lt,
        here,
        remove_char-ascii line (e.cursor_col - 1) plain (omega arith),
      )
      refl

-- The editor with the character in its line.
typed : (c : ℕ) (e : TextEditor) → Valid e → TextEditor
typed c e v = record e {
  lines = set e.lines e.cursor_line (insert_at v.line e.cursor_col c);
  cursor_col = e.cursor_col + 1;
  dirty = true;
}

typed-Valid : (c : ℕ) (e : TextEditor) (v : Valid e) → c < 128 → Valid (typed c e v)
unfolding typed
typed-Valid c e v low =
    let le = v.col_le in
    set-Inside e.lines e.cursor_line e.cursor_col (e.cursor_col + 1)
      (insert_at v.line e.cursor_col c) v
      (all-insert_at ascii_byte v.line e.cursor_col c
        (line-ascii e.lines e.cursor_line e.cursor_col v) (lt→ltb c 128 low))
      (omega (arith, length-insert_at v.line e.cursor_col c))

-- `send_key` of such a key, once the handler's result is known and the cursor in it is in the text.
send_key-value :
    (clipboard : Option Text) (e e' : TextEditor) (c : ℕ)
    → e.ansi.state ≡ 0
    → (c == 27) ≡ false
    → (c == 3) ≡ false
    → on_char clipboard c e ≡ some e'
    → Valid e'
    → send_key clipboard e c ≡ some (clipboard, e')
send_key-value clipboard e e' c normal plain other value v =
    send_key-char clipboard e c normal plain other ∙ rw (value, clamp_cursor-Valid e' v) refl

-- Within ASCII text, with no escape sequence on its way: a printable character and then backspace,
-- under either of its codes, leave the lines, the cursor and the clipboard as they were; only the editor counts as modified.
pub send_key-type_backspace :
    (clipboard : Option Text) (e : TextEditor) (c back : ℕ)
    → Valid e
    → e.ansi.state ≡ 0
    → 32 ≤ c
    → c < 127
    → BackKey back
    → (send_key clipboard e c >>= λ r. send_key r.0 r.1 back) ≡ some (clipboard, touched e)
unfolding typed
send_key-type_backspace clipboard e c back v normal lo hi key =
    let text = line-ascii e.lines e.cursor_line e.cursor_col v in
    let le = v.col_le in
    let longer = insert_at v.line e.cursor_col c in
    let forth =
      send_key-value clipboard e (typed c e v) c normal (ground arith) (ground arith)
        (on_char-printable clipboard e c lo hi ∙ ap touch (type_char-value c e v))
        (typed-Valid c e v (omega arith)) in
    let inside =
      on_backspace-inside (typed c e v) longer
        (get_elem?-set_self e.lines e.cursor_line longer
          (row-lt e.lines e.cursor_line e.cursor_col v))
        (all-insert_at ascii_byte v.line e.cursor_col c text (lt→ltb c 128 (omega arith)))
        (omega arith) (omega (arith, length-insert_at v.line e.cursor_col c)) in
    let same_col : e.cursor_col + 1 - 1 ≡ e.cursor_col = omega arith in
    let undone : on_backspace (typed c e v) ≡ some (touched e) =
      inside
      ∙ rw
          (
            same_col,
            erase_at-insert_at v.line e.cursor_col c le,
            set-set e.lines e.cursor_line longer v.line,
            set-get_elem? e.lines e.cursor_line v.line v.here,
          )
          refl in
    rw forth (
      send_key-value clipboard (typed c e v) (touched e) back normal (plain-BackKey back key).0
        (plain-BackKey back key).1 (on_char-delete clipboard (typed c e v) back key ∙ undone) v)

-- The editor with the line cut at the cursor.
broken : (e : TextEditor) → Valid e → TextEditor
broken e v = record e {
  lines =
      insert_at (set e.lines e.cursor_line (take e.cursor_col v.line)) (e.cursor_line + 1)
        (drop e.cursor_col v.line);
  cursor_line = e.cursor_line + 1;
  cursor_col = 0;
  dirty = true;
}

-- BackKey at the start of a line that is not the first.
on_backspace-joins :
    (e : TextEditor) (row : ℕ) (upper lower : Text)
    → e.cursor_line ≡ row + 1
    → e.cursor_col ≡ 0
    → get_elem? e.lines (row + 1) ≡ some lower
    → get_elem? (erase_at e.lines (row + 1)) row ≡ some upper
    → on_backspace e
      ≡ some (record e {
        lines = set (erase_at e.lines (row + 1)) row (upper ++ lower);
        cursor_line = row;
        cursor_col = length upper;
        dirty = true;
      })
unfolding on_backspace remove_line
on_backspace-joins e row upper lower at start here above =
    let back : row + 1 - 1 ≡ row = omega arith in
    rw (start, at, lt→ltb 0 (row + 1) (omega arith), here, back, above) refl

-- Within ASCII text, with no escape sequence on its way: Enter and then backspace, under either of its
-- codes 8 and 127, leave the lines, the cursor and the clipboard as they were; only the editor counts
-- as modified.
pub send_key-enter_backspace :
    (clipboard : Option Text) (e : TextEditor) (back : ℕ)
    → Valid e
    → e.ansi.state ≡ 0
    → BackKey back
    → (send_key clipboard e 10 >>= λ r. send_key r.0 r.1 back) ≡ some (clipboard, touched e)
unfolding broken on_char
send_key-enter_backspace clipboard e back v normal key =
    let text = line-ascii e.lines e.cursor_line e.cursor_col v in
    let lt = row-lt e.lines e.cursor_line e.cursor_col v in
    let le = v.col_le in
    let head = take e.cursor_col v.line in
    let tail = drop e.cursor_col v.line in
    let cut = set e.lines e.cursor_line head in
    let fits : e.cursor_line + 1 ≤ length cut =
      omega (arith, length-set e.lines e.cursor_line head) in
    let whole = erase_at-insert_at cut (e.cursor_line + 1) tail fits in
    let below = get_elem?-insert_at_self cut (e.cursor_line + 1) tail fits in
    let above = get_elem?-set_self e.lines e.cursor_line head lt in
    let same_col : length head ≡ e.cursor_col = omega (arith, length-take e.cursor_col v.line) in
    let joined : on_backspace (broken e v) ≡ some (touched e) =
      on_backspace-joins (broken e v) e.cursor_line head tail refl refl below
        (ap (λ ls. get_elem? ls e.cursor_line) whole ∙ above)
      ∙ rw
          (
            whole,
            take-append-drop e.cursor_col v.line,
            set-set e.lines e.cursor_line head v.line,
            set-get_elem? e.lines e.cursor_line v.line v.here,
            same_col,
          )
          refl in
    rw
      (send_key-value clipboard e (broken e v) 10 normal refl refl (ap touch (break_line-value e v))
        (break_line-Inside e v))
      (send_key-value clipboard (broken e v) (touched e) back normal (plain-BackKey back key).0
        (plain-BackKey back key).1 (on_char-delete clipboard (broken e v) back key ∙ joined) v)
