-- ===== src/Desktop/Editor/Cursor.antt =====
-- The cursor stays in the text.
use rusty_penguin.Base.{
  ℕ, ◌+◌, ◌-◌, ◌≤◌, ◌<◌, ◌≡◌, refl, ◌∙◌, List, ◌++◌, Bool, true, false, Option, some, if◌then◌else◌,
  ltb, leb, length, get_elem?, get_elem?-set_self, set, ◌>>=◌, arith, Bool-cases, inl, inr, ltb→lt,
  length-append,
}
use rusty_penguin.Base.Edits.{
  erase_at, all, all-get_elem?, all-append, all-set, all-erase_at, length-erase_at,
  get_elem?-erase_at_lt, get_elem?-lt, lt-get_elem?,
}
use rusty_penguin.Desktop.Editor.{
  Text, TextEditor, current, with_line, clamp_cursor, on_up, on_down, on_right, on_left, on_end,
  on_delete, remove_line,
}
use rusty_penguin.Desktop.Editor.Ascii.{ascii_byte, ascii, remove_char-ascii}

-- The cursor is in a line, or at the end of it, and all the text is ASCII.
pub record Inside (lines : List Text) (row col : ℕ) : Type 0 where
  pub line : Text
  pub here : get_elem? lines row ≡ some line
  pub col_le : col ≤ length line
  pub plain : all ascii lines ≡ true

abbrev pub Valid : TextEditor → Type 0
Valid e = Inside e.lines e.cursor_line e.cursor_col

-- No panic, and a state that is valid.
pub record Fine (r : Option TextEditor) : Type 0 where
  pub after : TextEditor
  pub returns : r ≡ some after
  pub valid : Valid after

pub Fine-some : (e : TextEditor) → Valid e → Fine (some e)
Fine-some e v = record { after = e; returns = refl; valid = v }

pub bind-Fine :
    (r : Option TextEditor) (f : TextEditor → Option TextEditor)
    → Fine r
    → ((e : TextEditor) → Valid e → Fine (f e))
    → Fine (r >>= f)
bind-Fine r f h g = rw (h.returns) (g h.after h.valid)

pub if-Fine :
    (b : Bool) (r r' : Option TextEditor)
    → (b ≡ true → Fine r)
    → (b ≡ false → Fine r')
    → Fine (if b then r else r')
if-Fine true r r' h h' = h refl
if-Fine false r r' h h' = h' refl

pub line-ascii : (lines : List Text) (row col : ℕ) (v : Inside lines row col) → ascii v.line ≡ true
line-ascii lines row col v = all-get_elem? ascii lines row v.line v.plain v.here

pub row-lt : (lines : List Text) (row col : ℕ) → Inside lines row col → row < length lines
row-lt lines row col v = get_elem?-lt lines row v.line v.here

-- The line at hand becomes `l`.
pub set-Inside :
    (lines : List Text) (row col col' : ℕ) (l : Text)
    → Inside lines row col
    → ascii l ≡ true
    → col' ≤ length l
    → Inside (set lines row l) row col'
set-Inside lines row col col' l v h le = record {
  line = l;
  here = get_elem?-set_self lines row l (row-lt lines row col v);
  col_le = le;
  plain = all-set ascii lines row l v.plain h;
}

pub clamp_cursor-Fine :
    (e : TextEditor) → 0 < length e.lines → all ascii e.lines ≡ true → Fine (clamp_cursor e)
unfolding clamp_cursor
clamp_cursor-Fine e some_line plain =
    let row = if leb (length e.lines) e.cursor_line then length e.lines - 1 else e.cursor_line in
    let inside : row < length e.lines = ground arith in
    let (l, here) = lt-get_elem? e.lines row inside in
    rw here (Fine-some _ (record { line = l; here = here; col_le = omega arith; plain = plain }))

pub lines-pos : (e : TextEditor) → Valid e → 0 < length e.lines
lines-pos e v = omega (arith, row-lt e.lines e.cursor_line e.cursor_col v)

pub on_up-Fine : (e : TextEditor) → Valid e → Fine (on_up e)
unfolding on_up
on_up-Fine e v =
    if-Fine (ltb 0 e.cursor_line) (clamp_cursor (record e { cursor_line = e.cursor_line - 1 }))
      (some e)
      (λ h.
        clamp_cursor-Fine (record e { cursor_line = e.cursor_line - 1 }) (lines-pos e v) v.plain)
      (λ h. Fine-some e v)

pub on_down-Fine : (e : TextEditor) → Valid e → Fine (on_down e)
unfolding on_down
on_down-Fine e v =
    if-Fine (ltb (e.cursor_line + 1) (length e.lines))
      (clamp_cursor (record e { cursor_line = e.cursor_line + 1 })) (some e)
      (λ h.
        clamp_cursor-Fine (record e { cursor_line = e.cursor_line + 1 }) (lines-pos e v) v.plain)
      (λ h. Fine-some e v)

pub on_right-Fine : (e : TextEditor) → Valid e → Fine (on_right e)
unfolding on_right current
on_right-Fine e v = rw (v.here) (elim (Bool-cases (ltb e.cursor_col (length v.line))) [
  | inl more ↦
      let le = ltb→lt e.cursor_col (length v.line) more in
      rw more (
        Fine-some _
          (record { line = v.line; here = v.here; col_le = omega arith; plain = v.plain }))
  | inr last ↦ rw last (elim (Bool-cases (ltb (e.cursor_line + 1) (length e.lines))) [
    | inl below ↦
        let (l, there) = lt-get_elem? e.lines (e.cursor_line + 1) (ltb→lt _ _ below) in
        rw below
          (Fine-some _ (record { line = l; here = there; col_le = omega arith; plain = v.plain }))
    | inr final ↦ rw final (Fine-some e v)
  ])
])

pub on_left-Fine : (e : TextEditor) → Valid e → Fine (on_left e)
unfolding on_left
on_left-Fine e v = elim (Bool-cases (ltb 0 e.cursor_col)) [
  | inl more ↦
      let le = v.col_le in
      rw more (
        Fine-some _
          (record { line = v.line; here = v.here; col_le = omega arith; plain = v.plain }))
  | inr first ↦ rw first (elim (Bool-cases (ltb 0 e.cursor_line)) [
    | inl above ↦
        let (l, there) = lt-get_elem? e.lines (e.cursor_line - 1) (
          omega
            (arith, row-lt e.lines e.cursor_line e.cursor_col v, ltb→lt 0 e.cursor_line above)) in
        rw (above, there)
          (Fine-some _ (record { line = l; here = there; col_le = omega arith; plain = v.plain }))
    | inr top ↦ rw top (Fine-some e v)
  ])
]

pub on_end-Fine : (e : TextEditor) → Valid e → Fine (on_end e)
unfolding on_end current
on_end-Fine e v =
    rw (v.here)
      (Fine-some _ (record { line = v.line; here = v.here; col_le = omega arith; plain = v.plain }))

pub on_delete-Fine : (e : TextEditor) → Valid e → Fine (on_delete e)
unfolding on_delete current with_line remove_line
on_delete-Fine e v = rw (v.here) (elim (Bool-cases (ltb e.cursor_col (length v.line))) [
  | inl more ↦
      let lt = ltb→lt e.cursor_col (length v.line) more in
      let text = line-ascii e.lines e.cursor_line e.cursor_col v in
      rw (more, remove_char-ascii v.line e.cursor_col text lt)
        (Fine-some _ (
          set-Inside e.lines e.cursor_line e.cursor_col e.cursor_col (erase_at v.line e.cursor_col)
            v (all-erase_at ascii_byte v.line e.cursor_col text)
            (omega (arith, length-erase_at v.line e.cursor_col lt))))
  | inr last ↦ rw last (elim (Bool-cases (ltb (e.cursor_line + 1) (length e.lines))) [
    | inl below ↦
        let (l, there) = lt-get_elem? e.lines (e.cursor_line + 1) (ltb→lt _ _ below) in
        let le = v.col_le in
        rw (below, there)
          (Fine-some _ (
            set-Inside (erase_at e.lines (e.cursor_line + 1)) e.cursor_line e.cursor_col
              e.cursor_col (v.line ++ l)
              (record {
                line = v.line;
                here =
                    get_elem?-erase_at_lt e.lines (e.cursor_line + 1) e.cursor_line (omega arith)
                    ∙ v.here;
                col_le = v.col_le;
                plain = all-erase_at ascii e.lines (e.cursor_line + 1) v.plain;
              })
              (all-append ascii_byte v.line l (line-ascii e.lines e.cursor_line e.cursor_col v)
                (all-get_elem? ascii e.lines (e.cursor_line + 1) l v.plain there))
              (omega (arith, length-append v.line l))))
    | inr final ↦ rw final (Fine-some e v)
  ])
])
