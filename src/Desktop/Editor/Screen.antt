-- ===== src/Desktop/Editor/Screen.antt =====
-- desktop-metal/src/editor.rs: the mouse, and the part of the text that is shown.
use rusty_penguin.Base.{
  ℕ, ◌+◌, ◌-◌, ◌/◌, ◌%◌, ◌≤◌, ◌<◌, min, ◌≡◌, refl, Bool, Option, none, some, if◌then◌else◌, ◌==◌,
  leb, length, get_elem?, arith, Bool-cases, ◌⊎◌, inl, inr,
}
use rusty_penguin.Base.Int.{ℤ, pos, pos_part, ltb_ℤ, wrap_i32, ◌-ℤ◌}
use rusty_penguin.Base.Edits.{lt-get_elem?}
use rusty_penguin.Desktop.Editor.{TextEditor, line_h, char_w, margin_l, margin_t}
use rusty_penguin.Desktop.Editor.Digits.{gutter_width}
use rusty_penguin.Desktop.Editor.Cursor.{Valid}

-- `x - m as i32`
unfoldable pub less : ℤ → ℕ → ℤ
less x m = wrap_i32 (x -ℤ wrap_i32 (pos m))

-- `(x - m).max(0)`, and the test `x - m < 0`.
abbrev pub past : ℤ → ℕ → ℕ
past x m = pos_part (less x m)

abbrev pub before : ℤ → ℕ → Bool
before x m = ltb_ℤ (less x m) (pos 0)

-- The line at a row of the window, and the column at a pixel of a line.
abbrev pub row_at : TextEditor → ℤ → ℕ
row_at e y = e.scroll_line + past y margin_t / line_h

abbrev pub col_at : TextEditor → ℤ → ℕ
col_at e x = past x (margin_l + gutter_width (length e.lines)) / char_w

unfoldable pub on_mouse : TextEditor → ℤ → ℤ → ℕ → Option TextEditor
on_mouse e x y buttons =
    if buttons % 2 == 0
    then some e
    else if before y margin_t
    then some e
    else if leb (length e.lines) (row_at e y)
    then some e
    else elim (get_elem? e.lines (row_at e y)) [
      | none ↦ none
      | some l ↦
          some (record e { cursor_line = row_at e y; cursor_col = min (col_at e x) (length l) })
    ]

abbrev pub status_h : ℕ
status_h = 16

unfoldable pub max_lines : ℕ → ℕ
max_lines h = (h - status_h) / line_h

-- The first part of `render`: the first line that is shown in a window of height `h`.
unfoldable pub scrolled : TextEditor → ℕ → TextEditor
scrolled e h = record e {
  scroll_line = min (e.cursor_line - max_lines h / 2) (length e.lines - max_lines h);
}

-- A click, wherever it is and whatever button it is made with, does not panic, and leaves the lines as
-- they were and the cursor in the text.
pub on_mouse-Valid :
    (e : TextEditor) (x y : ℤ) (buttons : ℕ)
    → Valid e
    → (e' : TextEditor) × (on_mouse e x y buttons ≡ some e') × (e'.lines ≡ e.lines) × Valid e'
unfolding on_mouse
on_mouse-Valid e x y buttons v = elim (Bool-cases (buttons % 2 == 0)) [
  | inl released ↦ (e, rw released refl, refl, v)
  | inr pressed ↦ elim (Bool-cases (before y margin_t)) [
    | inl over ↦ (e, rw (pressed, over) refl, refl, v)
    | inr under ↦ elim (Bool-cases (leb (length e.lines) (row_at e y))) [
      | inl beyond ↦ (e, rw (pressed, under, beyond) refl, refl, v)
      | inr within ↦
          let (l, here) = lt-get_elem? e.lines (row_at e y) (ground arith) in
          (
            record e { cursor_line = row_at e y; cursor_col = min (col_at e x) (length l) },
            rw (pressed, under, within, here) refl,
            refl,
            record { line = l; here = here; col_le = omega arith; plain = v.plain },
          )
    ]
  ]
]

-- After a drawing, the first line shown does not come after the cursor's, so the distance between them
-- does not wrap around; and the cursor's line is shown where the window has room for a line.
pub scrolled-cursor :
    (e : TextEditor) (h : ℕ)
    → e.cursor_line < length e.lines
    → ((scrolled e h).scroll_line ≤ e.cursor_line)
      × ((max_lines h ≡ 0) ⊎ (e.cursor_line < (scrolled e h).scroll_line + max_lines h))
unfolding scrolled
scrolled-cursor e h inside = (
  omega arith,
  elim (Bool-cases (max_lines h == 0)) [
    | inl no_room ↦ inl (ground arith)
    | inr room ↦ inr (let p : 1 ≤ max_lines h = ground arith in omega arith)
  ],
)
