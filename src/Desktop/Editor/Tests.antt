-- ===== src/Desktop/Editor/Tests.antt =====
-- The editor on a text of two lines.
use rusty_penguin.Base.{
  inl, inr, ◌+◌, ◌*◌, ◌≤◌, ◌<◌, ◌≡◌, ◌≢◌, ap, ◌⊎◌, refl, List, [], ◌∷◌, Bool, true, false, Option,
  none, some, length, ◌>>=◌, arith,
}
use rusty_penguin.Base.Int.{pos}
use rusty_penguin.Base.Edits.{all}
use rusty_penguin.Desktop.Ansi.{new_parser}
use rusty_penguin.Desktop.Editor.{
  Text, TextEditor, is_boundary, insert_char, current, touched, on_right, type_char, send_key,
  char_w,
}
use rusty_penguin.Base.Texts.{is_utf8, is_utf8_after}
use rusty_penguin.Desktop.Vfs.{Vfs}
use rusty_penguin.Desktop.Editor.Files.{keeps_end, join, ends_full, new, save, new-save}
use rusty_penguin.Desktop.Editor.Cursor.{Valid}
use rusty_penguin.Desktop.Editor.Keys.{send_key-Valid}
use rusty_penguin.Desktop.Editor.Undo.{send_key-type_backspace, send_key-enter_backspace}
use rusty_penguin.Desktop.Editor.Digits.{
  fmt_u32, gutter_width, value, is_digit, fmt_u32-value, gutter_width-fmt_u32,
}
use rusty_penguin.Desktop.Editor.Screen.{
  on_mouse, on_mouse-Valid, scrolled, max_lines, scrolled-cursor,
}

-- "ab" and "c", with the cursor after the 'a'.
abbrev editor : TextEditor
editor = record {
  lines = (97 ∷ 98 ∷ []) ∷ (99 ∷ []) ∷ [];
  cursor_line = 0;
  cursor_col = 1;
  scroll_line = 0;
  filename = 102 ∷ [];
  dirty = false;
  wants_close = false;
  ansi = new_parser;
}

editor-Valid : Valid editor
editor-Valid = record { line = 97 ∷ 98 ∷ []; here = refl; col_le = omega arith; plain = refl }

send_key-Valid_example :
    (board : Option Text) × (e' : TextEditor) × (send_key none editor 127 ≡ some (board, e'))
    × Valid e'
send_key-Valid_example = send_key-Valid none editor 127 editor-Valid

send_key-type_backspace_case :
    (send_key none editor 122 >>= λ r. send_key r.0 r.1 127) ≡ some (none, touched editor)
send_key-type_backspace_case =
    send_key-type_backspace none editor 122 127 editor-Valid refl (omega arith) (omega arith)
      (inr refl)

send_key-enter_backspace_example :
    (send_key none editor 10 >>= λ r. send_key r.0 r.1 8) ≡ some (none, touched editor)
send_key-enter_backspace_example =
    send_key-enter_backspace none editor 8 editor-Valid refl (inl refl)

fmt_u32-value_example :
    (length (fmt_u32 4096) ≤ 10)
    × (all is_digit (fmt_u32 4096) ≡ true)
    × (value 0 (fmt_u32 4096) ≡ 4096)
fmt_u32-value_example = fmt_u32-value 4096 (omega arith)

gutter_width-fmt_u32_case : length (fmt_u32 87) * char_w + char_w ≤ gutter_width 1000
gutter_width-fmt_u32_case = gutter_width-fmt_u32 1000 87 (omega arith)

on_mouse-Valid_case :
    (e' : TextEditor) × (on_mouse editor (pos 60) (pos 25) 1 ≡ some e')
    × (e'.lines ≡ editor.lines)
    × Valid e'
on_mouse-Valid_case = on_mouse-Valid editor (pos 60) (pos 25) 1 editor-Valid

scrolled-cursor_case :
    ((scrolled editor 100).scroll_line ≤ 0)
    × ((max_lines 100 ≡ 0) ⊎ (0 < (scrolled editor 100).scroll_line + max_lines 100))
scrolled-cursor_case = scrolled-cursor editor 100 (omega arith)

abbrev start : Vfs Text
start = record { entries = []; persist_on = false; disk = [] }

new-save_example :
    new
      (save {Disk = Text} (λ d n b. (true, b)) (λ d n size. none) start editor).0.entries
      (102 ∷ [])
    ≡ record editor { cursor_col = 0 }
unfolding ends_full join is_utf8 is_utf8_after keeps_end
new-save_example =
    new-save {Disk = Text} (λ d n b. (true, b)) (λ d n size. none) start editor some_lines refl refl
      refl
  where
    has_line : List Text → Bool
    has_line [] = false
    has_line (l ∷ ls) = true

    some_lines : editor.lines ≢ []
    some_lines e = let same : true ≡ false = ap has_line e in cc

-- "é" in UTF-8: after the right arrow the cursor is inside the character, and a key that is typed there
-- is a panic.
abbrev accented : TextEditor
accented = record editor { lines = (195 ∷ 169 ∷ []) ∷ []; cursor_col = 0 }

accented_panics : (on_right accented >>= type_char 97) ≡ none
unfolding on_right current type_char insert_char is_boundary
accented_panics = refl
