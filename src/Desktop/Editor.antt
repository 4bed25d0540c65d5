-- ===== src/Desktop/Editor.antt =====
-- desktop-metal/src/editor.rs: the text editor, without its drawing, and desktop-metal/src/clipboard.rs.
-- A string is the list of its bytes in UTF-8; where a method of String or Vec panics, the result is `none`.
pub mod Ascii
pub mod Cursor
pub mod Safe
pub mod Keys
pub mod Undo
pub mod Digits
pub mod Screen
pub mod Files
mod Tests
use rusty_penguin.Base.{
  ℕ, zero, suc, ◌+◌, ◌-◌, ◌*◌, ◌/◌, ◌%◌, min, max, List, [], ◌∷◌, ◌++◌, Bool, true, false, not,
  ◌&&◌, ◌||◌, Option, none, some, if◌then◌else◌, ◌==◌, ltb, leb, length, get_elem?, get_or, set,
  take, drop, ◌>>=◌,
}
use rusty_penguin.Base.Int.{ℤ, pos, negsuc}
use rusty_penguin.Base.Edits.{insert_at, erase_at}
use rusty_penguin.Desktop.Ansi.{
  Key, nothing, char, up, down, left, right, home, end, delete, AnsiParser, new_parser, feed,
}

abbrev pub Text : Type 0
Text = List ℕ

-- `String`: the places where a character starts, and the end.
unfoldable pub is_boundary : Text → ℕ → Bool
is_boundary s i =
    (i == 0)
    || (if leb (length s) i
        then i == length s
        else (ltb (get_or s i 0) 128 || leb 192 (get_or s i 0)))

-- The bytes of a character, by its first one.
unfoldable pub width : ℕ → ℕ
width b = if ltb b 128 then 1 else if ltb b 224 then 2 else if ltb b 240 then 3 else 4

unfoldable pub erase_run : Text → ℕ → ℕ → Text
erase_run s i zero = s
erase_run s i (suc w) = erase_run (erase_at s i) i w

unfoldable pub insert_char : Text → ℕ → ℕ → Option Text
insert_char s i c = if is_boundary s i then some (insert_at s i c) else none

unfoldable pub remove_char : Text → ℕ → Option Text
remove_char s i =
    if is_boundary s i && ltb i (length s)
    then some (erase_run s i (width (get_or s i 0)))
    else none

unfoldable pub slice_from : Text → ℕ → Option Text
slice_from s i = if is_boundary s i then some (drop i s) else none

unfoldable pub truncate : Text → ℕ → Option Text
truncate s i =
    if leb i (length s) then (if is_boundary s i then some (take i s) else none) else some s

-- `Vec`
unfoldable pub insert_line : List Text → ℕ → Text → Option (List Text)
insert_line lines i l = if leb i (length lines) then some (insert_at lines i l) else none

unfoldable pub remove_line : List Text → ℕ → Option (Text × List Text)
remove_line lines i = get_elem? lines i >>= λ l. some (l, erase_at lines i)

abbrev pub tab_width : ℕ
tab_width = 4

abbrev pub line_h : ℕ
line_h = 14

abbrev pub char_w : ℕ
char_w = 8

abbrev pub margin_l : ℕ
margin_l = 8

abbrev pub margin_t : ℕ
margin_t = 8

pub record TextEditor : Type 0 where
  pub lines : List Text
  pub cursor_line : ℕ
  pub cursor_col : ℕ
  pub scroll_line : ℕ
  pub filename : Text
  pub dirty : Bool
  pub wants_close : Bool
  pub ansi : AnsiParser

unfoldable pub new_file : Text → TextEditor
new_file filename = record {
  lines = [] ∷ [];
  cursor_line = 0;
  cursor_col = 0;
  scroll_line = 0;
  filename = filename;
  dirty = false;
  wants_close = false;
  ansi = new_parser;
}

unfoldable pub current : TextEditor → Option Text
current e = get_elem? e.lines e.cursor_line

unfoldable pub with_line : TextEditor → Text → TextEditor
with_line e l = record e { lines = set e.lines e.cursor_line l }

-- A line past the end is the last one; the vector is never empty, so no subtraction wraps.
unfoldable pub clamp_cursor : TextEditor → Option TextEditor
clamp_cursor e =
    let row = if leb (length e.lines) e.cursor_line then length e.lines - 1 else e.cursor_line in
    get_elem? e.lines row >>= λ l.
    some (record e { cursor_line = row; cursor_col = min e.cursor_col (length l) })

unfoldable pub on_up : TextEditor → Option TextEditor
on_up e =
    if ltb 0 e.cursor_line
    then clamp_cursor (record e { cursor_line = e.cursor_line - 1 })
    else some e

unfoldable pub on_down : TextEditor → Option TextEditor
on_down e =
    if ltb (e.cursor_line + 1) (length e.lines)
    then clamp_cursor (record e { cursor_line = e.cursor_line + 1 })
    else some e

unfoldable pub on_right : TextEditor → Option TextEditor
on_right e = current e >>= λ l. some (
    if ltb e.cursor_col (length l)
    then record e { cursor_col = e.cursor_col + 1 }
    else if ltb (e.cursor_line + 1) (length e.lines)
    then record e { cursor_line = e.cursor_line + 1; cursor_col = 0 }
    else e)

unfoldable pub on_left : TextEditor → Option TextEditor
on_left e =
    if ltb 0 e.cursor_col
    then some (record e { cursor_col = e.cursor_col - 1 })
    else if ltb 0 e.cursor_line
    then (get_elem? e.lines (e.cursor_line - 1) >>= λ l.
        some (record e { cursor_line = e.cursor_line - 1; cursor_col = length l }))
    else some e

unfoldable pub on_end : TextEditor → Option TextEditor
on_end e = current e >>= λ l. some (record e { cursor_col = length l })

unfoldable pub on_delete : TextEditor → Option TextEditor
on_delete e = current e >>= λ l.
    if ltb e.cursor_col (length l)
    then (remove_char l e.cursor_col >>= λ l'. some (record (with_line e l') { dirty = true }))
    else if ltb (e.cursor_line + 1) (length e.lines)
    then (remove_line e.lines (e.cursor_line + 1) >>= λ t.
        some (record e { lines = set t.1 e.cursor_line (l ++ t.0); dirty = true }))
    else some e

-- The line is cut at the cursor.
unfoldable pub break_line : TextEditor → Option TextEditor
break_line e = current e >>= λ l. slice_from l e.cursor_col >>= λ tail.
    truncate l e.cursor_col >>= λ head.
    insert_line (set e.lines e.cursor_line head) (e.cursor_line + 1) tail >>= λ lines.
    some (record e { lines = lines; cursor_line = e.cursor_line + 1; cursor_col = 0 })

unfoldable pub type_char : ℕ → TextEditor → Option TextEditor
type_char c e = current e >>= λ l. insert_char l e.cursor_col c >>= λ l'.
    some (record (with_line e l') { cursor_col = e.cursor_col + 1 })

abbrev pub touched : TextEditor → TextEditor
touched e = record e { dirty = true }

unfoldable pub on_backspace : TextEditor → Option TextEditor
on_backspace e =
    if ltb 0 e.cursor_col
    then (current e >>= λ l. remove_char l (e.cursor_col - 1) >>= λ l'.
        some (record (with_line e l') { cursor_col = e.cursor_col - 1; dirty = true }))
    else if ltb 0 e.cursor_line
    then (remove_line e.lines e.cursor_line >>= λ t. get_elem? t.1 (e.cursor_line - 1) >>= λ l.
        some (record e {
          lines = set t.1 (e.cursor_line - 1) (l ++ t.0);
          cursor_line = e.cursor_line - 1;
          cursor_col = length l;
          dirty = true;
        }))
    else some e

unfoldable pub type_spaces : ℕ → TextEditor → Option TextEditor
type_spaces zero e = some e
type_spaces (suc n) e = type_char 32 e >>= type_spaces n

-- A line feed breaks the line and a printable ASCII character is typed. No other character is, so its
-- bytes, which are all 128 or more, can be passed over one by one.
unfoldable pub paste_char : ℕ → TextEditor → Option TextEditor
paste_char c e =
    if c == 10 then break_line e else if leb 32 c && ltb c 127 then type_char c e else some e

unfoldable pub paste : Text → TextEditor → Option TextEditor
paste [] e = some e
paste (c ∷ cs) e = paste_char c e >>= paste cs

-- Ctrl+V
unfoldable pub on_paste : Option Text → TextEditor → Option TextEditor
on_paste none e = some e
on_paste (some text) e = paste text e >>= λ e'. clamp_cursor (touched e')

abbrev pub touch : Option TextEditor → Option TextEditor
touch r = r >>= λ e. some (touched e)

unfoldable pub on_char : Option Text → ℕ → TextEditor → Option TextEditor
on_char clipboard c e =
    if c == 22
    then on_paste clipboard e
    else if (c == 10) || (c == 13)
    then touch (break_line e)
    else if (c == 8) || (c == 127)
    then on_backspace e
    else if c == 9
    then touch (type_spaces tab_width e)
    else if leb 32 c && leb c 126
    then touch (type_char c e)
    else some e

unfoldable pub on_key : Option Text → Key → TextEditor → Option TextEditor
on_key clipboard nothing e = some e
on_key clipboard up e = on_up e
on_key clipboard down e = on_down e
on_key clipboard right e = on_right e
on_key clipboard left e = on_left e
on_key clipboard home e = some (record e { cursor_col = 0 })
on_key clipboard end e = on_end e
on_key clipboard delete e = on_delete e
on_key clipboard (char c) e = on_char clipboard c e

-- What the clipboard holds after the key: Ctrl+C copies the line at hand.
unfoldable pub copied : Option Text → Key → TextEditor → Option (Option Text)
copied clipboard (char c) e = if c == 3 then (current e >>= λ l. some (some l)) else some clipboard
copied clipboard nothing e = some clipboard
copied clipboard up e = some clipboard
copied clipboard down e = some clipboard
copied clipboard right e = some clipboard
copied clipboard left e = some clipboard
copied clipboard home e = some clipboard
copied clipboard end e = some clipboard
copied clipboard delete e = some clipboard

unfoldable pub send_key : Option Text → TextEditor → ℕ → Option (Option Text × TextEditor)
send_key clipboard e key =
    let fed = feed e.ansi key in
    let e' = record e { ansi = fed.0 } in
    copied clipboard fed.1 e' >>= λ board.
    on_key clipboard fed.1 e' >>= λ e''. clamp_cursor e'' >>= λ last. some (board, last)
