-- ===== src/Desktop/Editor/Keys.antt =====
-- What every key leaves, and what the clipboard then holds.
use rusty_penguin.Base.{ℕ, ◌≡◌, refl, Option, none, some, ◌==◌, ◌>>=◌, Bool-cases, inl, inr}
use rusty_penguin.Desktop.Ansi.{Key, nothing, char, up, down, left, right, home, end, delete, feed}
use rusty_penguin.Desktop.Editor.{Text, TextEditor, current, clamp_cursor, on_key, copied, send_key}
use rusty_penguin.Desktop.Editor.Cursor.{Valid, bind-Fine, clamp_cursor-Fine, lines-pos}
use rusty_penguin.Desktop.Editor.Safe.{on_key-Fine}

copied-some :
    (clipboard : Option Text) (k : Key) (e : TextEditor)
    → Valid e
    → (board : Option Text) × (copied clipboard k e ≡ some board)
unfolding copied current
copied-some clipboard nothing e v = (clipboard, refl)
copied-some clipboard (char c) e v = elim (Bool-cases (c == 3)) [
  | inl copy ↦ (some v.line, rw (copy, v.here) refl)
  | inr other ↦ (clipboard, rw other refl)
]
copied-some clipboard up e v = (clipboard, refl)
copied-some clipboard down e v = (clipboard, refl)
copied-some clipboard left e v = (clipboard, refl)
copied-some clipboard right e v = (clipboard, refl)
copied-some clipboard home e v = (clipboard, refl)
copied-some clipboard end e v = (clipboard, refl)
copied-some clipboard delete e v = (clipboard, refl)

abbrev pub sent : Option Text → TextEditor → Option (Option Text × TextEditor)
sent board last = some (board, last)

-- What the clipboard holds goes along.
lifted :
    (board : Option Text) (last : TextEditor) (r : Option TextEditor)
    → (r >>= clamp_cursor) ≡ some last
    → (r >>= λ e. clamp_cursor e >>= sent board) ≡ sent board last
lifted board last none e = cc
lifted board last (some e') e = rw e refl

-- While the text is ASCII and the cursor is in it, no key makes the editor panic, whatever the
-- clipboard holds and whatever escape sequence is on its way; the text stays ASCII, with a line at
-- least, and the cursor stays in it.
pub send_key-Valid :
    (clipboard : Option Text) (e : TextEditor) (key : ℕ)
    → Valid e
    → (board : Option Text) × (e' : TextEditor) × (send_key clipboard e key ≡ some (board, e'))
      × Valid e'
unfolding send_key
send_key-Valid clipboard e key v =
    let fed = feed e.ansi key in
    let e' : TextEditor = record e { ansi = fed.0 } in
    let (board, kept) = copied-some clipboard fed.1 e' v in
    let done =
      bind-Fine (on_key clipboard fed.1 e') clamp_cursor (on_key-Fine clipboard fed.1 e' v)
        (λ e'' v''. clamp_cursor-Fine e'' (lines-pos e'' v'') v''.plain) in
    (
      board,
      done.after,
      rw kept (lifted board done.after (on_key clipboard fed.1 e') done.returns),
      done.valid,
    )
