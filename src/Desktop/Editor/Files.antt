-- ===== src/Desktop/Editor/Files.antt =====
-- desktop-metal/src/editor.rs: opening and saving, over the filesystem of desktop-metal/src/vfs.rs.
use rusty_penguin.Base.{
  and_parts, not-false, ℕ, ◌≡◌, ◌≢◌, refl, ap, sym, ◌∙◌, List, [], ◌∷◌, ◌++◌, Bool, true, false,
  not, ◌&&◌, Option, none, some, if◌then◌else◌, ◌==◌,
}
use rusty_penguin.Base.Edits.{all, all-parts, append_nil, append_one}
use rusty_penguin.Base.Texts.{is_utf8}
use rusty_penguin.Desktop.Ansi.{new_parser}
use rusty_penguin.Desktop.Vfs.{Vfs, VfsEntry, is_empty, read, write}
use rusty_penguin.Desktop.Vfs.Files.{read-write_mem, write-entries}
use rusty_penguin.Desktop.Editor.{Text, TextEditor}

-- `lines`: each line loses its line feed and a carriage return before it; `word` is what was read of the
-- line at hand.
unfoldable pub strip_return : Text → Text
strip_return [] = []
strip_return (c ∷ []) = if c == 13 then [] else c ∷ []
strip_return (c ∷ d ∷ cs) = c ∷ strip_return (d ∷ cs)

unfoldable pub lines_of : Text → Text → List Text
lines_of word [] = if is_empty word then [] else word ∷ []
lines_of word (c ∷ cs) =
    let next = lines_of [] cs in
    let more = lines_of (word ++ c ∷ []) cs in if c == 10 then strip_return word ∷ next else more

-- `join("\n")`
unfoldable pub join : List Text → Text
join [] = []
join (l ∷ []) = l
join (l ∷ m ∷ ls) = l ++ 10 ∷ join (m ∷ ls)

abbrev pub unwrap_or_empty : Option Text → Text
unwrap_or_empty none = []
unwrap_or_empty (some t) = t

abbrev pub or_one_line : List Text → List Text
or_one_line [] = [] ∷ []
or_one_line (l ∷ ls) = l ∷ ls

unfoldable pub new : List VfsEntry → Text → TextEditor
new entries filename =
    let content = unwrap_or_empty (read entries filename) in
    record {
      lines = or_one_line (lines_of [] (if is_utf8 content then content else []));
      cursor_line = 0;
      cursor_col = 0;
      scroll_line = 0;
      filename = filename;
      dirty = false;
      wants_close = false;
      ansi = new_parser;
    }

-- A line that opening gives back as it was saved: no line feed, and no carriage return at its end.
abbrev pub no_feed : Text → Bool
no_feed = all (λ c. not (c == 10))

unfoldable pub keeps_end : Text → Bool
keeps_end [] = true
keeps_end (c ∷ []) = not (c == 13)
keeps_end (c ∷ d ∷ cs) = keeps_end (d ∷ cs)

abbrev pub savable : Text → Bool
savable l = no_feed l && keeps_end l

-- The last line is not empty.
unfoldable pub ends_full : List Text → Bool
ends_full [] = true
ends_full (l ∷ []) = not (is_empty l)
ends_full (l ∷ m ∷ ls) = ends_full (m ∷ ls)

strip_return-keeps_end : (l : Text) → keeps_end l ≡ true → strip_return l ≡ l
unfolding strip_return keeps_end
strip_return-keeps_end [] h = refl
strip_return-keeps_end (c ∷ []) h = rw (not-false (c == 13) h) refl
strip_return-keeps_end (c ∷ d ∷ cs) h = ap (c ∷◌) (strip_return-keeps_end (d ∷ cs) h)

-- A line up to its line feed, and the last line.
lines_of-line :
    (word l rest : Text)
    → no_feed l ≡ true
    → lines_of word (l ++ 10 ∷ rest) ≡ strip_return (word ++ l) ∷ lines_of [] rest
unfolding lines_of
lines_of-line word [] rest h = ap (λ w. strip_return w ∷ lines_of [] rest) (sym (append_nil word))
lines_of-line word (c ∷ cs) rest h =
    let p = all-parts (λ c. not (c == 10)) c cs h in
    rw (not-false (c == 10) p.0) (
      lines_of-line (word ++ c ∷ []) cs rest p.1
      ∙ ap (λ w. strip_return w ∷ lines_of [] rest) (append_one word c cs))

lines_of-last :
    (word l : Text)
    → no_feed l ≡ true
    → is_empty (word ++ l) ≡ false
    → lines_of word l ≡ (word ++ l) ∷ []
unfolding lines_of
lines_of-last word [] h ne =
    let same = append_nil word in rw (sym (ap is_empty same) ∙ ne) (ap (λ w. w ∷ []) (sym same))
lines_of-last word (c ∷ cs) h ne =
    let p = all-parts (λ c. not (c == 10)) c cs h in
    let same = append_one word c cs in
    rw (not-false (c == 10) p.0)
      (lines_of-last (word ++ c ∷ []) cs p.1 (ap is_empty same ∙ ne) ∙ ap (λ w. w ∷ []) same)

lines_of-join :
    (ls : List Text) → all savable ls ≡ true → ends_full ls ≡ true → lines_of [] (join ls) ≡ ls
unfolding lines_of join ends_full
lines_of-join [] h f = refl
lines_of-join (l ∷ []) h f =
    let p = and_parts (no_feed l) (keeps_end l) (all-parts savable l [] h).0 in
    lines_of-last [] l p.0 (not-false (is_empty l) f)
lines_of-join (l ∷ m ∷ ls) h f =
    let q = all-parts savable l (m ∷ ls) h in
    let p = and_parts (no_feed l) (keeps_end l) q.0 in
    lines_of-line [] l (join (m ∷ ls)) p.0
    ∙ ap (λ w. w ∷ lines_of [] (join (m ∷ ls))) (strip_return-keeps_end l p.1)
    ∙ ap (l ∷◌) (lines_of-join (m ∷ ls) q.1 f)

or_one_line-full : (ls : List Text) → ls ≢ [] → or_one_line ls ≡ ls
or_one_line-full [] ne = absurd (ne refl)
or_one_line-full (l ∷ ls) ne = refl

module _ {Disk : Type 0} (disk_write : Disk → Text → Text → Bool × Disk)
    (disk_read : Disk → Text → ℕ → Option Text) where
  unfoldable pub save : Vfs Disk → TextEditor → Vfs Disk × TextEditor
  save v e = (write disk_write disk_read v e.filename (join e.lines), record e { dirty = false })

  -- A file that is saved and opened again has the lines it was saved with, its cursor at the start and no
  -- change pending, where the lines are UTF-8 and at least one, none has a line feed in it or a carriage
  -- return at its end, and the last is not empty.
  pub new-save :
      (v : Vfs Disk) (e : TextEditor)
      → e.lines ≢ []
      → all savable e.lines ≡ true
      → ends_full e.lines ≡ true
      → is_utf8 (join e.lines) ≡ true
      → new (save v e).0.entries e.filename ≡ record e {
        cursor_line = 0;
        cursor_col = 0;
        scroll_line = 0;
        dirty = false;
        wants_close = false;
        ansi = new_parser;
      }
  unfolding new save
  new-save v e some_line plain full text =
      let on_disk : read (write disk_write disk_read v e.filename (join e.lines)).entries e.filename
          ≡ some (join e.lines) =
        ap (λ es. read es e.filename)
          (write-entries disk_write disk_read v e.filename (join e.lines))
        ∙ read-write_mem v.entries e.filename (join e.lines) in
      rw (on_disk, text, lines_of-join e.lines plain full, or_one_line-full e.lines some_line) refl
