-- ===== src/Desktop/Editor/Safe.antt =====
-- No key makes the editor panic.
use rusty_penguin.Base.{
  ℕ, zero, suc, ◌+◌, ◌-◌, ◌<◌, ◌≡◌, refl, ◌∙◌, [], ◌∷◌, ◌++◌, true, ◌&&◌, ◌||◌, Option, none, some,
  if◌then◌else◌, ◌==◌, ltb, leb, length, get_elem?, set, take, drop, arith, Bool-cases, inl, inr,
  ltb→lt, lt→ltb, le→leb, length-set, length-append,
}
use rusty_penguin.Base.Edits.{
  insert_at, erase_at, all-get_elem?, all-append, all-take, all-drop, all-set, all-insert_at,
  all-erase_at, length-insert_at, length-erase_at, get_elem?-insert_at_self, get_elem?-erase_at_lt,
  lt-get_elem?,
}
use rusty_penguin.Desktop.Ansi.{Key, nothing, char, up, down, left, right, home, end, delete}
use rusty_penguin.Desktop.Editor.{
  Text, TextEditor, current, with_line, touched, touch, clamp_cursor, break_line, type_char,
  on_backspace, type_spaces, tab_width, paste_char, paste, on_paste, on_char, on_key, insert_line,
  remove_line,
}
use rusty_penguin.Desktop.Editor.Ascii.{
  ascii_byte, ascii, insert_char-ascii, remove_char-ascii, slice_from-ascii, truncate-ascii,
}
use rusty_penguin.Desktop.Editor.Cursor.{
  Inside, Valid, Fine, Fine-some, bind-Fine, if-Fine, line-ascii, row-lt, set-Inside,
  clamp_cursor-Fine, lines-pos, on_up-Fine, on_down-Fine, on_right-Fine, on_left-Fine, on_end-Fine,
  on_delete-Fine,
}

-- What the line feed leaves.
pub break_line-value :
    (e : TextEditor) (v : Valid e)
    → break_line e
      ≡ some (record e {
        lines =
            insert_at
              (set e.lines e.cursor_line (take e.cursor_col v.line))
              (e.cursor_line + 1)
              (drop e.cursor_col v.line);
        cursor_line = e.cursor_line + 1;
        cursor_col = 0;
      })
unfolding break_line current insert_line
break_line-value e v =
    let text = line-ascii e.lines e.cursor_line e.cursor_col v in
    let lt = row-lt e.lines e.cursor_line e.cursor_col v in
    let le = v.col_le in
    let fits : leb (e.cursor_line + 1)
          (length (set e.lines e.cursor_line (take e.cursor_col v.line)))
        ≡ true =
      le→leb (e.cursor_line + 1) _
        (omega (arith, length-set e.lines e.cursor_line (take e.cursor_col v.line))) in
    rw
      (
        v.here,
        slice_from-ascii v.line e.cursor_col text le,
        truncate-ascii v.line e.cursor_col text le,
        fits,
      )
      refl

pub break_line-Inside :
    (e : TextEditor) (v : Valid e)
    → Inside
        (insert_at
          (set e.lines e.cursor_line (take e.cursor_col v.line))
          (e.cursor_line + 1)
          (drop e.cursor_col v.line))
        (e.cursor_line + 1)
        0
break_line-Inside e v =
    let text = line-ascii e.lines e.cursor_line e.cursor_col v in
    let head = take e.cursor_col v.line in
    let tail = drop e.cursor_col v.line in
    let lt = row-lt e.lines e.cursor_line e.cursor_col v in
    record {
      line = tail;
      here =
          get_elem?-insert_at_self (set e.lines e.cursor_line head) (e.cursor_line + 1) tail
            (omega (arith, length-set e.lines e.cursor_line head));
      col_le = omega arith;
      plain =
          all-insert_at ascii (set e.lines e.cursor_line head) (e.cursor_line + 1) tail
            (all-set ascii e.lines e.cursor_line head v.plain
              (all-take ascii_byte e.cursor_col v.line text))
            (all-drop ascii_byte e.cursor_col v.line text);
    }

break_line-Fine : (e : TextEditor) → Valid e → Fine (break_line e)
break_line-Fine e v = rw (break_line-value e v) (Fine-some _ (break_line-Inside e v))

-- What a character leaves.
pub type_char-value :
    (c : ℕ) (e : TextEditor) (v : Valid e)
    → type_char c e
      ≡ some (record e {
        lines = set e.lines e.cursor_line (insert_at v.line e.cursor_col c);
        cursor_col = e.cursor_col + 1;
      })
unfolding type_char current with_line
type_char-value c e v =
    rw
      (
        v.here,
        insert_char-ascii v.line e.cursor_col c (line-ascii e.lines e.cursor_line e.cursor_col v)
            v.col_le,
      )
      refl

type_char-Fine : (c : ℕ) (e : TextEditor) → c < 128 → Valid e → Fine (type_char c e)
type_char-Fine c e low v =
    let le = v.col_le in
    rw (type_char-value c e v) (
      Fine-some _ (
        set-Inside e.lines e.cursor_line e.cursor_col (e.cursor_col + 1)
          (insert_at v.line e.cursor_col c) v
          (all-insert_at ascii_byte v.line e.cursor_col c
            (line-ascii e.lines e.cursor_line e.cursor_col v) (lt→ltb c 128 low))
          (omega (arith, length-insert_at v.line e.cursor_col c))))

type_spaces-Fine : (n : ℕ) (e : TextEditor) → Valid e → Fine (type_spaces n e)
unfolding type_spaces
type_spaces-Fine zero e v = Fine-some e v
type_spaces-Fine (suc n) e v =
    bind-Fine (type_char 32 e) (type_spaces n) (type_char-Fine 32 e (omega arith) v)
      (type_spaces-Fine n)

on_backspace-Fine : (e : TextEditor) → Valid e → Fine (on_backspace e)
unfolding on_backspace current with_line remove_line
on_backspace-Fine e v = elim (Bool-cases (ltb 0 e.cursor_col)) [
  | inl more ↦
      let lt = ltb→lt 0 e.cursor_col more in
      let le = v.col_le in
      let text = line-ascii e.lines e.cursor_line e.cursor_col v in
      rw (more, v.here, remove_char-ascii v.line (e.cursor_col - 1) text (omega arith))
        (Fine-some _ (
          set-Inside e.lines e.cursor_line e.cursor_col (e.cursor_col - 1)
            (erase_at v.line (e.cursor_col - 1)) v
            (all-erase_at ascii_byte v.line (e.cursor_col - 1) text)
            (omega (arith, length-erase_at v.line (e.cursor_col - 1) (omega arith)))))
  | inr first ↦ rw first (elim (Bool-cases (ltb 0 e.cursor_line)) [
    | inl above ↦
        let lt = ltb→lt 0 e.cursor_line above in
        let (l, there) =
          lt-get_elem? e.lines (e.cursor_line - 1)
            (omega (arith, row-lt e.lines e.cursor_line e.cursor_col v)) in
        let stays : get_elem? (erase_at e.lines e.cursor_line) (e.cursor_line - 1) ≡ some l =
          get_elem?-erase_at_lt e.lines e.cursor_line (e.cursor_line - 1) (omega arith) ∙ there in
        rw (above, v.here, stays)
          (Fine-some _ (
            set-Inside (erase_at e.lines e.cursor_line) (e.cursor_line - 1) 0 (length l)
              (l ++ v.line)
              (record {
                line = l;
                here = stays;
                col_le = omega arith;
                plain = all-erase_at ascii e.lines e.cursor_line v.plain;
              })
              (all-append ascii_byte l v.line
                (all-get_elem? ascii e.lines (e.cursor_line - 1) l v.plain there)
                (line-ascii e.lines e.cursor_line e.cursor_col v))
              (omega (arith, length-append l v.line))))
    | inr top ↦ rw top (Fine-some e v)
  ])
]

paste_char-Fine : (c : ℕ) (e : TextEditor) → Valid e → Fine (paste_char c e)
unfolding paste_char
paste_char-Fine c e v =
    if-Fine (c == 10) (break_line e) (if leb 32 c && ltb c 127 then type_char c e else some e)
      (λ h. break_line-Fine e v)
      (λ h.
        if-Fine (leb 32 c && ltb c 127) (type_char c e) (some e)
          (λ h'. type_char-Fine c e (ground arith) v) (λ h'. Fine-some e v))

paste-Fine : (text : Text) (e : TextEditor) → Valid e → Fine (paste text e)
unfolding paste
paste-Fine [] e v = Fine-some e v
paste-Fine (c ∷ cs) e v =
    bind-Fine (paste_char c e) (paste cs) (paste_char-Fine c e v) (paste-Fine cs)

on_paste-Fine : (clipboard : Option Text) (e : TextEditor) → Valid e → Fine (on_paste clipboard e)
unfolding on_paste
on_paste-Fine none e v = Fine-some e v
on_paste-Fine (some text) e v =
    bind-Fine (paste text e) (λ e'. clamp_cursor (touched e')) (paste-Fine text e v)
      (λ e' v'. clamp_cursor-Fine (touched e') (lines-pos e' v') v'.plain)

touch-Fine : (r : Option TextEditor) → Fine r → Fine (touch r)
touch-Fine r h = bind-Fine r (λ e. some (touched e)) h (λ e v. Fine-some (touched e) v)

on_char-Fine :
    (clipboard : Option Text) (c : ℕ) (e : TextEditor) → Valid e → Fine (on_char clipboard c e)
unfolding on_char
on_char-Fine clipboard c e v = elim (Bool-cases (c == 22)) [
  | inl paste_key ↦ rw paste_key (on_paste-Fine clipboard e v)
  | inr h1 ↦ rw h1 (elim (Bool-cases ((c == 10) || (c == 13))) [
    | inl enter ↦ rw enter (touch-Fine (break_line e) (break_line-Fine e v))
    | inr h2 ↦ rw h2 (elim (Bool-cases ((c == 8) || (c == 127))) [
      | inl back ↦ rw back (on_backspace-Fine e v)
      | inr h3 ↦ rw h3 (elim (Bool-cases (c == 9)) [
        | inl tab ↦ rw tab (touch-Fine (type_spaces tab_width e) (type_spaces-Fine tab_width e v))
        | inr h4 ↦ rw h4 (
            if-Fine (leb 32 c && leb c 126) (touch (type_char c e)) (some e)
              (λ h. touch-Fine (type_char c e) (type_char-Fine c e (ground arith) v))
              (λ h. Fine-some e v))
      ])
    ])
  ])
]

pub on_key-Fine :
    (clipboard : Option Text) (k : Key) (e : TextEditor) → Valid e → Fine (on_key clipboard k e)
unfolding on_key
on_key-Fine clipboard nothing e v = Fine-some e v
on_key-Fine clipboard up e v = on_up-Fine e v
on_key-Fine clipboard down e v = on_down-Fine e v
on_key-Fine clipboard right e v = on_right-Fine e v
on_key-Fine clipboard left e v = on_left-Fine e v
on_key-Fine clipboard home e v =
    Fine-some _ (record { line = v.line; here = v.here; col_le = omega arith; plain = v.plain })
on_key-Fine clipboard end e v = on_end-Fine e v
on_key-Fine clipboard delete e v = on_delete-Fine e v
on_key-Fine clipboard (char c) e v = on_char-Fine clipboard c e v
