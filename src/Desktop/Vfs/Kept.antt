-- ===== src/Desktop/Vfs/Kept.antt =====
-- The names that the mirror keeps stay so under a write.
use rusty_penguin.Base.{
  and_parts, not-false, or_true, ◌≡◌, ◌≢◌, refl, ap, sym, ◌∙◌, List, [], ◌∷◌, true, false, not,
  ◌&&◌, ltb, leb, length, Bool-cases, inl, inr, arith,
}
use rusty_penguin.Base.Edits.{all, all-parts}
use rusty_penguin.Base.Texts.{name_eq, name_eq_refl, name_eq_sound, listed}
use rusty_penguin.Desktop.Vfs.{
  Bytes, VfsEntry, manifest, max_name, is_empty, is_file, write_mem, persistable, manifest_bytes,
  listing,
}
use rusty_penguin.Desktop.Vfs.Names.{no_feed, no_feeds, kept}

-- What a name that the mirror keeps is.
pub record Kept (name : Bytes) : Type 0 where
  pub not_empty : is_empty name ≡ false
  pub short : ltb max_name (length name) ≡ false
  pub other : manifest ≢ name

pub persistable-Kept : (name : Bytes) → persistable name ≡ true → Kept name
unfolding persistable
persistable-Kept name h =
    let p = and_parts (not (is_empty name)) _ h in
    let q = and_parts (leb (length name) max_name) _ p.1 in
    record {
      not_empty = not-false (is_empty name) p.0;
      short = let le = q.0 in ground arith;
      other = λ same. cc (
          sym (name_eq_refl manifest)
          ∙ sym (ap (λ n. name_eq n manifest) (sym same))
          ∙ not-false _ q.1);
    }

pub listed-kept_write_mem :
    (es : List VfsEntry) (name bytes : Bytes)
    → persistable name ≡ true
    → listed name (kept (write_mem es name bytes)) ≡ true
unfolding listed kept write_mem
listed-kept_write_mem [] name bytes h = rw (h, name_eq_refl name) refl
listed-kept_write_mem (e ∷ es) name bytes h = elim (Bool-cases (is_file e name)) [
  | inl here ↦
      let p = and_parts (name_eq e.name name) (not e.is_dir) here in
      let named = name_eq_sound e.name name p.0 in rw (here, p.1, named, h, name_eq_refl name) refl
  | inr away ↦
      let rest = listed-kept_write_mem es name bytes h in
      rw away (elim (Bool-cases (not e.is_dir && persistable e.name)) [
        | inr skip ↦ rw skip rest
        | inl keep ↦ rw (keep, rest) (or_true (name_eq e.name name))
      ])
]

pub no_feeds-write_mem :
    (es : List VfsEntry) (name bytes : Bytes)
    → no_feeds es ≡ true
    → all no_feed name ≡ true
    → no_feeds (write_mem es name bytes) ≡ true
unfolding write_mem
no_feeds-write_mem [] name bytes h h' = rw h' refl
no_feeds-write_mem (e ∷ es) name bytes h h' =
    let p = all-parts (λ e. all no_feed e.name) e es h in
    elim (Bool-cases (is_file e name)) [
      | inl here ↦ rw (here, p.0) p.1
      | inr away ↦ rw (away, p.0) (no_feeds-write_mem es name bytes p.1 h')
    ]

pub manifest_bytes-not_empty : (es : List VfsEntry) → is_empty (manifest_bytes es) ≡ false
unfolding manifest_bytes
manifest_bytes-not_empty es = elim (Bool-cases (is_empty (listing es))) [
  | inl nothing ↦ rw nothing refl
  | inr something ↦ rw (something, something) refl
]
