-- ===== src/Desktop/Vfs/Names.antt =====
-- The manifest, written and read back.
use rusty_penguin.Base.{
  and_parts, not-false, ℕ, ◌≡◌, refl, ap, sym, ◌∙◌, List, [], ◌∷◌, ◌++◌, Bool, true, false, not,
  ◌&&◌, if◌then◌else◌, ◌==◌, Bool-cases, inl, inr,
}
use rusty_penguin.Base.Edits.{all, all-parts, append_nil, append_one}
use rusty_penguin.Desktop.Vfs.{
  Bytes, VfsEntry, is_empty, persistable, listing, manifest_bytes, split_names,
}

abbrev pub no_feed : ℕ → Bool
no_feed c = not (c == 10)

-- The names of the files that the mirror keeps.
unfoldable pub kept : List VfsEntry → List Bytes
kept [] = []
kept (e ∷ es) =
    let rest = kept es in if not e.is_dir && persistable e.name then e.name ∷ rest else rest

-- No name has a line feed in it.
abbrev pub no_feeds : List VfsEntry → Bool
no_feeds = all (λ e. all no_feed e.name)

-- A name up to its line feed.
split_names-word :
    (w : ℕ) (ws name rest : Bytes)
    → all no_feed name ≡ true
    → split_names (w ∷ ws) (name ++ 10 ∷ rest) ≡ ((w ∷ ws) ++ name) ∷ split_names [] rest
unfolding split_names
split_names-word w ws [] rest h = ap (λ xs. (w ∷ xs) ∷ split_names [] rest) (sym (append_nil ws))
split_names-word w ws (c ∷ cs) rest h =
    let p = all-parts no_feed c cs h in
    let other : (c == 10) ≡ false = not-false (c == 10) p.0 in
    rw other (
      split_names-word w (ws ++ c ∷ []) cs rest p.1
      ∙ ap (λ xs. (w ∷ xs) ∷ split_names [] rest) (append_one ws c cs))

split_names-name :
    (name rest : Bytes)
    → all no_feed name ≡ true
    → is_empty name ≡ false
    → split_names [] (name ++ 10 ∷ rest) ≡ name ∷ split_names [] rest
unfolding split_names
split_names-name [] rest h ne = cc
split_names-name (c ∷ cs) rest h ne =
    let p = all-parts no_feed c cs h in
    elim (Bool-cases (c == 10)) [
      | inl feed ↦ cc (sym (ap not feed) ∙ p.0)
      | inr other ↦ rw other (split_names-word c [] cs rest p.1)
    ]

pub persistable-not_empty : (name : Bytes) → persistable name ≡ true → is_empty name ≡ false
unfolding persistable
persistable-not_empty [] h = cc
persistable-not_empty (c ∷ cs) h = refl

split_names-listing :
    (es : List VfsEntry) → no_feeds es ≡ true → split_names [] (listing es) ≡ kept es
unfolding split_names listing kept
split_names-listing [] h = refl
split_names-listing (e ∷ es) h =
    let p = all-parts (λ e. all no_feed e.name) e es h in
    elim (Bool-cases (not e.is_dir && persistable e.name)) [
      | inl keep ↦ rw keep (
          split_names-name e.name (listing es) p.0
            (persistable-not_empty e.name (and_parts _ _ keep).1)
          ∙ ap (e.name ∷◌) (split_names-listing es p.1))
      | inr skip ↦ rw skip (split_names-listing es p.1)
    ]

-- When no name has a line feed in it, the manifest that is written, cut at its line feeds, gives the
-- names of the files that the mirror keeps, in their order, and none if there is no such file.
pub split_names-manifest_bytes :
    (es : List VfsEntry) → no_feeds es ≡ true → split_names [] (manifest_bytes es) ≡ kept es
unfolding manifest_bytes split_names
split_names-manifest_bytes es h = elim (Bool-cases (is_empty (listing es))) [
  | inl nothing ↦ rw nothing (
      alone
      ∙ ap (split_names []) (sym (is_empty-nil (listing es) nothing))
      ∙ split_names-listing es h)
  | inr some_name ↦ rw some_name (split_names-listing es h)
]
  where
    is_empty-nil : (bs : Bytes) → is_empty bs ≡ true → bs ≡ []
    is_empty-nil [] e = refl
    is_empty-nil (b ∷ bs) e = cc

    alone : split_names [] (10 ∷ []) ≡ split_names [] []
    alone = refl
