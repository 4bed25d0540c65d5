-- ===== src/Rpfs/Dirs/Making.antt =====
-- `mkdir` and the parents it makes.
use rusty_penguin.Base.{
  ℕ, zero, suc, ◌+◌, ◌≤◌, ◌<◌, ◌≡◌, refl, ap, sym, subst, ◌∙◌, List, [], ◌∷◌, Bool, true, false,
  not, ◌&&◌, ◌||◌, none, some, if◌then◌else◌, ◌==◌, ltb, length, take, get_or, length-take, arith,
  Option-cases, Bool-cases, inl, inr,
}
use rusty_penguin.Rpfs.Layout.{max_name, dir_entries}
use rusty_penguin.Rpfs.Volume.{find, free_slot, is_vacant, e_trit}
use rusty_penguin.Rpfs.Volume.Entries.{IsName}
use rusty_penguin.Rpfs.Volume.Names.{find-set_entry}
use rusty_penguin.Rpfs.Volume.Search.{first_entry-some}
use rusty_penguin.Rpfs.Device.{BlockDev, Rpfs}
use rusty_penguin.Rpfs.Dirs.{
  dir_entry, enter, make_dir, make_missing, ensure_from, ensure_parents, mkdir,
}

get_or-take :
    (n : ℕ) (xs : List ℕ) (j : ℕ) → j < length (take n xs) → get_or (take n xs) j 0 ≡ get_or xs j 0
get_or-take zero xs j h = absurd (omega arith)
get_or-take (suc n) [] j h = refl
get_or-take (suc n) (x ∷ xs) zero h = refl
get_or-take (suc n) (x ∷ xs) (suc j) h = get_or-take n xs j (omega arith)

pub take-IsName : (n : ℕ) (name : List ℕ) → IsName name → IsName (take n name)
take-IsName n name ok = record {
  fits = let f = ok.fits in omega (arith, length-take n name);
  clean =
      λ j h e. ok.clean j (omega (arith, length-take n name)) (sym (get_or-take n name j h) ∙ e);
}

module _ {Dev : Type 0} (B : BlockDev Dev) where
  -- Every name that `s` holds is still found in the same place.
  abbrev pub Keeps : Rpfs Dev → Rpfs Dev → Type 0
  Keeps s s' = (m : List ℕ) (i : ℕ) → find s.vol m ≡ some i → find s'.vol m ≡ some i

  -- What making a directory returns: success with the name found, or no slot left.
  pub record Made (s : Rpfs Dev) (name : List ℕ) (made : Bool × Rpfs Dev) : Type 0 where
    pub keeps : Keeps s made.1
    pub found : made.0 ≡ true → (i : ℕ) × (find made.1.vol name ≡ some i)
    pub full : made.0 ≡ false → free_slot made.1.vol ≡ none

  entered :
      (s : Rpfs Dev) (name : List ℕ) (slot : ℕ)
      → IsName name
      → find s.vol name ≡ none
      → free_slot s.vol ≡ some slot
      → Made s name (make_dir B s name (some slot))
  unfolding make_dir enter free_slot
  entered s name slot ok absent free =
      let (lo, hi, vacant) =
        first_entry-some dir_entries 0 (λ i. is_vacant (e_trit s.vol.dir i)) slot free in
      let (mine, others) =
        find-set_entry s.vol slot (dir_entry name) (omega arith) vacant absent refl ok (omega arith)
          (omega arith) (omega arith) in
      record {
        keeps = λ m i e. others m (λ same. cc (ap (find s.vol) same)) ∙ e;
        found = λ _. (slot, mine);
        full = λ e. cc;
      }

  make_missing-Made :
      (s : Rpfs Dev) (name : List ℕ)
      → IsName name
      → Made s name (make_missing B s name (find s.vol name))
  unfolding make_missing make_dir
  make_missing-Made s name ok = elim (Option-cases (find s.vol name)) [
    | inl absent ↦
        subst (λ o. Made s name (make_missing B s name o)) (sym absent)
          (elim (Option-cases (free_slot s.vol)) [
            | inl full ↦
                subst (λ o. Made s name (make_dir B s name o)) (sym full)
                  (record { keeps = λ m i e. e; found = λ e. cc; full = λ _. full })
            | inr (slot, free) ↦
                subst (λ o. Made s name (make_dir B s name o)) (sym free)
                  (entered s name slot ok absent free)
          ])
    | inr (i, there) ↦
        subst (λ o. Made s name (make_missing B s name o)) (sym there)
          (record { keeps = λ m j e. e; found = λ _. (i, there); full = λ e. cc })
  ]

  ensure_from-Keeps :
      (name : List ℕ) (cut : ℕ) (rest : List ℕ) (s : Rpfs Dev)
      → IsName name
      → Keeps s (ensure_from B name cut rest s)
  unfolding ensure_from
  ensure_from-Keeps name cut [] s ok m i e = e
  ensure_from-Keeps name cut (c ∷ rest) s ok m i e =
      ensure_from-Keeps name (cut + 1) rest _ ok m i (elim (Bool-cases ((c == 47) && ltb 0 cut)) [
        | inl slash ↦
            subst (λ b. find (step b).vol m ≡ some i) (sym slash)
              ((make_missing-Made s (take cut name) (take-IsName cut name ok)).keeps m i e)
        | inr other ↦ subst (λ b. find (step b).vol m ≡ some i) (sym other) e
      ])
    where
      step : Bool → Rpfs Dev
      step b = if b then (make_missing B s (take cut name) (find s.vol (take cut name))).1 else s

  passes :
      (s : Rpfs Dev) (name : List ℕ)
      → s.vol.ready ≡ true
      → IsName name
      → 1 ≤ length name
      → mkdir B s name
        ≡ make_missing B (ensure_parents B s name) name (find (ensure_parents B s name).vol name)
  unfolding mkdir
  passes s name r ok h =
      ap
        (λ b.
          if not b || ((length name == 0) || ltb max_name (length name)) then (false, s) else made)
        r
      ∙ ap (λ b. if b then (false, s) else made) legal
    where
      made : Bool × Rpfs Dev
      made = make_missing B (ensure_parents B s name) name (find (ensure_parents B s name).vol name)

      legal : ((length name == 0) || ltb max_name (length name)) ≡ false
      legal = let f = ok.fits in ground arith

  -- On a mounted volume and a name of 1 to 111 bytes, none of them 0, `mkdir` on any device returns
  -- true only with the name in the directory, and false only with no slot left. Either way every name
  -- that was in the directory is still found in its place.
  pub mkdir_lem :
      (s : Rpfs Dev) (name : List ℕ)
      → s.vol.ready ≡ true
      → IsName name
      → 1 ≤ length name
      → Made s name (mkdir B s name)
  unfolding ensure_parents
  mkdir_lem s name r ok h =
      let p = ensure_parents B s name in
      let made = make_missing-Made p name ok in
      subst (Made s name) (sym (passes s name r ok h)) (record {
        keeps = λ m i e. made.keeps m i (ensure_from-Keeps name 0 name s ok m i e);
        found = made.found;
        full = made.full;
      })
