-- ===== src/Rpfs/Dirs/Deleting.antt =====
-- `delete_file`: the tombstone and the blocks given back.
use mathlib.Core.Path.{fun_ext}
use rusty_penguin.Base.{
  ℕ, ◌+◌, ◌*◌, ◌^◌, ◌<◌, ◌≡◌, refl, ◌≢◌, ap, sym, ◌∙◌, ◌⊎◌, List, Bool, true, false, not, ◌&&◌,
  none, some, if◌then◌else◌, ◌==◌, ==_iff, ==_refl, ne→==, ltb, leb, arith, Bool-cases, ℕ_discrete,
  inl, inr,
}
use rusty_penguin.Base.Texts.{name_eq_sound}
use rusty_penguin.Rpfs.Layout.{Bytes, entry_sz, dir_entries, max_name, k_dir}
use rusty_penguin.Rpfs.Volume.{
  Volume, ent, e_trit, e_name, e_kind, e_start, e_nblocks, as_i8, is_one, store, holds, find,
  free_run, bit_get, first_entry,
}
use rusty_penguin.Rpfs.Volume.Alloc.{free_run_lem}
use rusty_penguin.Rpfs.Volume.Names.{until_nul-same}
use rusty_penguin.Rpfs.Volume.Search.{first_entry-some, first_entry-never}
use rusty_penguin.Rpfs.Device.{BlockDev, Rpfs}
use rusty_penguin.Rpfs.Dirs.Below.{Below, has_child-Below, Below-has_child}
use rusty_penguin.Rpfs.Dirs.{has_child, bury, release, delete_found, delete_file}

-- No name is held twice.
abbrev pub Distinct : Bytes → Type 0
Distinct dir =
    (name : List ℕ) (i j : ℕ)
    → i < dir_entries
    → j < dir_entries
    → holds dir name i ≡ true
    → holds dir name j ≡ true
    → i ≡ j

abbrev buried : Bytes → ℕ → Bytes
buried dir i = store dir (i * entry_sz + 112) 255

holds-buried :
    (dir : Bytes) (i : ℕ) (name : List ℕ) (j : ℕ)
    → holds (buried dir i) name j ≡ (if j == i then false else holds dir name j)
unfolding holds e_trit e_name store is_one as_i8
holds-buried dir i name j = elim (ℕ_discrete j i) [
  | yes here ↦ rw (here, ==_refl i, ==_refl (i * entry_sz + 112))
  | no other ↦
      let trit : e_trit (buried dir i) j ≡ e_trit dir j =
        ap as_i8 (untouched j 112 (λ e. other (omega arith))) in
      let same : e_name (buried dir i) j ≡ e_name dir j =
        until_nul-same max_name 0 _ _ (λ k lo hi. untouched j k (λ e. omega arith)) in
      rw (ne→== j i other, trit, same)
]
  where
    untouched :
        (j k : ℕ) → j * entry_sz + k ≢ i * entry_sz + 112 → ent (buried dir i) j k ≡ ent dir j k
    untouched j k ne = rw (ne→== (j * entry_sz + k) (i * entry_sz + 112) ne)

module _ (v : Volume) (name : List ℕ) (i : ℕ) where
  holder : find v name ≡ some i → (i < dir_entries) × (holds v.dir name i ≡ true)
  unfolding find
  holder there =
      let (lo, hi, ok) = first_entry-some dir_entries 0 (holds v.dir name) i there in
      (omega arith, ok)

  gone :
      (w : Volume)
      → w.dir ≡ buried v.dir i
      → Distinct v.dir
      → find v name ≡ some i
      → find w name ≡ none
  unfolding find
  gone w e distinct there =
      ap (λ d. first_entry dir_entries 0 (holds d name)) e
      ∙ first_entry-never dir_entries 0 (holds (buried v.dir i) name)
          (λ j lo hi. holds-buried v.dir i name j ∙ never j hi)
    where
      never : (j : ℕ) → j < 0 + dir_entries → (if j == i then false else holds v.dir name j) ≡ false
      never j hi = elim (Bool-cases (j == i)) [
        | inl same ↦ rw same
        | inr other ↦ rw other (elim (Bool-cases (holds v.dir name j)) [
          | inl held ↦
              let (low, mine) = holder there in
              let same = distinct name j i (omega arith) low held mine in
              cc ((==_iff j i).1 same, other)
          | inr free ↦ free
        ])
      ]

  others_stay :
      (w : Volume)
      → w.dir ≡ buried v.dir i
      → find v name ≡ some i
      → (m : List ℕ) → m ≢ name
      → find w m ≡ find v m
  unfolding find holds
  others_stay w e there m ne =
      ap (λ d. first_entry dir_entries 0 (holds d m)) e
      ∙ ap (first_entry dir_entries 0) (fun_ext λ j. holds-buried v.dir i m j ∙ stays j)
    where
      and_right : (a b : Bool) → (a && b) ≡ true → b ≡ true
      and_right a b h = ground arith

      stays : (j : ℕ) → (if j == i then false else holds v.dir m j) ≡ holds v.dir m j
      stays j = elim (ℕ_discrete j i) [
        | yes here ↦
            rw (here, ==_refl i)
              (elim (Bool-cases (holds v.dir m i)) [
                | inl held ↦ absurd (
                    ne (
                      sym (name_eq_sound (e_name v.dir i) m (and_right _ _ held))
                      ∙ name_eq_sound (e_name v.dir i) name (and_right _ _ (holder there).1)))
                | inr free ↦ sym free
              ])
        | no there' ↦ rw (ne→== j i there')
      ]

module _ {Dev : Type 0} (B : BlockDev Dev) (s : Rpfs Dev) (name : List ℕ) (i : ℕ) where
  -- The entry `i` of `name` is removed, which leaves `s'`. A directory had nothing below it, and has no
  -- blocks to free.
  pub record Removed (s' : Rpfs Dev) : Type 0 where
    pub absent : find s'.vol name ≡ none
    pub others : (m : List ℕ) → m ≢ name → find s'.vol m ≡ find s.vol m
    pub lone :
        e_kind s.vol.dir i ≡ k_dir
        → (j : ℕ) (rest : List ℕ) → j < dir_entries
        → ¬ Below s.vol.dir name j rest
    pub kept : e_kind s.vol.dir i ≡ k_dir → s'.vol.bitmap ≡ s.vol.bitmap
    pub freed :
        e_kind s.vol.dir i ≢ k_dir
        → e_start s.vol.dir i + e_nblocks s.vol.dir i < 2 ^ 32
        → (b : ℕ)
        → bit_get s'.vol.bitmap b ≡ (
            if (leb (e_start s.vol.dir i) b && ltb b (e_start s.vol.dir i + e_nblocks s.vol.dir i))
              && ltb b s.vol.total_blocks
            then false
            else bit_get s.vol.bitmap b)

  abbrev whole_dir : Bool × Rpfs Dev
  whole_dir = if has_child dir_entries s.vol.dir name then (false, s) else (true, bury B s i)

  found_run :
      s.vol.ready ≡ true
      → find s.vol name ≡ some i
      → delete_file B s name
        ≡ (if e_kind s.vol.dir i == k_dir then whole_dir else (true, bury B (release B s i) i))
  unfolding delete_file delete_found
  found_run r there =
      ap (λ b. if not b then (false, s) else delete_found B s name (find s.vol name)) r
      ∙ ap (delete_found B s name) there

  -- On a mounted volume that holds no name twice, `delete_file` on any device either refuses the name,
  -- changing nothing: then it is a directory and an active entry lies below it. Or it removes the name:
  -- then it is a file, or a directory with no active entry below it; it is no longer found, while every
  -- other search is unchanged, a directory leaves the bitmap as it was, and for a file whose extent's end
  -- fits a `u32` exactly the blocks of the extent are freed.
  pub delete_file_lem :
      s.vol.ready ≡ true
      → Distinct s.vol.dir
      → find s.vol name ≡ some i
      → ((e_kind s.vol.dir i ≡ k_dir)
          × ((j : ℕ) × (rest : List ℕ) × (j < dir_entries) × Below s.vol.dir name j rest)
          × (delete_file B s name ≡ (false, s)))
        ⊎ ((s' : Rpfs Dev) × (delete_file B s name ≡ (true, s')) × Removed s')
  unfolding bury release free_run
  delete_file_lem r distinct there = elim (ℕ_discrete (e_kind s.vol.dir i) k_dir) [
    | yes dir ↦
        let here =
          found_run r there
          ∙ ap (λ b. if b then whole_dir else (true, bury B (release B s i) i))
              ((==_iff (e_kind s.vol.dir i) k_dir).1 dir) in
        elim (Bool-cases (has_child dir_entries s.vol.dir name)) [
          | inl child ↦ inl (
            dir,
            has_child-Below dir_entries s.vol.dir name child,
            here ∙ ap (λ b. if b then (false, s) else (true, bury B s i)) child,
          )
          | inr alone ↦ inr (
            bury B s i,
            here ∙ ap (λ b. if b then (false, s) else (true, bury B s i)) alone,
            record {
              absent = gone s.vol name i _ refl distinct there;
              others = others_stay s.vol name i _ refl there;
              lone = λ _ j rest low below.
                  cc (Below-has_child dir_entries s.vol.dir name j rest low below, alone);
              kept = λ _. refl;
              freed = λ file. absurd (file dir);
            },
          )
        ]
    | no file ↦ inr (
      bury B (release B s i) i,
      found_run r there
          ∙ ap (λ b. if b then whole_dir else (true, bury B (release B s i) i))
              (ne→== (e_kind s.vol.dir i) k_dir file),
      record {
        absent = gone s.vol name i _ refl distinct there;
        others = others_stay s.vol name i _ refl there;
        lone = λ dir. absurd (file dir);
        kept = λ dir. absurd (file dir);
        freed =
            λ _ small b. free_run_lem s.vol (e_start s.vol.dir i) (e_nblocks s.vol.dir i) small b;
      },
    )
  ]
