-- ===== src/Rpfs/Files/Parents.antt =====
-- `write_file` of a name whose parent directory is not there.
use rusty_penguin.Base.{
  ℕ, ◌+◌, ◌^◌, ◌≤◌, ◌<◌, ◌≡◌, refl, ◌≢◌, ap, sym, subst, ◌∙◌, List, [], ◌∷◌, ◌++◌, Bool, true,
  false, not, ◌&&◌, ◌||◌, Option, none, some, if◌then◌else◌, ◌==◌, ne→==, ltb, length,
  length-append, take, arith, Bool-cases, inl, inr,
}
use rusty_penguin.Base.Texts.{name_eq_ne}
use rusty_penguin.Rpfs.Layout.{Bytes, dir_entries, max_name, max_file}
use rusty_penguin.Rpfs.Volume.{
  Volume, Entry, set_entry, find, free_slot, holds, first_entry, is_vacant, e_trit,
}
use rusty_penguin.Rpfs.Volume.Alloc.{alloc_run_lem}
use rusty_penguin.Rpfs.Volume.Entries.{IsName, Reads, set_entry_lem}
use rusty_penguin.Rpfs.Volume.Names.{holds-set_entry}
use rusty_penguin.Rpfs.Volume.Search.{first_entry-none, first_entry-never}
use rusty_penguin.Rpfs.Device.{BlockDev, Rpfs}
use rusty_penguin.Rpfs.Dirs.{dir_entry, enter, make_dir, make_missing, ensure_from, ensure_parents}
use rusty_penguin.Rpfs.Dirs.Making.{take-IsName}
use rusty_penguin.Rpfs.Files.{
  file_entry, blocks_of, write_chunks, commit, write_extent, allocate, write_at, write_new,
  write_found, write_file,
}
use rusty_penguin.Rpfs.Files.Writing.{write_chunks-dir}

-- A path component: no slash in it.
abbrev pub Plain : List ℕ → Type 0
Plain [] = Unit {0}
Plain (x ∷ xs) = (x ≢ 47) × Plain xs

take-append : (xs ys : List ℕ) → take (length xs) (xs ++ ys) ≡ xs
take-append [] ys = refl
take-append (x ∷ xs) ys = rw (take-append xs ys)

module _ {Dev : Type 0} (B : BlockDev Dev) where
  -- Bytes that are no slash are passed over.
  pass_over :
      (name : List ℕ) (cut : ℕ) (xs rest : List ℕ) (s : Rpfs Dev)
      → Plain xs
      → ensure_from B name cut (xs ++ rest) s ≡ ensure_from B name (cut + length xs) rest s
  unfolding ensure_from
  pass_over name cut [] rest s p = ap (λ k. ensure_from B name k rest s) (omega arith)
  pass_over name cut (x ∷ xs) rest s (ne, p) =
      ap (λ b. ensure_from B name (cut + 1) (xs ++ rest) (step b)) (ne→== x 47 ne)
      ∙ pass_over name (cut + 1) xs rest s p
      ∙ ap (λ k. ensure_from B name k rest s) (omega arith)
    where
      step : Bool → Rpfs Dev
      step b =
          if b && ltb 0 cut
          then (make_missing B s (take cut name) (find s.vol (take cut name))).1
          else s

  pass_all :
      (name : List ℕ) (cut : ℕ) (xs : List ℕ) (s : Rpfs Dev)
      → Plain xs
      → ensure_from B name cut xs s ≡ s
  unfolding ensure_from
  pass_all name cut [] s p = refl
  pass_all name cut (x ∷ xs) s (ne, p) =
      ap (λ b. ensure_from B name (cut + 1) xs (step b)) (ne→== x 47 ne)
      ∙ pass_all name (cut + 1) xs s p
    where
      step : Bool → Rpfs Dev
      step b =
          if b && ltb 0 cut
          then (make_missing B s (take cut name) (find s.vol (take cut name))).1
          else s

  module _ (parent child : List ℕ) (slot : ℕ) (plain : Plain parent) (plain' : Plain child)
      (long : 1 ≤ length parent) where
    abbrev whole : List ℕ
    whole = parent ++ 47 ∷ child

    at_slash :
        (cut : ℕ) (s : Rpfs Dev)
        → cut ≡ length parent
        → find s.vol parent ≡ none
        → free_slot s.vol ≡ some slot
        → ensure_from B whole cut (47 ∷ child) s ≡ enter B s slot (dir_entry parent)
    unfolding ensure_from make_missing make_dir
    at_slash cut s e absent free =
        ap (λ b. rest (if b then made (take cut whole) else s)) positive
        ∙ ap (λ k. rest (made (take k whole))) e
        ∙ ap (λ xs. rest (made xs)) (take-append parent (47 ∷ child))
        ∙ ap (λ o. rest (make_missing B s parent o).1) absent
        ∙ ap (λ o. rest (make_dir B s parent o).1) free
        ∙ pass_all whole (cut + 1) child (enter B s slot (dir_entry parent)) plain'
      where
        made : List ℕ → Rpfs Dev
        made xs = (make_missing B s xs (find s.vol xs)).1

        rest : Rpfs Dev → Rpfs Dev
        rest t = ensure_from B whole (cut + 1) child t

        positive : ltb 0 cut ≡ true
        positive = ground arith

    parent_made :
        (s : Rpfs Dev)
        → find s.vol parent ≡ none
        → free_slot s.vol ≡ some slot
        → ensure_parents B s whole ≡ enter B s slot (dir_entry parent)
    unfolding ensure_parents
    parent_made s absent free =
        pass_over whole 0 parent (47 ∷ child) s plain
        ∙ at_slash (0 + length parent) s (omega arith) absent free

    differs : whole ≢ parent
    differs e = omega (arith, ap (λ (xs : List ℕ). length xs) e, length-append parent (47 ∷ child))

    -- The entry of the parent is overwritten.
    overwritten :
        (dir : Bytes) (e : Entry)
        → IsName parent
        → Reads (set_entry (set_entry dir slot (dir_entry parent)) slot e) slot e
        → e.name ≡ whole
        → e.trit ≡ 1
        → ((j : ℕ) → j < dir_entries → holds dir parent j ≡ false)
        → (j : ℕ) → j < dir_entries
        → holds (set_entry (set_entry dir slot (dir_entry parent)) slot e) parent j ≡ false
    overwritten dir e ok reads named active nowhere j hi =
        holds-set_entry _ slot e parent j reads active ∙ (elim (Bool-cases (j == slot)) [
          | inl here ↦ rw here (name_eq_ne e.name parent (λ same. differs (sym named ∙ same)))
          | inr there ↦ rw there (
              holds-set_entry dir slot (dir_entry parent) parent j made refl
              ∙ (rw there (nowhere j hi)))
        ])
      where
        made : Reads (set_entry dir slot (dir_entry parent)) slot (dir_entry parent)
        made =
            (set_entry_lem dir slot (dir_entry parent) ok (omega arith) (omega arith)
              (omega arith)).0

    Gone : Bool × Rpfs Dev → Type 0
    Gone r = r.0 ≡ true → find r.1.vol parent ≡ none

    commit-Gone :
        (start size : ℕ) (r : Bool × Rpfs Dev)
        → IsName parent
        → IsName whole
        → start < 2 ^ 32
        → size ≤ max_file
        → find r.1.vol parent ≡ none
        → free_slot r.1.vol ≡ some slot
        → Gone (commit B whole slot start size (blocks_of size) r)
    unfolding Gone commit find blocks_of enter
    commit-Gone start size (false, s) ok ok' small fits absent free = λ e. cc
    commit-Gone start size (true, s) ok ok' small fits absent free = λ t.
        let e = file_entry whole 1 start size (blocks_of size) in
        let dir = set_entry s.vol.dir slot (dir_entry parent) in
        let reads = (set_entry_lem dir slot e ok' small (omega arith) (omega arith)).0 in
        ap (λ (w : Rpfs Dev). first_entry dir_entries 0 (holds (set_entry w.vol.dir slot e) parent))
          (parent_made s absent free)
        ∙ first_entry-never dir_entries 0 (holds (set_entry dir slot e) parent) (λ j lo hi.
          overwritten s.vol.dir e ok reads refl refl
            (λ k lt.
              first_entry-none dir_entries 0 (holds s.vol.dir parent) absent k (omega arith)
                (omega arith))
            j (omega arith))

    write_at-Gone :
        (s : Rpfs Dev) (bytes : List ℕ)
        → IsName parent
        → IsName whole
        → length bytes ≤ max_file
        → s.vol.total_blocks < 2 ^ 32
        → find s.vol parent ≡ none
        → free_slot s.vol ≡ some slot
        → Gone (write_at B whole bytes s slot)
    unfolding Gone write_at write_extent allocate blocks_of find free_slot
    write_at-Gone s bytes ok ok' fits few absent free = elim (alloc_run_lem s.vol n (omega arith)) [
      | inl (full, _) ↦ subst Good (sym full) (λ e. cc)
      | inr (start, v, found, taken) ↦
          let dir : v.dir ≡ s.vol.dir = ap (λ (w : Volume). w.dir) taken.rest in
          let same = write_chunks-dir B n n start 0 bytes (record s { vol = v }) ∙ dir in
          subst Good (sym found) (
            commit-Gone start (length bytes) (chunks v start) ok ok'
              (let i = taken.inside in omega arith) fits
              (ap (λ d. first_entry dir_entries 0 (holds d parent)) same ∙ absent)
              (ap (λ d. first_entry dir_entries 0 (λ i. is_vacant (e_trit d i))) same ∙ free))
    ]
      where
        n : ℕ
        n = blocks_of (length bytes)

        chunks : Volume → ℕ → Bool × Rpfs Dev
        chunks v start = write_chunks B n n start 0 bytes (record s { vol = v })

        Good : Option ℕ × Volume → Type 0
        Good r = Gone (write_extent B whole bytes slot (r.0, record s { vol = r.1 }))

    -- A write that succeeds of a new name whose only slash comes after a parent that the directory does
    -- not hold leaves the parent out of the directory, although `ensure_parents` entered it: the slot
    -- of the file was chosen before. The volume is mounted and has fewer than 2^32 blocks, a slot is
    -- free, the name has at most 111 bytes, none of them 0, and the data at most 1 MiB.
    pub find-write_file :
        (s : Rpfs Dev) (bytes : List ℕ)
        → s.vol.ready ≡ true
        → s.vol.total_blocks < 2 ^ 32
        → IsName whole
        → length bytes ≤ max_file
        → find s.vol parent ≡ none
        → find s.vol whole ≡ none
        → free_slot s.vol ≡ some slot
        → (write_file B s whole bytes).0 ≡ true
        → find (write_file B s whole bytes).1.vol parent ≡ none
    unfolding Gone write_file write_found write_new
    find-write_file s bytes r few ok fits absent new free =
        subst (λ b. Gone (if b then (false, s) else write_found B whole bytes s (find s.vol whole)))
          (sym legal)
          (subst (λ o. Gone (write_found B whole bytes s o)) (sym new)
            (subst (λ o. Gone (write_new B whole bytes s o)) (sym free)
              (write_at-Gone s bytes parent_ok ok fits few absent free)))
      where
        parent_ok : IsName parent
        parent_ok =
            subst IsName (take-append parent (47 ∷ child)) (take-IsName (length parent) whole ok)

        legal :
            ((not s.vol.ready || (length whole == 0))
              || (ltb max_name (length whole) || ltb max_file (length bytes)))
            ≡ false
        legal =
            ap
              (λ b.
                (not b || (length whole == 0))
                || (ltb max_name (length whole) || ltb max_file (length bytes)))
              r
            ∙ (let f = ok.fits in let l = length-append parent (47 ∷ child) in ground arith)
