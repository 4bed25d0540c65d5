-- ===== src/Rpfs/Volume/Names.antt =====
-- The directory searched by name.
use mathlib.Core.Path.{fun_ext}
use rusty_penguin.Base.{
  ℕ, zero, suc, ◌+◌, ◌^◌, ◌≤◌, ◌<◌, ◌≡◌, refl, ◌≢◌, ap, sym, ◌∙◌, List, true, false, ◌&&◌, none,
  some, if◌then◌else◌, ◌==◌, ==_refl, ne→==, arith, inl, inr, Bool-cases, ℕ_discrete,
}
use rusty_penguin.Base.Int.{ℤ, pos, negsuc}
use rusty_penguin.Base.Texts.{name_eq, name_eq_refl, name_eq_ne}
use rusty_penguin.Rpfs.Layout.{Bytes, dir_entries, max_name}
use rusty_penguin.Rpfs.Volume.{
  Volume, e_trit, e_name, as_i8, until_nul, Entry, set_entry, first_entry, is_one, is_vacant, holds,
  find,
}
use rusty_penguin.Rpfs.Volume.Search.{first_entry-only, first_entry-none}
use rusty_penguin.Rpfs.Volume.Entries.{IsName, Reads, set_entry_lem, ent-set_ne}

pub until_nul-same :
    (n k : ℕ) (b b' : Bytes)
    → ((j : ℕ) → k ≤ j → j < k + n → b j ≡ b' j)
    → until_nul n k b ≡ until_nul n k b'
unfolding until_nul
until_nul-same zero k b b' same = refl
until_nul-same (suc n) k b b' same = rw (
  same k (omega arith) (omega arith),
  until_nul-same n (k + 1) b b' (λ j lo hi. same j (omega arith) (omega arith)),
)

vacant_fails :
    (dir : Bytes) (name : List ℕ) (i : ℕ)
    → is_vacant (e_trit dir i) ≡ true
    → holds dir name i ≡ false
unfolding holds is_vacant is_one
vacant_fails dir name i h = ap (λ b. b && name_eq (e_name dir i) name) (not_one (e_trit dir i) h)
  where
    not_one : (t : ℤ) → is_vacant t ≡ true → is_one t ≡ false
    not_one (pos n) e = ground arith
    not_one (negsuc n) e = refl

pub holds-set_entry :
    (dir : Bytes) (i : ℕ) (e : Entry) (name : List ℕ) (j : ℕ)
    → Reads (set_entry dir i e) i e
    → e.trit ≡ 1
    → holds (set_entry dir i e) name j ≡ (if j == i then name_eq e.name name else holds dir name j)
unfolding holds is_one as_i8 e_trit e_name
holds-set_entry dir i e name j r t = elim (ℕ_discrete j i) [
  | yes here ↦
      let active : is_one (e_trit (set_entry dir i e) i) ≡ true =
        ap is_one r.trit ∙ ap (λ x. is_one (as_i8 x)) t in
      rw (here, ==_refl i)
        (ap (λ b. b && name_eq (e_name (set_entry dir i e) i) name) active
          ∙ ap (λ xs. name_eq xs name) r.name)
  | no other ↦
      let trit : e_trit (set_entry dir i e) j ≡ e_trit dir j =
        ap as_i8 (ent-set_ne dir i e j 112 other (omega arith)) in
      let same : e_name (set_entry dir i e) j ≡ e_name dir j =
        until_nul-same max_name 0 _ _ (λ k lo hi. ent-set_ne dir i e j k other (omega arith)) in
      rw (ne→== j i other, trit, same)
]

-- An active entry written to a vacant slot under a name that the directory does not hold is what a
-- search for that name returns, and no other search changes. The name has at most 111 bytes, none of
-- them 0, and the numbers fit a `u32`.
pub find-set_entry :
    (v : Volume) (i : ℕ) (e : Entry)
    → i < dir_entries
    → is_vacant (e_trit v.dir i) ≡ true
    → find v e.name ≡ none
    → e.trit ≡ 1
    → IsName e.name
    → e.start < 2 ^ 32
    → e.size < 2 ^ 32
    → e.nblocks < 2 ^ 32
    → (find (record v { dir = set_entry v.dir i e }) e.name ≡ some i)
      × ((name : List ℕ)
          → name ≢ e.name
          → find (record v { dir = set_entry v.dir i e }) name ≡ find v name)
unfolding find
find-set_entry v i e h vacant absent t ok a b c =
    let (reads, _) = set_entry_lem v.dir i e ok a b c in
    (
      first_entry-only dir_entries 0 i (holds (set_entry v.dir i e) e.name)
          (λ j lo hi. holds-set_entry v.dir i e e.name j reads t ∙ mine j hi) (omega arith)
          (omega arith),
      λ name ne.
          ap (first_entry dir_entries 0)
            (fun_ext λ j. holds-set_entry v.dir i e name j reads t ∙ other name ne j),
    )
  where
    mine :
        (j : ℕ)
        → j < 0 + dir_entries
        → (if j == i then name_eq e.name e.name else holds v.dir e.name j) ≡ (j == i)
    mine j hi = elim (Bool-cases (j == i)) [
      | inl same ↦ rw same (name_eq_refl e.name)
      | inr differ ↦
          rw differ (first_entry-none dir_entries 0 (holds v.dir e.name) absent j (omega arith) hi)
    ]

    other :
        (name : List ℕ)
        → name ≢ e.name
        → (j : ℕ)
        → (if j == i then name_eq e.name name else holds v.dir name j) ≡ holds v.dir name j
    other name ne j = elim (ℕ_discrete j i) [
      | yes here ↦
          rw (here, ==_refl i)
            (name_eq_ne e.name name (λ eq. ne (sym eq)) ∙ sym (vacant_fails v.dir name i vacant))
      | no there ↦ rw (ne→== j i there)
    ]
