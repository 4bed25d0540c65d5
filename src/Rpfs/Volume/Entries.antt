-- ===== src/Rpfs/Volume/Entries.antt =====
-- The directory read entry by entry: what `set_entry` writes and leaves alone.
use mathlib.Core.Path.{fun_ext}
use rusty_penguin.Base.{
  ℕ, zero, suc, ◌+◌, ◌-◌, ◌*◌, ◌/◌, ◌%◌, ◌^◌, ◌≤◌, ◌<◌, ◌≡◌, refl, ◌≢◌, ap, ◌∙◌, List, [], ◌∷◌,
  arith, ne→==, ◌⊎◌, inl, inr, dec_lt, length-take, length, take, get_or,
}
use rusty_penguin.Rpfs.Layout.{Bytes, entry_sz, max_name, put, clear, rd_u32, wr_u32, from}
use rusty_penguin.Rpfs.Volume.{
  store, ent, e_trit, e_kind, e_name, e_start, e_size, e_nblocks, as_i8, until_nul, Entry,
  set_entry,
}

-- Writes at `off + m`, seen from `off`.
over_put :
    (b : Bytes) (off m : ℕ) (xs : List ℕ) {b' : Bytes}
    → from b off ≡ b'
    → from (put b (off + m) xs) off ≡ put b' m xs
unfolding put
over_put b off m xs below = fun_ext (λ k. seen k) ∙ ap (λ b'. put b' m xs) below
  where
    seen : (k : ℕ) → put b (off + m) xs (off + k) ≡ put (from b off) m xs k
    seen k = let e : off + k - (off + m) ≡ k - m = omega arith in rw e (ground arith)

over_put_here :
    (b : Bytes) (off : ℕ) (xs : List ℕ) {b' : Bytes}
    → from b off ≡ b'
    → from (put b off xs) off ≡ put b' 0 xs
over_put_here b off xs below =
    ap (λ t. from (put b t xs) off) (omega arith) ∙ over_put b off 0 xs below

over_store :
    (b : Bytes) (off m x : ℕ) {b' : Bytes}
    → from b off ≡ b'
    → from (store b (off + m) x) off ≡ store b' m x
unfolding store
over_store b off m x below = fun_ext (λ k. seen k) ∙ ap (λ b'. store b' m x) below
  where
    seen : (k : ℕ) → store b (off + m) x (off + k) ≡ store (from b off) m x k
    seen k = ground arith

over_clear : (b : Bytes) (off n : ℕ) → from (clear b off n) off ≡ clear (from b off) 0 n
unfolding clear
over_clear b off n = fun_ext λ k. ground arith

-- The 128 bytes of an entry, written over `old`.
pub image : Bytes → Entry → Bytes
image old e =
    let d1 = clear old 0 entry_sz in
    let d2 = put d1 0 (take max_name e.name) in
    let d3 = store d2 111 e.kind in
    let d4 = store d3 112 e.trit in
    let d5 = wr_u32 d4 116 e.start in let d6 = wr_u32 d5 120 e.size in wr_u32 d6 124 e.nblocks

ent-set_entry : (dir : Bytes) (i : ℕ) (e : Entry) → ent (set_entry dir i e) i ≡ image (ent dir i) e
unfolding set_entry image wr_u32
ent-set_entry dir i e =
    let off = i * entry_sz in
    over_put _ off 124 _ (
      over_put _ off 120 _ (
        over_put _ off 116 _ (
          over_store _ off 112 _
            (over_store _ off 111 _ (over_put_here _ off _ (over_clear dir off entry_sz))))))

-- A name with no zero byte that fits an entry.
pub record IsName (name : List ℕ) : Type 0 where
  pub fits : length name ≤ max_name
  pub clean : (j : ℕ) → j < length name → get_or name j 0 ≢ 0

until_nul_lem :
    (n k : ℕ) (b : Bytes) (xs : List ℕ)
    → length xs ≤ n
    → ((j : ℕ) → j < length xs → get_or xs j 0 ≢ 0)
    → ((j : ℕ) → j < n → b (k + j) ≡ get_or xs j 0)
    → until_nul n k b ≡ xs
unfolding until_nul
until_nul_lem zero k b [] h clean same = refl
until_nul_lem zero k b (x ∷ xs) h clean same = absurd (omega arith)
until_nul_lem (suc n) k b [] h clean same =
    let z : b k ≡ 0 = ap b (omega arith) ∙ same 0 (omega arith) in rw z
until_nul_lem (suc n) k b (x ∷ xs) h clean same =
    let first : b k ≡ x = ap b (omega arith) ∙ same 0 (omega arith) in
    let rest =
      until_nul_lem n (k + 1) b xs (omega arith) (λ j lt. clean (suc j) (omega arith))
        (λ j lt. ap b (omega arith) ∙ same (suc j) (omega arith)) in
    rw (first, ne→== x 0 (clean 0 (omega arith)), rest)

take_all : (n : ℕ) (xs : List ℕ) → length xs ≤ n → take n xs ≡ xs
take_all zero [] h = refl
take_all zero (x ∷ xs) h = absurd (omega arith)
take_all (suc n) [] h = refl
take_all (suc n) (x ∷ xs) h = rw (take_all n xs (omega arith))

get_or-past : (xs : List ℕ) (j : ℕ) → length xs ≤ j → get_or xs j 0 ≡ 0
get_or-past [] j h = refl
get_or-past (x ∷ xs) zero h = absurd (omega arith)
get_or-past (x ∷ xs) (suc j) h = get_or-past xs j (omega arith)

name_byte :
    (old : Bytes) (e : Entry) (j : ℕ)
    → length e.name ≤ max_name
    → j < max_name
    → image old e j ≡ get_or e.name j 0
unfolding image wr_u32 put store clear
name_byte old e j fits h = rw (take_all max_name e.name fits) (ground (arith, get_or-past e.name j))

bytes_of_word :
    (v : ℕ)
    → v < 2 ^ 32
    → v % 2 ^ 8
        + 2 ^ 8 * (v / 2 ^ 8 % 2 ^ 8)
        + 2 ^ 16 * (v / 2 ^ 16 % 2 ^ 8)
        + 2 ^ 24 * (v / 2 ^ 24 % 2 ^ 8)
      ≡ v
bytes_of_word v h = omega arith

-- An entry reads back as it was written.
pub record Reads (dir : Bytes) (i : ℕ) (e : Entry) : Type 0 where
  pub name : e_name dir i ≡ e.name
  pub kind : e_kind dir i ≡ e.kind
  pub trit : e_trit dir i ≡ as_i8 e.trit
  pub start : e_start dir i ≡ e.start
  pub size : e_size dir i ≡ e.size
  pub nblocks : e_nblocks dir i ≡ e.nblocks

written :
    (dir : Bytes) (i : ℕ) (e : Entry)
    → IsName e.name
    → e.start < 2 ^ 32
    → e.size < 2 ^ 32
    → e.nblocks < 2 ^ 32
    → Reads (set_entry dir i e) i e
unfolding e_name e_kind e_trit e_start e_size e_nblocks image wr_u32 put store rd_u32
written dir i e ok a b c =
    let seen = ent-set_entry dir i e in
    record {
      name =
          ap (until_nul max_name 0) seen
          ∙ until_nul_lem max_name 0 (image (ent dir i) e) e.name ok.fits ok.clean (λ j h.
            ap (image (ent dir i) e) {x = 0 + j} {y = j} (omega arith)
            ∙ name_byte (ent dir i) e j ok.fits h);
      kind = ap (λ (t : Bytes). t 111) seen;
      trit = ap (λ (t : Bytes). as_i8 (t 112)) seen;
      start = ap (λ (t : Bytes). rd_u32 t 116) seen ∙ bytes_of_word e.start a;
      size = ap (λ (t : Bytes). rd_u32 t 120) seen ∙ bytes_of_word e.size b;
      nblocks = ap (λ (t : Bytes). rd_u32 t 124) seen ∙ bytes_of_word e.nblocks c;
    }

put_outside :
    (b : Bytes) (off : ℕ) (xs : List ℕ) (k : ℕ)
    → (k < off) ⊎ (off + length xs ≤ k)
    → put b off xs k ≡ b k
unfolding put
put_outside b off xs k (inl below) = ground arith
put_outside b off xs k (inr above) = ground arith

store_outside : (b : Bytes) (off x k : ℕ) → k ≢ off → store b off x k ≡ b k
unfolding store
store_outside b off x k h = ground arith

clear_outside : (b : Bytes) (off n k : ℕ) → (k < off) ⊎ (off + n ≤ k) → clear b off n k ≡ b k
unfolding clear
clear_outside b off n k (inl below) = ground arith
clear_outside b off n k (inr above) = ground arith

-- A byte of another entry lies before or after the 128 bytes of entry `i`.
elsewhere :
    (dir : Bytes) (i : ℕ) (e : Entry) (k : ℕ)
    → (k < i * entry_sz) ⊎ (i * entry_sz + entry_sz ≤ k)
    → set_entry dir i e k ≡ dir k
unfolding set_entry wr_u32
elsewhere dir i e k side =
    let off = i * entry_sz in
    let short = length-take max_name e.name in
    put_outside _ (off + 124) _ k (beside off 124 4 (omega arith) side)
    ∙ put_outside _ (off + 120) _ k (beside off 120 4 (omega arith) side)
    ∙ put_outside _ (off + 116) _ k (beside off 116 4 (omega arith) side)
    ∙ store_outside _ (off + 112) e.trit k (not_at off 112 (omega arith) side)
    ∙ store_outside _ (off + 111) e.kind k (not_at off 111 (omega arith) side)
    ∙ put_outside _ off _ k (beside_name off (length (take max_name e.name)) (omega arith) side)
    ∙ clear_outside dir off entry_sz k side
  where
    beside :
        (off m n : ℕ)
        → m + n ≤ entry_sz
        → (k < off) ⊎ (off + entry_sz ≤ k)
        → (k < off + m) ⊎ (off + m + n ≤ k)
    beside off m n h (inl below) = inl (omega arith)
    beside off m n h (inr above) = inr (omega arith)

    beside_name :
        (off n : ℕ) → n ≤ entry_sz → (k < off) ⊎ (off + entry_sz ≤ k) → (k < off) ⊎ (off + n ≤ k)
    beside_name off n h (inl below) = inl below
    beside_name off n h (inr above) = inr (omega arith)

    not_at : (off m : ℕ) → m < entry_sz → (k < off) ⊎ (off + entry_sz ≤ k) → k ≢ off + m
    not_at off m h (inl below) e = omega arith
    not_at off m h (inr above) e = omega arith

pub ent-set_ne :
    (dir : Bytes) (i : ℕ) (e : Entry) (j k : ℕ)
    → j ≢ i
    → k < entry_sz
    → ent (set_entry dir i e) j k ≡ ent dir j k
ent-set_ne dir i e j k ne h = elsewhere dir i e (j * entry_sz + k) (side (dec_lt j i))
  where
    side :
        Dec (j < i)
        → (j * entry_sz + k < i * entry_sz) ⊎ (i * entry_sz + entry_sz ≤ j * entry_sz + k)
    side (yes lt) = inl (omega arith)
    side (no ge) = inr (omega arith)

-- With a name of at most 111 bytes, none of them 0, and numbers that fit a `u32`, each field of an
-- entry reads back as `set_entry` wrote it, and no byte of another entry changes.
pub set_entry_lem :
    (dir : Bytes) (i : ℕ) (e : Entry)
    → IsName e.name
    → e.start < 2 ^ 32
    → e.size < 2 ^ 32
    → e.nblocks < 2 ^ 32
    → Reads (set_entry dir i e) i e
      × ((j k : ℕ) → j ≢ i → k < entry_sz → ent (set_entry dir i e) j k ≡ ent dir j k)
set_entry_lem dir i e ok a b c = (written dir i e ok a b c, ent-set_ne dir i e)
