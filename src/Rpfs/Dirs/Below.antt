-- ===== src/Rpfs/Dirs/Below.antt =====
-- What lies below a directory: the test of the code against the shape of a path.
use rusty_penguin.Base.{
  ℕ, zero, suc, ◌<◌, ◌≡◌, refl, ap, sym, ◌∙◌, List, [], ◌∷◌, ◌++◌, true, ◌&&◌, ◌||◌, ◌==◌, ==_iff,
  ltb, arith, length, length-append, take, drop, get_or, take-append-drop, Bool-cases, and_parts,
  inl, inr, lt→ltb, ℕ_discrete, or_true,
}
use rusty_penguin.Base.Texts.{name_eq, name_eq_refl, name_eq_sound}
use rusty_penguin.Rpfs.Layout.{Bytes}
use rusty_penguin.Rpfs.Volume.{e_trit, e_name, is_one}
use rusty_penguin.Rpfs.Dirs.{is_child, has_child}

-- Slot `j` is active, and its name is that of the directory, a slash and `rest`.
abbrev pub Below : Bytes → List ℕ → ℕ → List ℕ → Type 0
Below dir name j rest = (is_one (e_trit dir j) ≡ true) × (e_name dir j ≡ name ++ 47 ∷ rest)

drop-slash :
    (n : ℕ) (cn : List ℕ) → (get_or cn n 0 == 47) ≡ true → (rest : List ℕ) × (drop n cn ≡ 47 ∷ rest)
drop-slash n [] h = absurd (ground arith)
drop-slash zero (c ∷ cs) h = (cs, ap (◌∷ cs) ((==_iff c 47).0 h))
drop-slash (suc n) (c ∷ cs) h = drop-slash n cs h

is_child-path :
    (name cn : List ℕ) → is_child name cn ≡ true → (rest : List ℕ) × (cn ≡ name ++ 47 ∷ rest)
unfolding is_child
is_child-path name cn h =
    let p = and_parts (ltb (length name) (length cn)) _ h in
    let q = and_parts (name_eq (take (length name) cn) name) _ p.1 in
    let (rest, behind) = drop-slash (length name) cn q.1 in
    let front = name_eq_sound (take (length name) cn) name q.0 in
    (
      rest,
      sym (take-append-drop (length name) cn)
          ∙ ap (λ xs. xs ++ drop (length name) cn) front
          ∙ ap (name ++◌) behind,
    )

take-name : (name ys : List ℕ) → take (length name) (name ++ ys) ≡ name
take-name [] ys = refl
take-name (x ∷ xs) ys = ap (x ∷◌) (take-name xs ys)

get_or-name : (name ys : List ℕ) → get_or (name ++ 47 ∷ ys) (length name) 0 ≡ 47
get_or-name [] ys = refl
get_or-name (x ∷ xs) ys = get_or-name xs ys

path-is_child : (name rest : List ℕ) → is_child name (name ++ 47 ∷ rest) ≡ true
unfolding is_child
path-is_child name rest =
    rw
      (
        lt→ltb (length name) (length (name ++ 47 ∷ rest))
            (omega (arith, length-append name (47 ∷ rest))),
        take-name name (47 ∷ rest),
        name_eq_refl name,
        get_or-name name rest,
      )
      refl

pub has_child-Below :
    (n : ℕ) (dir : Bytes) (name : List ℕ)
    → has_child n dir name ≡ true
    → (j : ℕ) × (rest : List ℕ) × (j < n) × Below dir name j rest
unfolding has_child
has_child-Below zero dir name h = cc
has_child-Below (suc n) dir name h = elim (Bool-cases (has_child n dir name)) [
  | inl before ↦
      let (j, rest, lt, below) = has_child-Below n dir name before in (j, rest, omega arith, below)
  | inr after ↦
      let here : (is_one (e_trit dir n) && is_child name (e_name dir n)) ≡ true =
        sym (ap (λ b. b || (is_one (e_trit dir n) && is_child name (e_name dir n))) after) ∙ h in
      let p = and_parts (is_one (e_trit dir n)) _ here in
      let (rest, path) = is_child-path name (e_name dir n) p.1 in
      (n, rest, omega arith, (p.0, path))
]

pub Below-has_child :
    (n : ℕ) (dir : Bytes) (name : List ℕ) (j : ℕ) (rest : List ℕ)
    → j < n
    → Below dir name j rest
    → has_child n dir name ≡ true
unfolding has_child
Below-has_child zero dir name j rest h below = absurd (omega arith)
Below-has_child (suc n) dir name j rest h below = elim (ℕ_discrete j n) [
  | yes last ↦
      let child : is_child name (e_name dir j) ≡ true =
        ap (is_child name) below.1 ∙ path-is_child name rest in
      let here : (is_one (e_trit dir n) && is_child name (e_name dir n)) ≡ true =
        rw (sym last, below.0) child in
      rw here (or_true (has_child n dir name))
  | no other ↦ rw (Below-has_child n dir name j rest (omega arith) below) refl
]
