-- ===== src/Rpfs/Volume/Search.antt =====
-- The search for the first entry that passes a test.
use rusty_penguin.Base.{
  ℕ, zero, suc, ◌+◌, ◌≤◌, ◌<◌, ◌≡◌, refl, ap, sym, subst, ◌∙◌, Bool, true, false, none, some, ◌==◌,
  ==_iff, ne→==, arith, inl, inr, Bool-cases, ℕ_discrete,
}
use rusty_penguin.Rpfs.Volume.{first_entry}

module _ (n i : ℕ) (test : ℕ → Bool) where
  hit : test i ≡ true → first_entry (suc n) i test ≡ some i
  unfolding first_entry
  hit passes = rw (passes, first_entry)

  missed : test i ≡ false → first_entry (suc n) i test ≡ first_entry n (i + 1) test
  unfolding first_entry
  missed fails = rw (fails, first_entry)

-- The search returns the place where a test that passes at one place only does.
pub first_entry-only :
    (n i p : ℕ) (test : ℕ → Bool)
    → ((j : ℕ) → i ≤ j → j < i + n → test j ≡ (j == p))
    → i ≤ p
    → p < i + n
    → first_entry n i test ≡ some p
unfolding first_entry
first_entry-only zero i p test only lo hi = absurd (omega arith)
first_entry-only (suc n) i p test only lo hi = elim (ℕ_discrete i p) [
  | yes here ↦
      let passes : test i ≡ true = only i (omega arith) (omega arith) ∙ (==_iff i p).1 here in
      hit n i test passes ∙ ap some here
  | no later ↦
      let fails : test i ≡ false = only i (omega arith) (omega arith) ∙ ne→== i p later in
      missed n i test fails
      ∙ first_entry-only n (i + 1) p test (λ j a b. only j (omega arith) (omega arith))
          (omega arith) (omega arith)
]

pub first_entry-none :
    (n i : ℕ) (test : ℕ → Bool)
    → first_entry n i test ≡ none
    → (j : ℕ) → i ≤ j
    → j < i + n
    → test j ≡ false
unfolding first_entry
first_entry-none zero i test e j lo hi = absurd (omega arith)
first_entry-none (suc n) i test e j lo hi = elim (Bool-cases (test i)) [
  | inl passes ↦ cc (sym (hit n i test passes) ∙ e)
  | inr fails ↦ elim (ℕ_discrete j i) [
    | yes here ↦ rw here fails
    | no later ↦
        let rest : first_entry n (i + 1) test ≡ none = sym (missed n i test fails) ∙ e in
        first_entry-none n (i + 1) test rest j (omega arith) (omega arith)
  ]
]

-- What is found lies in range and passes the test.
pub first_entry-some :
    (n i : ℕ) (test : ℕ → Bool) (p : ℕ)
    → first_entry n i test ≡ some p
    → (i ≤ p) × (p < i + n) × (test p ≡ true)
unfolding first_entry
first_entry-some zero i test p e = cc
first_entry-some (suc n) i test p e = elim (Bool-cases (test i)) [
  | inl passes ↦
      let here : i ≡ p = cc (sym (hit n i test passes) ∙ e) in
      (omega arith, omega arith, subst (λ t. test t ≡ true) here passes)
  | inr fails ↦
      let (lo, hi, ok) = first_entry-some n (i + 1) test p (sym (missed n i test fails) ∙ e) in
      (omega arith, omega arith, ok)
]

-- Nothing passes: the search fails.
pub first_entry-never :
    (n i : ℕ) (test : ℕ → Bool)
    → ((j : ℕ) → i ≤ j → j < i + n → test j ≡ false)
    → first_entry n i test ≡ none
unfolding first_entry
first_entry-never zero i test never = refl
first_entry-never (suc n) i test never =
    missed n i test (never i (omega arith) (omega arith))
    ∙ first_entry-never n (i + 1) test (λ j lo hi. never j (omega arith) (omega arith))

-- Nothing before what is found passes, and the first that passes is found.
pub first_entry-before :
    (n i : ℕ) (test : ℕ → Bool) (p : ℕ)
    → first_entry n i test ≡ some p
    → (j : ℕ) → i ≤ j
    → j < p
    → test j ≡ false
unfolding first_entry
first_entry-before zero i test p e j lo hi = cc
first_entry-before (suc n) i test p e j lo hi = elim (Bool-cases (test i)) [
  | inl passes ↦ let here : i ≡ p = cc (sym (hit n i test passes) ∙ e) in absurd (omega arith)
  | inr fails ↦ elim (ℕ_discrete j i) [
    | yes here ↦ rw here fails
    | no later ↦
        first_entry-before n (i + 1) test p (sym (missed n i test fails) ∙ e) j (omega arith) hi
  ]
]

pub first_entry-first :
    (n i p : ℕ) (test : ℕ → Bool)
    → ((j : ℕ) → i ≤ j → j < p → test j ≡ false)
    → i ≤ p
    → p < i + n
    → test p ≡ true
    → first_entry n i test ≡ some p
unfolding first_entry
first_entry-first zero i p test before lo hi ok = absurd (omega arith)
first_entry-first (suc n) i p test before lo hi ok = elim (ℕ_discrete i p) [
  | yes here ↦ hit n i test (ap test here ∙ ok) ∙ ap some here
  | no later ↦
      missed n i test (before i (omega arith) (omega arith))
      ∙ first_entry-first n (i + 1) p test (λ j a b. before j (omega arith) b) (omega arith)
          (omega arith) ok
]
