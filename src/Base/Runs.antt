-- ===== src/Base/Runs.antt =====
-- First fit: the scan for a run of free places that the frame allocator and the disk allocator share.
use rusty_penguin.Base.{
  ℕ, zero, suc, ◌+◌, ◌-◌, ◌≤◌, ◌<◌, ◌≡◌, refl, ◌≢◌, sym, ◌∙◌, Bool, true, false, Option, none, some,
  if◌then◌else◌, ◌==◌, ==_iff, ne→==, arith, Bool-cases, inl, inr, ℕ_discrete, dec_lt,
}

-- The `n` places from `a` on are free.
abbrev pub FreeRange : (ℕ → Bool) → ℕ → ℕ → Type 0
FreeRange free a n = (j : ℕ) → a ≤ j → j < a + n → free j ≡ true

-- The first run of `n` places that are free, looking at the `left` places from `place` on: `run` places
-- right below `place` are free, from `start` on.
unfoldable pub first_run : ℕ → (ℕ → Bool) → ℕ → ℕ → ℕ → ℕ → Option ℕ
first_run n free zero place start run = none
first_run n free (suc left) place start run =
    let start' = if run == 0 then place else start in
    elim (free place) [
      | true ↦ elim (run + 1 == n) [
        | true ↦ some start'
        | false ↦ first_run n free left (place + 1) start' (run + 1)
      ]
      | false ↦ first_run n free left (place + 1) start 0
    ]

module _ (n : ℕ) (free : ℕ → Bool) where
  -- The run seen so far stands right below `place`, and is shorter than `n`.
  pub record Scanning (place start run : ℕ) : Type 0 where
    pub shorter : run < n
    pub fits : run ≤ place
    pub starts : run ≢ 0 → start + run ≡ place
    pub seen : FreeRange free (place - run) run

  grown :
      {place start run : ℕ}
      → Scanning place start run
      → free place ≡ true
      → FreeRange free (place - run) (run + 1)
  grown {place} {start} {run} g now j lo hi = elim (ℕ_discrete j place) [
    | yes here ↦ rw here now
    | no below ↦ g.seen j lo (let f = g.fits in omega arith)
  ]

  start_of :
      {place start run : ℕ}
      → Scanning place start run
      → (if run == 0 then place else start) ≡ place - run
  start_of {place} {start} {run} g = elim (ℕ_discrete run 0) [
    | yes fresh ↦ rw ((==_iff run 0).1 fresh) (omega arith)
    | no old ↦ rw (ne→== run 0 old) (let e = g.starts old in omega arith)
  ]

  step_free :
      {place start run : ℕ}
      → Scanning place start run
      → free place ≡ true
      → run + 1 ≢ n
      → Scanning (place + 1) (if run == 0 then place else start) (run + 1)
  step_free {place} {start} {run} g now more = record {
    shorter = let h = g.shorter in omega arith;
    fits = let h = g.fits in omega arith;
    starts = λ _. rw (start_of g) (let h = g.fits in omega arith);
    seen = let e : place + 1 - (run + 1) ≡ place - run = omega arith in rw e (grown g now);
  }

  step_used : {place start run : ℕ} → Scanning place start run → Scanning (place + 1) start 0
  step_used g = record {
    shorter = let h = g.shorter in omega arith;
    fits = omega arith;
    starts = λ ne. absurd (ne refl);
    seen = λ j lo hi. absurd (omega arith);
  }

  module _ (left place start run : ℕ) where
    stops :
        free place ≡ true
        → run + 1 ≡ n
        → first_run n free (suc left) place start run ≡ some (if run == 0 then place else start)
    unfolding first_run
    stops now full = rw (now, (==_iff (run + 1) n).1 full, first_run)

    goes_on :
        free place ≡ true
        → run + 1 ≢ n
        → first_run n free (suc left) place start run
          ≡ first_run n free left (place + 1) (if run == 0 then place else start) (run + 1)
    unfolding first_run
    goes_on now more = rw (now, ne→== (run + 1) n more, first_run)

    restarts :
        free place ≡ false
        → first_run n free (suc left) place start run ≡ first_run n free left (place + 1) start 0
    unfolding first_run
    restarts used = rw (used, first_run)

  pub first_run-some :
      (left place start run k : ℕ)
      → Scanning place start run
      → first_run n free left place start run ≡ some k
      → (place - run ≤ k) × (k + n ≤ place + left) × FreeRange free k n
  unfolding first_run
  first_run-some zero place start run k g e = cc
  first_run-some (suc left) place start run k g e = elim (Bool-cases (free place)) [
    | inl now ↦ elim (ℕ_discrete (run + 1) n) [
      | yes full ↦
          let found : k ≡ place - run = cc (stops left place start run now full, start_of g) in
          rw found (omega arith, (let f = g.fits in omega arith), rw (← full) (grown g now))
      | no more ↦
          let (lo, hi, all) =
            first_run-some left (place + 1) _ (run + 1) k (step_free g now more)
              (sym (goes_on left place start run now more) ∙ e) in
          (omega arith, omega arith, all)
    ]
    | inr used ↦
        let (lo, hi, all) =
          first_run-some left (place + 1) start 0 k (step_used g)
            (sym (restarts left place start run used) ∙ e) in
        (omega arith, omega arith, all)
  ]

  pub first_run-none :
      (left place start run : ℕ)
      → Scanning place start run
      → first_run n free left place start run ≡ none
      → (q : ℕ) → place - run ≤ q
      → q + n ≤ place + left
      → ¬ FreeRange free q n
  unfolding first_run
  first_run-none zero place start run g e q lo hi all =
      let h = g.shorter in let f = g.fits in absurd (omega arith)
  first_run-none (suc left) place start run g e q lo hi all = elim (Bool-cases (free place)) [
    | inl now ↦ elim (ℕ_discrete (run + 1) n) [
      | yes full ↦ cc (stops left place start run now full)
      | no more ↦
          first_run-none left (place + 1) _ (run + 1) (step_free g now more)
            (sym (goes_on left place start run now more) ∙ e) q (omega arith) (omega arith) all
    ]
    | inr used ↦ elim (dec_lt place q) [
      | yes past ↦
          first_run-none left (place + 1) start 0 (step_used g)
            (sym (restarts left place start run used) ∙ e) q (omega arith) (omega arith) all
      | no before ↦
          cc (all place (omega arith) (let h = g.shorter in let f = g.fits in omega arith))
    ]
  ]

  -- No run starts earlier.
  pub first_run-first :
      (left place start run k : ℕ)
      → Scanning place start run
      → first_run n free left place start run ≡ some k
      → (q : ℕ) → place - run ≤ q
      → q < k
      → ¬ FreeRange free q n
  unfolding first_run
  first_run-first zero place start run k g e q lo hi all = cc
  first_run-first (suc left) place start run k g e q lo hi all = elim (Bool-cases (free place)) [
    | inl now ↦ elim (ℕ_discrete (run + 1) n) [
      | yes full ↦
          let found : k ≡ place - run = cc (stops left place start run now full, start_of g) in
          absurd (omega arith)
      | no more ↦
          first_run-first left (place + 1) _ (run + 1) k (step_free g now more)
            (sym (goes_on left place start run now more) ∙ e) q (omega arith) hi all
    ]
    | inr used ↦ elim (dec_lt place q) [
      | yes past ↦
          first_run-first left (place + 1) start 0 k (step_used g)
            (sym (restarts left place start run used) ∙ e) q (omega arith) hi all
      | no before ↦
          cc (all place (omega arith) (let h = g.shorter in let f = g.fits in omega arith))
    ]
  ]
