-- ===== src/Base/Bits.antt =====
-- Words as rows of bits: the lowest-digit equations of `|` and `&`, and what setting and clearing
-- one bit does to every bit.
use Prim.Native.Nat.{zero, digits, bitwise, bit_and, bit_or, bit_and-bitwise, bit_or-bitwise}
use native.Mathlib.Nat.{le_refl, pow-suc, one-le-pow, div-div-eq-div-mul}
use rusty_penguin.Base.{
  ℕ, suc, ◌+◌, ◌-◌, ◌*◌, ◌/◌, ◌%◌, ◌^◌, ◌≤◌, ◌<◌, min, max, ◌≡◌, refl, ◌≢◌, ◌∙◌, arith, ap,
}

module _ (outside : ℕ → ℕ) (combine : ℕ → ℕ → ℕ) where
  abbrev rounds : ℕ → ℕ → ℕ → ℕ
  rounds = digits outside combine

  -- One more round changes nothing once the rounds cover the left word.
  one_round_more : (n a b : ℕ) → a ≤ n → rounds (suc n) a b ≡ rounds n a b
  one_round_more n zero b h = finished n
    where
      finished : (k : ℕ) → rounds (suc k) 0 b ≡ rounds k 0 b
      finished zero = refl
      finished (suc k) = refl
  one_round_more zero (suc a) b h = absurd (omega arith)
  one_round_more (suc n) (suc a) b h =
      ap (λ (t : ℕ). t * 2 + combine (suc a % 2) (b % 2))
        (one_round_more n (suc a / 2) (b / 2) (omega arith))

  -- So do `spare` more.
  spare_rounds : (spare n a b : ℕ) → a ≤ n → rounds (n + spare) a b ≡ rounds n a b
  spare_rounds zero n a b h = ap (λ (t : ℕ). rounds t a b) (omega arith)
  spare_rounds (suc spare) n a b h =
      let longer : n + suc spare ≡ suc (n + spare) = omega arith in
      rw longer (one_round_more (n + spare) a b (omega arith) ∙ spare_rounds spare n a b h)

  lowest_digit :
      (a b : ℕ)
      → bitwise outside combine (suc a) b
        ≡ bitwise outside combine (suc a / 2) (b / 2) * 2 + combine (suc a % 2) (b % 2)
  lowest_digit a b =
      let half = suc a / 2 in
      let covered : a ≡ half + (a - half) = omega arith in
      ap (λ (t : ℕ). t * 2 + combine (suc a % 2) (b % 2))
        (ap (λ (t : ℕ). rounds t half (b / 2)) covered
          ∙ spare_rounds (a - half) half half (b / 2) (omega arith))

-- `a | b` and `a & b` one digit at a time.
pub bit_or_step : (a b : ℕ) → bit_or a b ≡ bit_or (a / 2) (b / 2) * 2 + max (a % 2) (b % 2)
bit_or_step a b = rw (bit_or-bitwise a b, bit_or-bitwise (a / 2) (b / 2)) (or_digit a b)
  where
    or_digit :
        (x y : ℕ)
        → bitwise (λ t. t) max x y ≡ bitwise (λ t. t) max (x / 2) (y / 2) * 2 + max (x % 2) (y % 2)
    or_digit zero y = omega arith
    or_digit (suc x) y = lowest_digit (λ t. t) max x y

pub bit_and_step : (a b : ℕ) → bit_and a b ≡ bit_and (a / 2) (b / 2) * 2 + min (a % 2) (b % 2)
bit_and_step a b = rw (bit_and-bitwise a b, bit_and-bitwise (a / 2) (b / 2)) (and_digit a b)
  where
    and_digit :
        (x y : ℕ)
        → bitwise (λ t. 0) min x y ≡ bitwise (λ t. 0) min (x / 2) (y / 2) * 2 + min (x % 2) (y % 2)
    and_digit zero y = omega arith
    and_digit (suc x) y = lowest_digit (λ t. 0) min x y

-- The bit of `x` at place `j`, 0 or 1.
unfoldable pub bit_at : ℕ → ℕ → ℕ
bit_at x zero = x % 2
bit_at x (suc j) = bit_at (x / 2) j

-- All the bits below place `w` but the one at `k`: `!(1 << k)` in a word of `w` bits.
abbrev pub mask_without : ℕ → ℕ → ℕ
mask_without w k = 2 ^ w - 1 - 2 ^ k

pub bit_at-le : (x j : ℕ) → bit_at x j ≤ 1
unfolding bit_at
bit_at-le x zero = omega arith
bit_at-le x (suc j) = bit_at-le (x / 2) j

pub bit_at-zero : (j : ℕ) → bit_at 0 j ≡ 0
unfolding bit_at
bit_at-zero zero = refl
bit_at-zero (suc j) = bit_at-zero j

-- `&` and `|` with 0, by the bound `n` on the word.
zero_operand : (n a : ℕ) → a ≤ n → (bit_and a 0 ≡ 0) × (bit_or a 0 ≡ a)
zero_operand n zero h = (refl, refl)
zero_operand zero (suc a) h = absurd (omega arith)
zero_operand (suc n) (suc a) h =
    let (none_left, same) = zero_operand n (suc a / 2) (omega arith) in
    (omega (arith, bit_and_step (suc a) 0), omega (arith, bit_or_step (suc a) 0))

pub bit_and-zero : (a : ℕ) → bit_and a 0 ≡ 0
bit_and-zero a = (zero_operand a a (le_refl a)).0

pub bit_or-zero : (a : ℕ) → bit_or a 0 ≡ a
bit_or-zero a = (zero_operand a a (le_refl a)).1

half_pow : (k : ℕ) → 2 ^ suc k / 2 ≡ 2 ^ k
half_pow k = omega (arith, pow-suc 2 k)

bit_or_half : (x k : ℕ) → bit_or x (2 ^ suc k) / 2 ≡ bit_or (x / 2) (2 ^ k)
bit_or_half x k =
    omega
      (arith, bit_or_step x (2 ^ suc k), pow-suc 2 k, ap (λ (t : ℕ). bit_or (x / 2) t) (half_pow k))

-- `x & (1 << k)`
pub bit_and-pow : (x k : ℕ) → bit_and x (2 ^ k) ≡ bit_at x k * 2 ^ k
unfolding bit_at
bit_and-pow x zero = omega (arith, bit_and_step x 1, bit_and-zero (x / 2))
bit_and-pow x (suc k) = omega (
  arith,
  bit_and_step x (2 ^ suc k),
  pow-suc 2 k,
  ap (λ (t : ℕ). bit_and (x / 2) t) (half_pow k),
  bit_and-pow (x / 2) k,
  ap (λ (t : ℕ). bit_at (x / 2) k * t) (pow-suc 2 k),
)

div-pow-suc : (x k : ℕ) → x / 2 ^ suc k ≡ x / 2 / 2 ^ k
div-pow-suc x k = rw div-div-eq-div-mul (ap (λ (t : ℕ). x / t) (omega (arith, pow-suc 2 k)))

-- `(x >> k) & 1`
pub shift-bit_and-one : (x k : ℕ) → bit_and (x / 2 ^ k) 1 ≡ bit_at x k
unfolding bit_at
shift-bit_and-one x zero =
    let e : x / 2 ^ 0 ≡ x = omega arith in
    rw e (omega (arith, bit_and_step x 1, bit_and-zero (x / 2)))
shift-bit_and-one x (suc k) = rw (div-pow-suc x k) (shift-bit_and-one (x / 2) k)

-- `x | (1 << k)` sets the bit at `k` and no other.
pub bit_at-set_self : (x k : ℕ) → bit_at (bit_or x (2 ^ k)) k ≡ 1
unfolding bit_at
bit_at-set_self x zero = omega (arith, bit_or_step x 1)
bit_at-set_self x (suc k) = rw (bit_or_half x k) (bit_at-set_self (x / 2) k)

pub bit_at-set_ne : (x k j : ℕ) → j ≢ k → bit_at (bit_or x (2 ^ k)) j ≡ bit_at x j
unfolding bit_at
bit_at-set_ne x zero zero h = absurd (h refl)
bit_at-set_ne x zero (suc j) h =
    ap (λ (t : ℕ). bit_at t j) (omega (arith, bit_or_step x 1, bit_or-zero (x / 2)))
bit_at-set_ne x (suc k) zero h = omega (arith, bit_or_step x (2 ^ suc k), pow-suc 2 k)
bit_at-set_ne x (suc k) (suc j) h =
    rw (bit_or_half x k) (bit_at-set_ne (x / 2) k j (λ e. h (ap suc e)))

pub bit_or-pow-lt : (w x k : ℕ) → x < 2 ^ w → k < w → bit_or x (2 ^ k) < 2 ^ w
bit_or-pow-lt zero x k h lt = absurd (omega arith)
bit_or-pow-lt (suc w) x zero h lt = omega (arith, bit_or_step x 1, bit_or-zero (x / 2), pow-suc 2 w)
bit_or-pow-lt (suc w) x (suc k) h lt = omega (
  arith,
  bit_or_step x (2 ^ suc k),
  bit_or_half x k,
  pow-suc 2 w,
  pow-suc 2 k,
  bit_or-pow-lt w (x / 2) k (omega (arith, pow-suc 2 w)) (omega arith),
)

-- The mask halved.
pow-lt : (w k : ℕ) → k < w → 2 ^ k < 2 ^ w
pow-lt zero k h = absurd (omega arith)
pow-lt (suc w) zero h = omega (arith, pow-suc 2 w, one-le-pow w 2)
pow-lt (suc w) (suc k) h = omega (arith, pow-suc 2 w, pow-suc 2 k, pow-lt w k (omega arith))

bit_and_half :
    (w x k : ℕ) → bit_and x (mask_without (suc w) (suc k)) / 2 ≡ bit_and (x / 2) (mask_without w k)
bit_and_half w x k =
    omega
      (arith, bit_and_step x (mask_without (suc w) (suc k)), ap (λ (t : ℕ). bit_and (x / 2) t) half)
  where
    half : mask_without (suc w) (suc k) / 2 ≡ mask_without w k
    half = omega (arith, pow-suc 2 w, pow-suc 2 k, one-le-pow w 2)

bit_and_half_low : (w x : ℕ) → bit_and x (mask_without (suc w) 0) / 2 ≡ bit_and (x / 2) (2 ^ w - 1)
bit_and_half_low w x =
    omega (arith, bit_and_step x (mask_without (suc w) 0), ap (λ (t : ℕ). bit_and (x / 2) t) half)
  where
    half : mask_without (suc w) 0 / 2 ≡ 2 ^ w - 1
    half = omega (arith, pow-suc 2 w, one-le-pow w 2)

bit_at-low_mask : (w x j : ℕ) → j < w → bit_at (bit_and x (2 ^ w - 1)) j ≡ bit_at x j
unfolding bit_at
bit_at-low_mask zero x j h = absurd (omega arith)
bit_at-low_mask (suc w) x zero h =
    omega (arith, bit_and_step x (2 ^ suc w - 1), pow-suc 2 w, one-le-pow w 2)
bit_at-low_mask (suc w) x (suc j) h = rw halved (bit_at-low_mask w (x / 2) j (omega arith))
  where
    half : (2 ^ suc w - 1) / 2 ≡ 2 ^ w - 1
    half = omega (arith, pow-suc 2 w, one-le-pow w 2)

    halved : bit_and x (2 ^ suc w - 1) / 2 ≡ bit_and (x / 2) (2 ^ w - 1)
    halved = omega (arith, bit_and_step x (2 ^ suc w - 1), ap (λ (t : ℕ). bit_and (x / 2) t) half)

-- `x & !(1 << k)` in a word of `w` bits clears the bit at `k` and no other.
pub bit_at-clear_self : (w x k : ℕ) → k < w → bit_at (bit_and x (mask_without w k)) k ≡ 0
unfolding bit_at
bit_at-clear_self zero x k lt = absurd (omega arith)
bit_at-clear_self (suc w) x zero lt =
    omega (arith, bit_and_step x (mask_without (suc w) 0), pow-suc 2 w, one-le-pow w 2)
bit_at-clear_self (suc w) x (suc k) lt =
    rw (bit_and_half w x k) (bit_at-clear_self w (x / 2) k (omega arith))

pub bit_at-clear_ne :
    (w x k j : ℕ) → j < w → k < w → j ≢ k → bit_at (bit_and x (mask_without w k)) j ≡ bit_at x j
unfolding bit_at
bit_at-clear_ne zero x k j lj lk h = absurd (omega arith)
bit_at-clear_ne (suc w) x zero zero lj lk h = absurd (h refl)
bit_at-clear_ne (suc w) x zero (suc j) lj lk h =
    rw (bit_and_half_low w x) (bit_at-low_mask w (x / 2) j (omega arith))
bit_at-clear_ne (suc w) x (suc k) zero lj lk h = omega (
  arith,
  bit_and_step x (mask_without (suc w) (suc k)),
  pow-suc 2 w,
  pow-suc 2 k,
  pow-lt w k (omega arith),
)
bit_at-clear_ne (suc w) x (suc k) (suc j) lj lk h =
    rw (bit_and_half w x k)
      (bit_at-clear_ne w (x / 2) k j (omega arith) (omega arith) (λ e. h (ap suc e)))

bit_and-le_below : (n x m : ℕ) → x ≤ n → bit_and x m ≤ x
bit_and-le_below n zero m h = omega (arith, bit_and-bitwise 0 m)
bit_and-le_below zero (suc x) m h = absurd (omega arith)
bit_and-le_below (suc n) (suc x) m h =
    omega (arith, bit_and_step (suc x) m, bit_and-le_below n (suc x / 2) (m / 2) (omega arith))

pub bit_and-le : (x m : ℕ) → bit_and x m ≤ x
bit_and-le x m = bit_and-le_below x x m (le_refl x)

-- `x & !(2^k - 1)` in a word of `w` bits rounds down to a multiple of `2^k`.
pub bit_and-high_mask :
    (w k x : ℕ) → k ≤ w → x < 2 ^ w → bit_and x (2 ^ w - 2 ^ k) ≡ x / 2 ^ k * 2 ^ k
bit_and-high_mask zero zero x h lt = let e : x ≡ 0 = omega arith in rw e (bit_and-zero 0)
bit_and-high_mask zero (suc k) x h lt = absurd (omega arith)
bit_and-high_mask (suc w) zero x h lt =
    ap (bit_and x) (omega arith) ∙ low_all (suc w) x lt ∙ omega arith
  where
    low_all : (w x : ℕ) → x < 2 ^ w → bit_and x (2 ^ w - 1) ≡ x
    low_all zero x lt = let e : x ≡ 0 = omega arith in rw e (bit_and-zero 0)
    low_all (suc w) x lt = omega (
      arith,
      bit_and_step x (2 ^ suc w - 1),
      pow-suc 2 w,
      one-le-pow w 2,
      ap (λ (t : ℕ). bit_and (x / 2) t) half,
      low_all w (x / 2) (omega (arith, pow-suc 2 w)),
    )
      where
        half : (2 ^ suc w - 1) / 2 ≡ 2 ^ w - 1
        half = omega (arith, pow-suc 2 w, one-le-pow w 2)
bit_and-high_mask (suc w) (suc k) x h lt =
    let half : (2 ^ suc w - 2 ^ suc k) / 2 ≡ 2 ^ w - 2 ^ k =
      omega (arith, pow-suc 2 w, pow-suc 2 k) in
    let even : (2 ^ suc w - 2 ^ suc k) % 2 ≡ 0 = omega (arith, pow-suc 2 w, pow-suc 2 k) in
    let ih = bit_and-high_mask w k (x / 2) (omega arith) (omega (arith, pow-suc 2 w)) in
    omega (
      arith,
      bit_and_step x (2 ^ suc w - 2 ^ suc k),
      ap (λ (t : ℕ). bit_and (x / 2) t) half,
      even,
      ih,
      div-pow-suc x k,
      ap (λ (t : ℕ). x / 2 / 2 ^ k * t) (pow-suc 2 k),
      ap (λ (t : ℕ). t * 2 ^ suc k) (div-pow-suc x k),
    )
