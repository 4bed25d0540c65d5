-- ===== src/Desktop/Heap/Align.antt =====
-- Rounding up to a power of two, in 64 bits.
use native.Mathlib.Nat.{one-le-pow, pow-suc, div-add-mod', mod-lt, mul-mod_left, mul_assoc}
use rusty_penguin.Base.{
  ℕ, max, zero, suc, ◌+◌, ◌-◌, ◌*◌, ◌/◌, ◌%◌, ◌^◌, ◌≤◌, ◌<◌, ◌≡◌, refl, ap, sym, ◌∙◌, if◌then◌else◌,
  ltb, arith, true, dec_lt,
}
use rusty_penguin.Base.Bits.{bit_and-high_mask}
use rusty_penguin.Desktop.Heap.{hdr, min_align, add64, sub64, align_up, round_block}

-- `up` is the least multiple of `2 ^ k` that is not below `x`.
pub record RoundsUp (x k up : ℕ) : Type 0 where
  pub above : x ≤ up
  pub near : up < x + 2 ^ k
  pub multiple : up % 2 ^ k ≡ 0

rounded : (x p : ℕ) → 1 ≤ p → (x ≤ (x + p - 1) / p * p) × ((x + p - 1) / p * p < x + p)
rounded x p h = omega (arith, div-add-mod' (x + p - 1) p, mod-lt (x + p - 1) {m = p} h)

align_up_form :
    (x k : ℕ) → k ≤ 64 → x + 2 ^ k ≤ 2 ^ 64 → align_up x (2 ^ k) ≡ (x + 2 ^ k - 1) / 2 ^ k * 2 ^ k
unfolding align_up
align_up_form x k h fits =
    let sum : sub64 (add64 x (2 ^ k)) 1 ≡ x + 2 ^ k - 1 = omega (arith, one-le-pow k 2) in
    let mask : 2 ^ 64 - 1 - (2 ^ k - 1) ≡ 2 ^ 64 - 2 ^ k = omega (arith, one-le-pow k 2) in
    rw (sum, mask) (bit_and-high_mask 64 k (x + 2 ^ k - 1) h (omega (arith, one-le-pow k 2)))

pub align_up-RoundsUp : (x k : ℕ) → k ≤ 64 → x + 2 ^ k ≤ 2 ^ 64 → RoundsUp x k (align_up x (2 ^ k))
align_up-RoundsUp x k h fits =
    let (lo, hi) = rounded x (2 ^ k) (omega (arith, one-le-pow k 2)) in
    rw (align_up_form x k h fits)
      (record { above = lo; near = hi; multiple = mul-mod_left ((x + 2 ^ k - 1) / 2 ^ k) (2 ^ k) })

pow_sixteen : (k : ℕ) → 4 ≤ k → 2 ^ k ≡ 2 ^ (k - 4) * 16
pow_sixteen k h =
    let e : k ≡ suc (suc (suc (suc (k - 4)))) = omega arith in
    ap (λ (t : ℕ). 2 ^ t) e
    ∙ omega (
      arith,
      pow-suc 2 (suc (suc (suc (k - 4)))),
      pow-suc 2 (suc (suc (k - 4))),
      pow-suc 2 (suc (k - 4)),
      pow-suc 2 (k - 4),
    )

-- A multiple of a larger power of two is one of 16.
pub align_up-sixteen : (x k : ℕ) → 4 ≤ k → k ≤ 64 → x + 2 ^ k ≤ 2 ^ 64 → align_up x (2 ^ k) % 16 ≡ 0
align_up-sixteen x k low h fits =
    let q = (x + 2 ^ k - 1) / 2 ^ k in
    let e : align_up x (2 ^ k) ≡ q * 2 ^ (k - 4) * 16 =
      align_up_form x k h fits
      ∙ ap (λ (t : ℕ). q * t) (pow_sixteen k low)
      ∙ sym (mul_assoc q (2 ^ (k - 4)) 16) in
    rw e (mul-mod_left (q * 2 ^ (k - 4)) 16)

-- The size of a block: a multiple of 16 that holds the request and a header.
pub record Rounded (size need : ℕ) : Type 0 where
  pub holds : size ≤ need
  pub room : 16 ≤ need
  pub whole : need % 16 ≡ 0
  pub near : need < size + 32

pub round_block-Rounded : (size : ℕ) → size + 32 ≤ 2 ^ 64 → Rounded size (round_block size)
unfolding round_block
round_block-Rounded size fits =
    let s : ℕ = if ltb size hdr then hdr else size in
    let bound : (size ≤ s) × (16 ≤ s) × (s < size + 17) = ground arith in
    let (lo, room, hi) = bound in
    let r = align_up-RoundsUp s 4 (omega arith) (omega arith) in
    record {
      holds = let a = r.above in omega arith;
      room = let a = r.above in omega arith;
      whole = r.multiple;
      near = let n = r.near in omega arith;
    }

-- The alignment that `alloc` takes is a power of two, 16 at the least.
pub least_align : (k : ℕ) → (if ltb (2 ^ k) min_align then min_align else 2 ^ k) ≡ 2 ^ max k 4
least_align k = elim (dec_lt k 4) [
  | yes small ↦ let m : max k 4 ≡ 4 = omega arith in rw (small_pow k small, m)
  | no large ↦ let m : max k 4 ≡ k = omega arith in rw m (large_pow (omega arith))
]
  where
    small_pow : (k : ℕ) → k < 4 → ltb (2 ^ k) 16 ≡ true
    small_pow zero lt = refl
    small_pow (suc zero) lt = refl
    small_pow (suc (suc zero)) lt = refl
    small_pow (suc (suc (suc zero))) lt = refl
    small_pow (suc (suc (suc (suc k)))) lt = absurd (omega arith)

    large_pow : 4 ≤ k → (if ltb (2 ^ k) 16 then 16 else 2 ^ k) ≡ 2 ^ k
    large_pow h4 = ground (arith, pow_sixteen k h4, one-le-pow (k - 4) 2)
