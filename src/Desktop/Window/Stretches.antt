-- ===== src/Desktop/Window/Stretches.antt =====
-- Stretches of the screen, and sums within the range of an i32.
use rusty_penguin.Base.{
  ℕ, ◌^◌, ◌-◌, ◌+◌, ◌≤◌, ◌<◌, ◌≡◌, refl, Bool, true, false, not, ◌&&◌, arith, and_parts, Bool-cases,
  inl, inr, ltb→lt,
}
use rusty_penguin.Base.Int.{
  ℤ, pos, pos_part, neg_part, ltb_ℤ, ◌+ℤ◌, ◌-ℤ◌, +ℤ_parts, -ℤ_parts, wrap_i32_of_within, Within,
}
use rusty_penguin.Desktop.Window.{between, ◌+i◌, ◌-i◌}

-- The point lies in [a, b).
record Stretch (a m b : ℤ) : Type 0 where
  lower : pos_part a + neg_part m ≤ pos_part m + neg_part a
  upper : pos_part m + neg_part b < pos_part b + neg_part m

between-Stretch : (a m b : ℤ) → between a m b ≡ true → Stretch a m b
unfolding between
between-Stretch a m b h =
    let p = and_parts (not (ltb_ℤ m a)) (ltb_ℤ m b) h in
    record {
      lower = let q = p.0 in ground arith;
      upper = ltb→lt (pos_part m + neg_part b) (pos_part b + neg_part m) p.1;
    }

-- Two stretches without a common point.
pub between-apart :
    (a a' m b b' : ℤ)
    → pos_part b' + neg_part a ≤ pos_part a + neg_part b'
    → between a m b ≡ true
    → between a' m b' ≡ false
between-apart a a' m b b' gap h = elim (Bool-cases (between a' m b')) [
  | inr apart ↦ apart
  | inl both ↦
      let p = between-Stretch a m b h in
      let q = between-Stretch a' m b' both in
      let l = p.lower in let u = q.upper in absurd (omega arith)
]

pub no_left : (a b : Bool) → a ≡ false → (a && b) ≡ false
no_left a b e = rw e refl

pub no_right : (a b : Bool) → b ≡ false → (a && b) ≡ false
no_right true b e = e
no_right false b e = refl

-- A sum and a difference within the range do not wrap around.
pub add_exact :
    (m n : ℕ) (a b : ℤ)
    → Within m a
    → Within n b
    → m + n ≤ 2 ^ 31 - 1
    → (a +i b ≡ a +ℤ b) × Within (m + n) (a +ℤ b)
add_exact m n a b (ha, ha') (hb, hb') le = (
  wrap_i32_of_within (a +ℤ b) (omega (arith, +ℤ_parts a b), omega (arith, +ℤ_parts a b)),
  (omega (arith, +ℤ_parts a b), omega (arith, +ℤ_parts a b)),
)

pub sub_exact :
    (m n : ℕ) (a b : ℤ)
    → Within m a
    → Within n b
    → m + n ≤ 2 ^ 31 - 1
    → (a -i b ≡ a -ℤ b) × Within (m + n) (a -ℤ b)
sub_exact m n a b (ha, ha') (hb, hb') le = (
  wrap_i32_of_within (a -ℤ b) (omega (arith, -ℤ_parts a b), omega (arith, -ℤ_parts a b)),
  (omega (arith, -ℤ_parts a b), omega (arith, -ℤ_parts a b)),
)

pub Within-pos : (n : ℕ) → Within n (pos n)
Within-pos n = (omega arith, omega arith)
