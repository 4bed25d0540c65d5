-- ===== src/Desktop/Window/Places.antt =====
-- Where the parts of a window stand: near the screen no sum wraps around.
use rusty_penguin.Base.{ℕ, ◌+◌, ◌-◌, ◌^◌, ◌≤◌, ◌≡◌, refl, ap, ◌∙◌, Bool, ◌&&◌, arith}
use rusty_penguin.Base.Int.{ℤ, pos, ◌+ℤ◌, ◌-ℤ◌, quot, rem_euclid, wrap_i32, Within}
use rusty_penguin.Desktop.Window.{
  Window, titlebar_h, btn_w, btn_h, btn_gap, btn_margin, close_bx, max_bx, min_bx, btn_by, between,
  hit_btn_rect, ◌+i◌, ◌-i◌,
}
use rusty_penguin.Desktop.Window.Stretches.{add_exact, sub_exact, Within-pos}

-- A place or a size between -2^29 and 2^29, which screens do not reach.
pub record OnScreen (win : Window) : Type 0 where
  pub near_x : Within (2 ^ 29) win.x
  pub near_y : Within (2 ^ 29) win.y
  pub near_w : Within (2 ^ 29) win.w
  pub near_h : Within (2 ^ 29) win.h

-- The value `t` that the code computes is the integer `a`, of a size up to `m`.
abbrev pub Near : ℕ → ℤ → ℤ → Type 0
Near m t a = (t ≡ a) × Within m a

pub Near-add :
    (m n : ℕ) (t a b : ℤ)
    → Near m t a
    → Within n b
    → m + n ≤ 2 ^ 31 - 1
    → Near (m + n) (t +i b) (a +ℤ b)
Near-add m n t a b (e, h) h' le =
    let p = add_exact m n a b h h' le in (ap (λ z. z +i b) e ∙ p.0, p.1)

pub Near-sub :
    (m n : ℕ) (t a b : ℤ)
    → Near m t a
    → Within n b
    → m + n ≤ 2 ^ 31 - 1
    → Near (m + n) (t -i b) (a -ℤ b)
Near-sub m n t a b (e, h) h' le =
    let p = sub_exact m n a b h h' le in (ap (λ z. z -i b) e ∙ p.0, p.1)

-- The exact places.
abbrev pub right_at : Window → ℤ
right_at win = win.x +ℤ win.w

abbrev pub bottom_at : Window → ℤ
bottom_at win = win.y +ℤ win.h

abbrev pub close_at : Window → ℤ
close_at win = right_at win -ℤ btn_margin -ℤ btn_w

abbrev pub max_at : Window → ℤ
max_at win = close_at win -ℤ btn_gap -ℤ btn_w

abbrev pub min_at : Window → ℤ
min_at win = max_at win -ℤ btn_gap -ℤ btn_w

abbrev pub top_at : Window → ℤ
top_at win = win.y +ℤ pos 7

module _ (win : Window) (s : OnScreen win) where
  pub right-Near : Near (2 ^ 30) (win.x +i win.w) (right_at win)
  right-Near = add_exact (2 ^ 29) (2 ^ 29) win.x win.w s.near_x s.near_w (omega arith)

  pub bottom-Near : Near (2 ^ 30) (win.y +i win.h) (bottom_at win)
  bottom-Near = add_exact (2 ^ 29) (2 ^ 29) win.y win.h s.near_y s.near_h (omega arith)

  pub close-Near : Near (2 ^ 30 + 8 + 24) (close_bx win) (close_at win)
  unfolding close_bx
  close-Near =
      Near-sub (2 ^ 30 + 8) 24 _ (right_at win -ℤ btn_margin) btn_w
        (Near-sub (2 ^ 30) 8 _ (right_at win) btn_margin right-Near (Within-pos 8) (omega arith))
        (Within-pos 24) (omega arith)

  one_left :
      (m : ℕ) (t a : ℤ)
      → Near m t a
      → m + 4 + 24 ≤ 2 ^ 31 - 1
      → Near (m + 4 + 24) (t -i btn_gap -i btn_w) (a -ℤ btn_gap -ℤ btn_w)
  one_left m t a h le =
      Near-sub (m + 4) 24 _ (a -ℤ btn_gap) btn_w
        (Near-sub m 4 t a btn_gap h (Within-pos 4) (omega arith)) (Within-pos 24) (omega arith)

  pub max-Near : Near (2 ^ 30 + 8 + 24 + 4 + 24) (max_bx win) (max_at win)
  unfolding max_bx
  max-Near = one_left (2 ^ 30 + 8 + 24) (close_bx win) (close_at win) close-Near (omega arith)

  pub min-Near : Near (2 ^ 30 + 8 + 24 + 4 + 24 + 4 + 24) (min_bx win) (min_at win)
  unfolding min_bx
  min-Near = one_left (2 ^ 30 + 8 + 24 + 4 + 24) (max_bx win) (max_at win) max-Near (omega arith)

  half_gap : quot (titlebar_h -i btn_h) (pos 2) ≡ pos 7
  unfolding quot wrap_i32 ◌-ℤ◌ ◌+ℤ◌ rem_euclid
  half_gap = refl

  pub top-Near : Near (2 ^ 29 + 7) (btn_by win) (top_at win)
  unfolding btn_by
  top-Near =
      let p = add_exact (2 ^ 29) 7 win.y (pos 7) s.near_y (Within-pos 7) (omega arith) in
      (ap (λ z. win.y +i z) half_gap ∙ p.0, p.1)

  -- A button of which the left edge is at `a`.
  unfoldable pub exact_hit : ℤ → ℤ → ℤ → Bool
  exact_hit a mx my = between a mx (a +ℤ btn_w) && between (top_at win) my (top_at win +ℤ btn_h)

  pub hit_btn_rect-exact :
      (m : ℕ) (t a mx my : ℤ)
      → Near m t a
      → m + 24 ≤ 2 ^ 31 - 1
      → hit_btn_rect mx my t (btn_by win) ≡ exact_hit a mx my
  unfolding hit_btn_rect exact_hit
  hit_btn_rect-exact m t a mx my h le =
      rw
        (
          h.0,
          top-Near.0,
          (add_exact m 24 a btn_w h.1 (Within-pos 24) le).0,
          (add_exact (2 ^ 29 + 7) 20 (top_at win) btn_h top-Near.1 (Within-pos 20) (omega arith)).0,
        )
        refl
