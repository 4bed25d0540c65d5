-- ===== src/Desktop/Window/Hits.antt =====
-- The parts of a window that a point can hit.
use rusty_penguin.Base.{
  ℕ, ◌+◌, ◌^◌, ◌≤◌, ◌≡◌, refl, ap, sym, ◌∙◌, Bool, true, false, not, ◌&&◌, arith, and_parts,
  not-false, Bool-cases, inl, inr, if◌then◌else◌,
}
use rusty_penguin.Base.Int.{ℤ, pos, pos_part, neg_part, ◌≤ℤ◌, ◌+ℤ◌, ◌-ℤ◌, +ℤ_parts, -ℤ_parts}
use rusty_penguin.Desktop.Window.{
  Window, titlebar_h, btn_w, btn_h, btn_gap, toggle_maximize, close_bx, max_bx, min_bx, between,
  close_btn_hit, min_btn_hit, max_btn_hit, titlebar_hit, resize_corner_hit, ◌+i◌, ◌-i◌,
}
use rusty_penguin.Desktop.Window.Stretches.{between-apart, no_left, no_right, add_exact, Within-pos}
use rusty_penguin.Desktop.Window.Places.{
  OnScreen, Near-sub, bottom-Near, close-Near, max-Near, min-Near, bottom_at, close_at, max_at,
  min_at, top_at, exact_hit, hit_btn_rect-exact,
}

-- How many of the parts of a window a point hits.
abbrev pub one : Bool → ℕ
one b = if b then 1 else 0

unfoldable pub hit_count : Window → ℤ → ℤ → ℕ
hit_count win mx my =
    one (close_btn_hit win mx my)
    + one (max_btn_hit win mx my)
    + one (min_btn_hit win mx my)
    + one (titlebar_hit win mx my)
    + one (resize_corner_hit win mx my)

-- Five tests of which no two hold.
at_most_one :
    (a b c d e : Bool)
    → (a ≡ true → (b ≡ false) × (c ≡ false) × (e ≡ false))
    → (b ≡ true → (c ≡ false) × (e ≡ false))
    → (c ≡ true → e ≡ false)
    → (d ≡ true → (a ≡ false) × (b ≡ false) × (c ≡ false) × (e ≡ false))
    → one a + one b + one c + one d + one e ≤ 1
at_most_one a b c d e ha hb hc hd = elim (Bool-cases d) [
  | inl title ↦ let (p, q, r, t) = hd title in rw (title, p, q, r, t) (omega arith)
  | inr no_title ↦ elim (Bool-cases a) [
    | inl close ↦ let (p, q, r) = ha close in rw (no_title, close, p, q, r) (omega arith)
    | inr no_close ↦ elim (Bool-cases b) [
      | inl most ↦ let (p, q) = hb most in rw (no_title, no_close, most, p, q) (omega arith)
      | inr no_most ↦ elim (Bool-cases c) [
        | inl least ↦ rw (no_title, no_close, no_most, least, hc least) (omega arith)
        | inr no_least ↦ rw (no_title, no_close, no_most, no_least) (ground arith)
      ]
    ]
  ]
]

module _ (win : Window) (s : OnScreen win) (mx my : ℤ) where
  close_exact : close_btn_hit win mx my ≡ exact_hit win s (close_at win) mx my
  unfolding close_btn_hit
  close_exact =
      hit_btn_rect-exact win s (2 ^ 30 + 8 + 24) (close_bx win) (close_at win) mx my
        (close-Near win s) (omega arith)

  max_exact : max_btn_hit win mx my ≡ exact_hit win s (max_at win) mx my
  unfolding max_btn_hit
  max_exact =
      hit_btn_rect-exact win s (2 ^ 30 + 8 + 24 + 4 + 24) (max_bx win) (max_at win) mx my
        (max-Near win s) (omega arith)

  min_exact : min_btn_hit win mx my ≡ exact_hit win s (min_at win) mx my
  unfolding min_btn_hit
  min_exact =
      hit_btn_rect-exact win s (2 ^ 30 + 8 + 24 + 4 + 24 + 4 + 24) (min_bx win) (min_at win) mx my
        (min-Near win s) (omega arith)

  -- Of two buttons, `a'` the left one, a point hits one at most.
  exact_hit-apart :
      (a a' : ℤ)
      → pos_part a' + neg_part a + 24 ≤ pos_part a + neg_part a'
      → exact_hit win s a mx my ≡ true
      → exact_hit win s a' mx my ≡ false
  unfolding exact_hit
  exact_hit-apart a a' gap h = no_left (between a' mx (a' +ℤ btn_w)) _ (
      between-apart a a' mx (a +ℤ btn_w) (a' +ℤ btn_w) (omega (arith, +ℤ_parts a' btn_w))
        (and_parts (between a mx (a +ℤ btn_w)) _ h).0)

  one_left_lem :
      (a : ℤ)
      → pos_part (a -ℤ btn_gap -ℤ btn_w) + neg_part a + 28
        ≡ pos_part a + neg_part (a -ℤ btn_gap -ℤ btn_w)
  one_left_lem a = omega (arith, -ℤ_parts (a -ℤ btn_gap) btn_w, -ℤ_parts a btn_gap)

  -- Rows that end above the corner are not its rows.
  above-corner :
      (a b : ℤ)
      → pos_part b + neg_part (bottom_at win) + 20 ≤ pos_part (bottom_at win) + neg_part b
      → between a my b ≡ true
      → resize_corner_hit win mx my ≡ false
  unfolding resize_corner_hit
  above-corner a b high rows =
      let corner = bottom_at win -ℤ pos 20 in
      let below : between corner my (bottom_at win) ≡ false =
        elim (Bool-cases (between corner my (bottom_at win))) [
          | inr apart ↦ apart
          | inl both ↦
              let other =
                between-apart corner a my (bottom_at win) b
                  (omega (arith, -ℤ_parts (bottom_at win) (pos 20))) both in
              cc
        ] in
      let edge =
        Near-sub (2 ^ 30) 20 _ (bottom_at win) (pos 20) (bottom-Near win s) (Within-pos 20)
          (omega arith) in
      let rows_apart : between (win.y +i win.h -i pos 20) my (win.y +i win.h) ≡ false =
        rw (edge.0, (bottom-Near win s).0) below in
      no_right (not win.minimized && not win.maximized) _
        (no_right (between (win.x +i win.w -i pos 20) mx (win.x +i win.w)) _ rows_apart)

  button-corner :
      (a : ℤ)
      → pos 54 ≤ℤ win.h
      → exact_hit win s a mx my ≡ true
      → resize_corner_hit win mx my ≡ false
  unfolding exact_hit
  button-corner a tall h =
      above-corner (top_at win) (top_at win +ℤ btn_h)
        (omega (arith, +ℤ_parts (top_at win) btn_h, +ℤ_parts win.y (pos 7), +ℤ_parts win.y win.h))
        (and_parts (between a mx (a +ℤ btn_w)) _ h).1

  titlebar_hit-apart :
      pos 54 ≤ℤ win.h
      → titlebar_hit win mx my ≡ true
      → (close_btn_hit win mx my ≡ false)
        × (max_btn_hit win mx my ≡ false)
        × (min_btn_hit win mx my ≡ false)
        × (resize_corner_hit win mx my ≡ false)
  unfolding titlebar_hit
  titlebar_hit-apart tall h =
      let p = and_parts (between win.x mx (win.x +i win.w)) _ h in
      let q = and_parts (between win.y my (win.y +i titlebar_h)) _ p.1 in
      let r = and_parts (not (close_btn_hit win mx my)) _ q.1 in
      let t = and_parts (not (min_btn_hit win mx my)) (not (max_btn_hit win mx my)) r.1 in
      let edge = add_exact (2 ^ 29) 34 win.y titlebar_h s.near_y (Within-pos 34) (omega arith) in
      (
        not-false _ r.0,
        not-false _ t.1,
        not-false _ t.0,
        above-corner win.y (win.y +ℤ titlebar_h)
            (omega (arith, +ℤ_parts win.y titlebar_h, +ℤ_parts win.y win.h))
            (sym (ap (between win.y my) edge.0) ∙ q.0),
      )

  -- Of the three buttons, the bar of the title and the corner to resize by, a point hits one at most, in
  -- a window that is at least 54 high and whose place and size are between -2^29 and 2^29.
  pub hit_count-le : pos 54 ≤ℤ win.h → hit_count win mx my ≤ 1
  unfolding hit_count
  hit_count-le tall =
      at_most_one _ _ _ _ _
        (λ h.
          let c = sym close_exact ∙ h in
          (
            max_exact
                ∙ exact_hit-apart (close_at win) (max_at win)
                    (omega (arith, one_left_lem (close_at win))) c,
            min_exact
                ∙ exact_hit-apart (close_at win) (min_at win)
                    (omega (arith, one_left_lem (close_at win), one_left_lem (max_at win))) c,
            button-corner (close_at win) tall c,
          ))
        (λ h.
          let c = sym max_exact ∙ h in
          (
            min_exact
                ∙ exact_hit-apart (max_at win) (min_at win)
                    (omega (arith, one_left_lem (max_at win))) c,
            button-corner (max_at win) tall c,
          ))
        (λ h. button-corner (min_at win) tall (sym min_exact ∙ h)) (titlebar_hit-apart tall)

-- A window that is maximized and then restored has the place and the size that it had, on whatever
-- screens this was done.
pub toggle_maximize-toggle_maximize :
    (win : Window) (sw sh topbar_h sw' sh' topbar_h' : ℤ)
    → win.maximized ≡ false
    → toggle_maximize (toggle_maximize win sw sh topbar_h) sw' sh' topbar_h'
      ≡ record win { restore_x = win.x; restore_y = win.y; restore_w = win.w; restore_h = win.h }
unfolding toggle_maximize
toggle_maximize-toggle_maximize win sw sh topbar_h sw' sh' topbar_h' normal = rw normal refl
