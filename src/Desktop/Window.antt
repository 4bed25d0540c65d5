-- ===== src/Desktop/Window.antt =====
-- desktop-metal/src/wm.rs: the windows and what a point of the screen hits, without the drawing. An i32
-- is an integer of its range; sums and differences wrap around.
pub mod Stretches
pub mod Places
pub mod Hits
mod Tests
use rusty_penguin.Base.{ℕ, List, Bool, true, false, not, ◌&&◌, if◌then◌else◌}
use rusty_penguin.Base.Int.{ℤ, pos, ltb_ℤ, ◌+ℤ◌, ◌-ℤ◌, quot, wrap_i32}

abbrev pub titlebar_h : ℤ
titlebar_h = pos 34

abbrev pub window_h : ℤ
window_h = pos 408

abbrev pub btn_w : ℤ
btn_w = pos 24

abbrev pub btn_h : ℤ
btn_h = pos 20

abbrev pub btn_gap : ℤ
btn_gap = pos 4

abbrev pub btn_margin : ℤ
btn_margin = pos 8

infixl 65 ◌+i◌ ◌-i◌
abbrev pub ◌+i◌ : ℤ → ℤ → ℤ
a +i b = wrap_i32 (a +ℤ b)

abbrev pub ◌-i◌ : ℤ → ℤ → ℤ
a -i b = wrap_i32 (a -ℤ b)

pub record Window : Type 0 where
  pub x : ℤ
  pub y : ℤ
  pub w : ℤ
  pub h : ℤ
  pub title : List ℕ
  pub dragging : Bool
  pub drag_ox : ℤ
  pub drag_oy : ℤ
  pub resizing : Bool
  pub resize_mx : ℤ
  pub resize_my : ℤ
  pub resize_ow : ℤ
  pub resize_oh : ℤ
  pub minimized : Bool
  pub maximized : Bool
  pub restore_x : ℤ
  pub restore_y : ℤ
  pub restore_w : ℤ
  pub restore_h : ℤ
  pub desktop : ℕ

-- `window_w` is the width that term.rs gives the terminal, and two.
unfoldable pub new : ℤ → ℤ → ℤ → List ℕ → Window
new window_w x y title = record {
  x = x;
  y = y;
  w = window_w;
  h = window_h;
  title = title;
  dragging = false;
  drag_ox = pos 0;
  drag_oy = pos 0;
  resizing = false;
  resize_mx = pos 0;
  resize_my = pos 0;
  resize_ow = window_w;
  resize_oh = window_h;
  minimized = false;
  maximized = false;
  restore_x = x;
  restore_y = y;
  restore_w = window_w;
  restore_h = window_h;
  desktop = 0;
}

unfoldable pub toggle_maximize : Window → ℤ → ℤ → ℤ → Window
toggle_maximize win sw sh topbar_h =
    if win.maximized
    then record win {
      x = win.restore_x;
      y = win.restore_y;
      w = win.restore_w;
      h = win.restore_h;
      maximized = false;
    }
    else record win {
      restore_x = win.x;
      restore_y = win.y;
      restore_w = win.w;
      restore_h = win.h;
      x = pos 0;
      y = topbar_h;
      w = sw;
      h = sh -i pos 28 -i topbar_h;
      maximized = true;
    }

unfoldable pub close_bx : Window → ℤ
close_bx win = win.x +i win.w -i btn_margin -i btn_w

unfoldable pub max_bx : Window → ℤ
max_bx win = close_bx win -i btn_gap -i btn_w

unfoldable pub min_bx : Window → ℤ
min_bx win = max_bx win -i btn_gap -i btn_w

unfoldable pub btn_by : Window → ℤ
btn_by win = win.y +i quot (titlebar_h -i btn_h) (pos 2)

-- `m >= a && m < b`
unfoldable pub between : ℤ → ℤ → ℤ → Bool
between a m b = not (ltb_ℤ m a) && ltb_ℤ m b

unfoldable pub hit_btn_rect : ℤ → ℤ → ℤ → ℤ → Bool
hit_btn_rect mx my bx by = between bx mx (bx +i btn_w) && between by my (by +i btn_h)

unfoldable pub close_btn_hit : Window → ℤ → ℤ → Bool
close_btn_hit win mx my = hit_btn_rect mx my (close_bx win) (btn_by win)

unfoldable pub min_btn_hit : Window → ℤ → ℤ → Bool
min_btn_hit win mx my = hit_btn_rect mx my (min_bx win) (btn_by win)

unfoldable pub max_btn_hit : Window → ℤ → ℤ → Bool
max_btn_hit win mx my = hit_btn_rect mx my (max_bx win) (btn_by win)

unfoldable pub titlebar_hit : Window → ℤ → ℤ → Bool
titlebar_hit win mx my =
    between win.x mx (win.x +i win.w)
    && (between win.y my (win.y +i titlebar_h)
        && (not (close_btn_hit win mx my)
            && (not (min_btn_hit win mx my) && not (max_btn_hit win mx my))))

unfoldable pub window_hit : Window → ℤ → ℤ → Bool
window_hit win mx my =
    not win.minimized && (between win.x mx (win.x +i win.w) && between win.y my (win.y +i win.h))

unfoldable pub resize_corner_hit : Window → ℤ → ℤ → Bool
resize_corner_hit win mx my =
    (not win.minimized && not win.maximized)
    && (between (win.x +i win.w -i pos 20) mx (win.x +i win.w)
        && between (win.y +i win.h -i pos 20) my (win.y +i win.h))

unfoldable pub content_origin : Window → ℤ × ℤ
content_origin win = (win.x +i pos 1, win.y +i pos 1 +i titlebar_h)
