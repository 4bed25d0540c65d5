-- ===== src/Desktop/Window/Tests.antt =====
-- A window and what is hit in it.
use rusty_penguin.Base.{◌≤◌, ◌≡◌, refl, true, [], arith}
use rusty_penguin.Base.Int.{pos, ◌+ℤ◌, ◌-ℤ◌, wrap_i32, quot, rem_euclid}
use rusty_penguin.Desktop.Window.{
  Window, new, close_bx, btn_by, between, hit_btn_rect, close_btn_hit,
}
use rusty_penguin.Desktop.Window.Places.{OnScreen}
use rusty_penguin.Desktop.Window.Hits.{hit_count, hit_count-le}

abbrev window : Window
window = new (pos 642) (pos 100) (pos 50) []

near : OnScreen window
unfolding new
near = record {
  near_x = (omega arith, omega arith);
  near_y = (omega arith, omega arith);
  near_w = (omega arith, omega arith);
  near_h = (omega arith, omega arith);
}

hit_count-le_example : hit_count window (pos 712) (pos 60) ≤ 1
unfolding new
hit_count-le_example = hit_count-le window near (pos 712) (pos 60) (omega arith)

close_hit : close_btn_hit window (pos 712) (pos 60) ≡ true
unfolding close_btn_hit close_bx btn_by hit_btn_rect between new ◌+ℤ◌ ◌-ℤ◌ wrap_i32 quot rem_euclid
close_hit = refl
