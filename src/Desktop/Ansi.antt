-- ===== src/Desktop/Ansi.antt =====
-- desktop-metal/src/ansi.rs: the parser of the keyboard's escape sequences.
use rusty_penguin.Base.{ℕ, ◌==◌, if◌then◌else◌}

pub data Key : Type 0 where
  nothing : Key
  char : ℕ → Key
  up : Key
  down : Key
  left : Key
  right : Key
  home : Key
  end : Key
  delete : Key

-- 0 = normal, 1 = saw ESC, 2 = saw ESC [, 3 = saw ESC [ 3
pub record AnsiParser : Type 0 where
  pub state : ℕ

abbrev pub new_parser : AnsiParser
new_parser = record { state = 0 }

abbrev pub to : ℕ → Key → AnsiParser × Key
to s key = (record { state = s }, key)

abbrev pub after_escape : ℕ → AnsiParser × Key
after_escape key = if key == 91 then to 2 nothing else to 0 nothing

abbrev pub after_bracket : ℕ → AnsiParser × Key
after_bracket key =
    if key == 65
    then to 0 up
    else if key == 66
    then to 0 down
    else if key == 67
    then to 0 right
    else if key == 68
    then to 0 left
    else if key == 72
    then to 0 home
    else if key == 70
    then to 0 end
    else if key == 51
    then to 3 nothing
    else to 0 nothing

abbrev pub after_three : ℕ → AnsiParser × Key
after_three key = if key == 126 then to 0 delete else to 0 nothing

abbrev pub in_normal : AnsiParser → ℕ → AnsiParser × Key
in_normal p key = if key == 27 then to 1 nothing else (p, char key)

unfoldable pub feed : AnsiParser → ℕ → AnsiParser × Key
feed p key =
    if p.state == 1
    then after_escape key
    else if p.state == 2
    then after_bracket key
    else if p.state == 3
    then after_three key
    else in_normal p key
