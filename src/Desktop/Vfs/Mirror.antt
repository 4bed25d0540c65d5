-- ===== src/Desktop/Vfs/Mirror.antt =====
-- A file that is written is there after the next start.
use rusty_penguin.Base.{not, ◌==◌, ◌≡◌, true}
use rusty_penguin.Base.Edits.{all}
use rusty_penguin.Desktop.Vfs.{Bytes, Vfs}
use rusty_penguin.Desktop.Vfs.Calls.{Callable}
use rusty_penguin.Desktop.Vfs.Kept.{Kept}

-- A name of a file on the disk, none of its bytes 0.
pub record FileName (name : Bytes) : Type 0 where
  pub callable : Callable name
  pub no_zero : all (λ c. not (c == 0)) name ≡ true
