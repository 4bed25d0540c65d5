-- ===== src/Desktop.antt =====
-- desktop-metal/src: parts of the desktop that keep state of their own.
pub mod Heap
pub mod Ansi
pub mod Vfs
pub mod Window
pub mod Editor
