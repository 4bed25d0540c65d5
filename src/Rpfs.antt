-- ===== src/Rpfs.antt =====
-- kernel/src/rpfs.rs: the RPFS v2 filesystem. Byte buffers are functions from offsets to bytes (their
-- lengths are fixed by the layout).
pub mod Layout
pub mod Volume
pub mod Device
pub mod Dirs
pub mod Files
mod Tests
