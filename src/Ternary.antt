-- ===== src/Ternary.antt =====
-- Balanced ternary: ternary-core/src/lib.rs, mathematics/src/lib.rs, and the sparse products of
-- desktop-metal/src/trit.rs.
pub mod Trit
pub mod Tryte
pub mod Arith
mod Tests
