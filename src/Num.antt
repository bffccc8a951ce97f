-- ===== src/Num.antt =====
-- crates/det-num: the hash of the model file, and the numerics that need no floating point unit.
pub mod Half
pub mod Reduce
pub mod Sha256
mod Tests
