-- ===== src/Llama.antt =====
-- crates/det-model/src/lib.rs: the shape of the model and the cache of keys and values.
pub mod Config
pub mod Cache
mod Tests
