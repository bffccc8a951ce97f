-- ===== src/Gguf.antt =====
-- crates/det-gguf: the reader of GGUF model files.
pub mod Types
pub mod Reader
pub mod Value
pub mod Layout
pub mod Parse
mod Tests
