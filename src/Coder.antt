-- ===== src/Coder.antt =====
-- crates/det-coder: the entropy coder, its frequency tables, token streams and the file header.
pub mod Range
pub mod Cdf
pub mod Stream
pub mod Header
mod Tests
