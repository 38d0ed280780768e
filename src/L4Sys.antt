-- ===== src/L4Sys.antt =====
-- What crates/l4-sys does by itself, besides calls of the C library.
pub mod Factory
