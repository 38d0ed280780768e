-- ===== src/Derive/Export.antt =====
-- crates/l4_derive/export.rs: the C++ interface that is made of a Rust one.
pub mod Types
pub mod References
pub mod Methods
pub mod Fresh
pub mod Letters
pub mod Names
pub mod Source
pub mod Slice
pub mod Interface
