-- ===== src/L4.antt =====
-- The framework of crates/l4: errors, the cursor over the registers of the UTCB, serialisation,
-- receive buffers, message tags and the server loop.
pub mod Codes
pub mod Error
pub mod MsgTag
pub mod Utcb
pub mod Buffers
pub mod Serialise
pub mod Server
pub mod Rpc
mod Tests
