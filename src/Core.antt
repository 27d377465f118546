-- ===== src/Core.antt =====
-- The crate `cryprq_core` (core/src): the record layer's wire format and its encryption.
pub mod Header
pub mod Nonce
pub mod Aead
pub mod Record
mod Tests
pub mod Ffi
