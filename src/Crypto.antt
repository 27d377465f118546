-- ===== src/Crypto.antt =====
-- The crate `cryprq_crypto` (crypto/src): key derivation and the pre-shared keys of peers.
pub mod Kdf
pub mod Ppk
pub mod Zkp
pub mod Suite
mod Tests
