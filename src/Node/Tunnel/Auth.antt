-- ===== src/Node/Tunnel/Auth.antt =====
-- `generate_handshake_auth` of node/src/lib.rs.
pub mod Created
mod Tests
use cryprq.Base.{List, ℕ}

-- Signing by ed25519-dalek: a key of 32 bytes, the bytes of its verifying key, and a signature.
pub record Signing : Type 1 where
  pub SigningKey : Type 0
  pub from_bytes : List ℕ → SigningKey
  pub verifying_key : SigningKey → List ℕ
  pub sign : SigningKey → List ℕ → List ℕ

-- `secret_bytes` are what the random generator draws.
unfoldable pub generate_handshake_auth :
    (d : Signing) → List ℕ → List ℕ → d.SigningKey × (List ℕ × List ℕ)
generate_handshake_auth d secret_bytes peer_pk =
    let signing_key = d.from_bytes secret_bytes in
    let verifying_key = d.verifying_key signing_key in
    let signature = d.sign signing_key peer_pk in (signing_key, (verifying_key, signature))
