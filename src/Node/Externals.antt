-- ===== src/Node/Externals.antt =====
-- What the tunnel calls outside the repository: one value for each crate and each part of the system.
use cryprq.Base.{ℕ, List, Bool, Option}
use cryprq.Core.Aead.{Aead}
use cryprq.Crypto.Kdf.{Hkdf}
use cryprq.Node.RateLimiter.{Timing}
use cryprq.Node.FileTransfer.{FileSystem}

-- `send_to` says whether the socket takes a datagram, `tun_accepts` whether the channel to the TUN
-- device is still open for a packet. `Pool` is the queue of receive buffers: a buffer is cleared
-- before it is returned, so one is as good as another. `parse_key` and `verify` are those of Ed25519,
-- and `diffie_hellman` is X25519 with a secret of its own.
pub record Externals : Type 1 where
  pub aead : Aead
  pub hkdf : Hkdf
  pub timing : Timing
  pub file_system : FileSystem
  pub Address : Type 0
  pub send_to : List ℕ → Address → Bool
  pub tun_accepts : List ℕ → Bool
  pub Pool : Type 0
  pub new_pool : ℕ → Pool
  pub pop : Pool → Pool
  pub push : Pool → Pool
  pub VerifyingKey : Type 0
  pub parse_key : List ℕ → Option VerifyingKey
  pub verify : VerifyingKey → List ℕ → List ℕ → Bool
  pub diffie_hellman : List ℕ → List ℕ
