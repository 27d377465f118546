-- ===== src/Node/Error.antt =====
-- `TunnelError` of node/src/error.rs. Of a message only its fixed text is kept, and of an I/O error
-- that it is one.
use Prim.Native.String.{String}

pub data TunnelError : Type 0 where
  lock_poisoned : TunnelError
  encryption_failed : TunnelError
  decryption_failed : TunnelError
  invalid_nonce : TunnelError
  nonce_overflow : TunnelError
  replay_detected : TunnelError
  rate_limit_exceeded : TunnelError
  invalid_peer_identity : TunnelError
  handshake_failed : String → TunnelError
  network_error : TunnelError
  io_error : TunnelError
