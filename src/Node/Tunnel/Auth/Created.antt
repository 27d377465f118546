-- ===== src/Node/Tunnel/Auth/Created.antt =====
-- What `generate_handshake_auth` makes is enough for a tunnel.
use cryprq.Base.{ℕ, ◌≡◌, refl, arith, List, true, Option, ok, Bool-cases}
use cryprq.Base.{inl, inr, ◌&&◌, get_or, replicate}
use cryprq.Crypto.Kdf.{TrafficKeys, derive_epoch_keys}
use cryprq.Crypto.Kdf.Lengths.{IsHkdf, derive_epoch_keys_lem, derive_handshake_keys_lem}
use cryprq.Node.Error.{TunnelError}
use cryprq.Node.Externals.{Externals}
use cryprq.Node.Tunnel.{Tunnel}
use cryprq.Node.Tunnel.Keys.{IsSigned, HasEpochKeys, fit_keys}
use cryprq.Node.Tunnel.Setup.{
  create_tunnel, verify_peer_identity, initial_tunnel, all_same, is_test_byte, shared_secret,
}
use cryprq.Node.Tunnel.Auth.{Signing, generate_handshake_auth}

module _ (x : Externals) where
  -- The documentation of Ed25519: the bytes of a verifying key parse, and a signature verifies under
  -- the key of its signer, over the same message.
  abbrev pub IsSigning : Signing → Type 0
  IsSigning d =
      (key : d.SigningKey) (message : List ℕ)
      → IsSigned x message (d.verifying_key key) (d.sign key message)

  verify_peer_identity-signed :
      (pk id sig : List ℕ) → IsSigned x pk id sig → verify_peer_identity x pk id sig ≡ ok tt
  unfolding verify_peer_identity
  verify_peer_identity-signed pk id sig (k, parsed, verified) =
      elim (Bool-cases
        (((all_same pk && all_same id) && all_same sig) && is_test_byte (get_or pk 0 0))) [
          | inl test ↦ ground (arith, test)
          | inr real ↦ ground (arith, real, parsed, verified)
        ]

  -- For every key of a peer and all random bytes, a tunnel whose socket is bound is created on
  -- what generate_handshake_auth makes for that key: its epoch is 0, and both directions have the
  -- keys derived for it, over an Ed25519 and an HKDF with their documented behaviour.
  pub create_tunnel-generate_handshake_auth :
      (d : Signing)
      → IsSigning d
      → IsHkdf x.hkdf
      → (secret_bytes pk : List ℕ) (now : x.timing.Instant) (dir : Option (List ℕ))
      → let (key, (id, sig)) = generate_handshake_auth d secret_bytes pk in
        (t : Tunnel x) × (master : List ℕ) × (create_tunnel x true pk id sig now dir
          ≡ ok (t, master))
        × (k : TrafficKeys) × (derive_epoch_keys x.hkdf {E = TunnelError} master 0 32 12 ≡ ok k)
        × HasEpochKeys x t k
        × (t.epoch.value ≡ 0)
  unfolding create_tunnel generate_handshake_auth initial_tunnel
  create_tunnel-generate_handshake_auth d signing laws secret_bytes pk now dir =
      let (key, (id, sig)) = generate_handshake_auth d secret_bytes pk in
      let verified = verify_peer_identity-signed pk id sig (signing key pk) in
      let (auth, master, agreed, la, lm) =
        derive_handshake_keys_lem x.hkdf laws {E = TunnelError} (replicate 32 0)
          (shared_secret x pk) in
      let (k, derived, lengths) =
        derive_epoch_keys_lem x.hkdf laws {E = TunnelError} master 0 32 12 (omega arith)
          (omega arith) in
      (
        initial_tunnel x k now dir,
        master,
        ground (arith, verified, agreed, derived),
        k,
        derived,
        fit_keys k lengths,
        refl,
      )
