-- ===== src/Node/Tunnel/TestKeys.antt =====
-- The tunnels of the two sides of a file transfer: the test keys that the code has for both.
use cryprq.Base.{ℕ, List, replicate, ◌≡◌, refl, arith, Option, true, ok}
use cryprq.Crypto.Kdf.{TrafficKeys}
use cryprq.Crypto.Kdf.Lengths.{IsHkdf, derive_handshake_keys_lem, derive_epoch_keys_lem}
use cryprq.Node.Error.{TunnelError}
use cryprq.Node.Externals.{Externals}
use cryprq.Node.Tunnel.Setup.{create_tunnel, verify_peer_identity, shared_secret, initial_tunnel}

module _ (x : Externals) where
  test_keys_verified :
      verify_peer_identity x (replicate 32 2) (replicate 32 3) (replicate 64 4) ≡ ok tt
  unfolding verify_peer_identity
  test_keys_verified = refl

  test_secret : shared_secret x (replicate 32 2) ≡ replicate 32 0xaa
  unfolding shared_secret
  test_secret = refl

  -- Every tunnel with the test keys has the same traffic keys.
  pub create_tunnel-test :
      IsHkdf x.hkdf
      → (keys : TrafficKeys) × (master : List ℕ) × ((now : x.timing.Instant) (dir : Option (List ℕ))
          → create_tunnel x true (replicate 32 2) (replicate 32 3) (replicate 64 4) now dir
            ≡ ok (initial_tunnel x keys now dir, master))
  unfolding create_tunnel
  create_tunnel-test laws =
      let (auth, master, derived, _, _) =
        derive_handshake_keys_lem x.hkdf laws {E = TunnelError} (replicate 32 0)
          (replicate 32 0xaa) in
      let (keys, expanded, _) =
        derive_epoch_keys_lem x.hkdf laws {E = TunnelError} master 0 32 12 (omega arith)
          (omega arith) in
      (keys, master, λ now dir. rw (test_keys_verified, test_secret, derived, expanded) refl)
