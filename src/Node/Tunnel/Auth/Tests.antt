-- ===== src/Node/Tunnel/Auth/Tests.antt =====
-- The theorem on the credentials of a handshake at concrete inputs.
use cryprq.Base.{ℕ, ◌≡◌, refl, List, ◌∷◌, ◌++◌, replicate, true, none, ok}
use cryprq.Crypto.Kdf.{TrafficKeys, derive_epoch_keys}
use cryprq.Node.Error.{TunnelError}
use cryprq.Node.Example.{externals, hkdf-IsHkdf}
use cryprq.Node.Tunnel.{Tunnel}
use cryprq.Node.Tunnel.Auth.{Signing, generate_handshake_auth}
use cryprq.Node.Tunnel.Auth.Created.{IsSigning, create_tunnel-generate_handshake_auth}
use cryprq.Node.Tunnel.Keys.{HasEpochKeys}
use cryprq.Node.Tunnel.Setup.{create_tunnel}

abbrev signing : Signing
signing = record {
  SigningKey = List ℕ;
  from_bytes = λ secret. secret;
  verifying_key = λ key. key;
  sign = λ key message. key ++ message;
}

signing-IsSigning : IsSigning externals signing
signing-IsSigning = λ key message. (key, refl, refl)

abbrev secret : List ℕ
secret = 9 ∷ replicate 31 8

abbrev peer_key : List ℕ
peer_key = 1 ∷ replicate 31 6

create_tunnel-generate_handshake_auth_example :
    let (key, (id, sig)) = generate_handshake_auth signing secret peer_key in
    (t : Tunnel externals) × (master : List ℕ) × (create_tunnel externals true peer_key id sig 50
        none
      ≡ ok (t, master))
    × (k : TrafficKeys) × (derive_epoch_keys externals.hkdf {E = TunnelError} master 0 32 12 ≡ ok k)
    × HasEpochKeys externals t k
    × (t.epoch.value ≡ 0)
create_tunnel-generate_handshake_auth_example =
    create_tunnel-generate_handshake_auth externals signing signing-IsSigning hkdf-IsHkdf secret
      peer_key 50 none
