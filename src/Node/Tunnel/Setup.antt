-- ===== src/Node/Tunnel/Setup.antt =====
-- `verify_peer_identity`, `create_tunnel_with_output_dir` and the key rotation task of node/src/lib.rs.
use cryprq.Base.{
  ℕ, ◌-◌, List, [], ◌∷◌, ◌++◌, length, take, replicate, get_or, ◌==◌, ◌||◌, ◌&&◌, not, Bool, true,
}
use cryprq.Base.{
  Option, none, some, Outcome, ok, err, panicked, ◌>>=◌, ◌>>◌, reject_if, if◌then◌else◌,
}
use cryprq.Base.Bytes.{bytes_of}
use cryprq.Crypto.Kdf.{TrafficKeys, derive_handshake_keys, derive_epoch_keys}
use cryprq.Node.Error.{TunnelError, invalid_peer_identity, io_error}
use cryprq.Node.Externals.{Externals}
use cryprq.Node.CryptoUtils.{initial, next}
use cryprq.Node.SeqCounters
use cryprq.Node.RecordLayer.{DirectionKeys}
use cryprq.Node.Replay
use cryprq.Node.RateLimiter
use cryprq.Node.FileTransfer
use cryprq.Node.Tunnel.{Tunnel}

-- `xs.iter().all(|&b| b == xs[0])`
abbrev pub all_equal : List ℕ → ℕ → Bool
all_equal [] b = true
all_equal (c ∷ cs) b = (c == b) && all_equal cs b

abbrev pub all_same : List ℕ → Bool
all_same xs = all_equal xs (get_or xs 0 0)

-- The test for a test key, `peer_pk[0] == 0x01 || … || peer_pk[0] == 0x04`.
abbrev pub is_test_byte : ℕ → Bool
is_test_byte b = (b == 0x01 || b == 0x02) || (b == 0x03 || b == 0x04)

-- Into an array of `n` zeros: `k[..len.min(n)].copy_from_slice(&xs[..len.min(n)])`.
unfoldable pub fit : ℕ → List ℕ → List ℕ
fit n xs = take n xs ++ replicate (n - length xs) 0

abbrev pub keys_ir : TrafficKeys → DirectionKeys
keys_ir k = record { key = fit 32 k.key_ir; iv = fit 12 k.iv_ir }

abbrev pub keys_ri : TrafficKeys → DirectionKeys
keys_ri k = record { key = fit 32 k.key_ri; iv = fit 12 k.iv_ri }

module _ (x : Externals) where
  unfoldable pub verify_peer_identity : List ℕ → List ℕ → List ℕ → Outcome TunnelError (Unit {0})
  verify_peer_identity peer_pk peer_identity_key signature =
      let is_test_key = (all_same peer_pk && all_same peer_identity_key) && all_same signature in
      if is_test_key && is_test_byte (get_or peer_pk 0 0)
      then ok tt
      else elim (x.parse_key peer_identity_key) [
        | none ↦ err invalid_peer_identity
        | some verifying_key ↦
            reject_if (not (x.verify verifying_key peer_pk signature)) invalid_peer_identity
      ]

  -- The shared secret: a fixed one for a test key.
  unfoldable pub shared_secret : List ℕ → List ℕ
  shared_secret peer_pk =
      if all_same peer_pk && is_test_byte (get_or peer_pk 0 0)
      then replicate 32 0xaa
      else x.diffie_hellman peer_pk

  unfoldable pub initial_tunnel : TrafficKeys → x.timing.Instant → Option (List ℕ) → Tunnel x
  initial_tunnel keys now file_output_dir = record {
    session_key = fit 32 keys.key_ir;
    static_iv = fit 12 keys.iv_ir;
    epoch = initial;
    keys_outbound = keys_ir keys;
    keys_inbound = keys_ri keys;
    seq_counters = SeqCounters.new;
    peer_addr = none;
    nonce_counter = 0;
    replay_window = Replay.new;
    rate_limiter = RateLimiter.new x.timing 1000 2000 now;
    buffer_pool = x.new_pool 32;
    tun_write_tx = none;
    file_transfer =
        FileTransfer.new (elim file_output_dir [ none ↦ bytes_of "/tmp" | some dir ↦ dir ]);
    sent = [];
    to_tun = [];
    files = [];
  }

  -- `create_tunnel_with_output_dir` after the bind, which succeeded or not: the tunnel, and the
  -- master secret that the rotation task keeps.
  unfoldable pub create_tunnel :
      Bool
      → List ℕ
      → List ℕ
      → List ℕ
      → x.timing.Instant
      → Option (List ℕ)
      → Outcome TunnelError (Tunnel x × List ℕ)
  create_tunnel bound peer_pk peer_identity_key peer_signature now file_output_dir = do
    reject_if (not bound) io_error
    verify_peer_identity peer_pk peer_identity_key peer_signature
    let ss_x = shared_secret peer_pk
    let ss_kem = replicate 32 0
    (_, master_secret) ← derive_handshake_keys x.hkdf ss_kem ss_x
    keys ← derive_epoch_keys x.hkdf master_secret 0 32 12
    ok (initial_tunnel keys now file_output_dir, master_secret)

  -- A round of the rotation task. The epoch is stored before the keys are derived.
  unfoldable pub rotate : List ℕ → Tunnel x → Outcome TunnelError (Unit {0}) × Tunnel x
  rotate master_secret t =
      let new_epoch = next t.epoch in
      elim (derive_epoch_keys x.hkdf {E = TunnelError} master_secret new_epoch.value 32 12) [
        | ok keys ↦ (
          ok tt,
          record t {
            epoch = new_epoch;
            keys_outbound = keys_ir keys;
            keys_inbound = keys_ri keys;
            seq_counters = SeqCounters.reset t.seq_counters;
          },
        )
        | err e ↦ (err e, record t { epoch = new_epoch })
        | panicked ↦ (panicked, record t { epoch = new_epoch })
      ]
