-- ===== src/P2p/Peers.antt =====
-- The allowed peers, the node's key pair and the pre-shared keys of p2p/src/lib.rs.
pub mod Access
use cryprq.Base.{ℕ, ◌+◌, ◌*◌, ◌%◌, ◌^◌, List, [], ◌∷◌, Bool, true, false, bytes_eq, ◌||◌}
use cryprq.Base.{Option, none, some, Outcome, ok, err, panicked, ◌>>=◌}
use cryprq.Crypto.Ppk.{PostQuantumPsk, PpkStore, derive, store, get, cleanup_expired}

-- The statics `ALLOWED_PEERS`, `KEYS` and `PPK_STORE`, and `LOCAL_EPOCH` of `rotate_once`.
pub record PeerState : Type 0 where
  pub allowed_peers : Option (List (List ℕ))
  pub keys : Option (List ℕ × List ℕ)
  pub ppk_store : PpkStore
  pub local_epoch : ℕ

-- The error of `set_allowed_peers`, with the entry that is no peer identity.
pub data P2pError : Type 0 where
  invalid_peer_id : List ℕ → P2pError

-- `PeerId::from_str` of the crate libp2p, to the bytes of the identity.
unfoldable pub parse_peer : (List ℕ → Option (List ℕ)) → List ℕ → Outcome P2pError (List ℕ)
parse_peer from_str entry = elim (from_str entry) [
  | none ↦ err (invalid_peer_id entry)
  | some peer_id ↦ ok peer_id
]

-- The loop over the entries.
unfoldable pub parse_peers :
    (List ℕ → Option (List ℕ)) → List (List ℕ) → Outcome P2pError (List (List ℕ))
parse_peers from_str [] = ok []
parse_peers from_str (entry ∷ peers) = do
  peer_id ← parse_peer from_str entry
  set ← parse_peers from_str peers
  ok (peer_id ∷ set)

unfoldable pub set_allowed_peers :
    (List ℕ → Option (List ℕ)) → PeerState → List (List ℕ) → Outcome P2pError (Unit {0}) × PeerState
set_allowed_peers from_str s peers = elim (parse_peers from_str peers) [
  | ok set ↦ (ok tt, record s { allowed_peers = some set })
  | err e ↦ (err e, s)
  | panicked ↦ (panicked, s)
]

abbrev pub is_member : List ℕ → List (List ℕ) → Bool
is_member peer_id [] = false
is_member peer_id (p ∷ set) = bytes_eq p peer_id || is_member peer_id set

unfoldable pub peer_is_allowed : PeerState → List ℕ → Bool
peer_is_allowed s peer_id = elim s.allowed_peers [ none ↦ true | some set ↦ is_member peer_id set ]

-- `rotate_once` with the new key pair and the time in seconds.
unfoldable pub rotate_once : PeerState → List ℕ × List ℕ → ℕ → PeerState
rotate_once s key_pair now = record s {
  keys = some key_pair;
  ppk_store = cleanup_expired s.ppk_store now;
  local_epoch = (s.local_epoch + 1) % 256;
}

-- `derive_and_store_ppk` with its random salt; a key lives for two intervals.
unfoldable pub derive_and_store_ppk :
    (List ℕ → List ℕ) → PeerState → List ℕ → List ℕ → List ℕ → ℕ → ℕ → PeerState
derive_and_store_ppk blake3 s kyber_shared peer_id_bytes salt rotation_interval_secs now =
    let ppk =
      derive blake3 kyber_shared peer_id_bytes salt (rotation_interval_secs * 2 % 2 ^ 64) now in
    record s { ppk_store = store s.ppk_store ppk }

unfoldable pub get_ppk_for_peer : PeerState → List ℕ → ℕ → Option PostQuantumPsk
get_ppk_for_peer s peer_id_bytes now = get s.ppk_store peer_id_bytes now
