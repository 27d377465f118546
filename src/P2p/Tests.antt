-- ===== src/P2p/Tests.antt =====
-- The theorems on peers and back-off at concrete inputs.
mod Swarm
use cryprq.Base.{
  ℕ, ◌+◌, ◌*◌, ◌≤◌, ◌^◌, ◌≡◌, ◌≢◌, ◌⊎◌, ◌↔◌, ap, arith, min, leb, List, [], ◌∷◌, get_or,
}
use cryprq.Base.{Option, none, some, ok, true, if◌then◌else◌}
use cryprq.Crypto.Ppk.{derive}
use cryprq.P2p.Backoff.{
  BackoffConfig, Backoff, compute_backoff_duration, allow_incoming, failures_of, record_failure,
  clear_backoff_for,
}
use cryprq.P2p.Backoff.Delay.{
  compute_backoff_duration_lem, compute_backoff_duration_monotone, delay_after,
  allow_incoming-record_failure, record_failure_other,
}
use cryprq.Base.{◌<◌, length, ◌++◌, err, false}
use cryprq.P2p.Settings.{backoff_config, record_failure-delay}
use cryprq.Base.Io.{packet_too_large}
use cryprq.P2p.Packets.{
  read_packet, write_packet, DataChunk, serialize_chunk, deserialize_chunk, is_end_packet,
  create_end_packet,
}
use cryprq.P2p.Packets.Codec.{read_packet-write_packet, deserialize_chunk-serialize_chunk}
use cryprq.P2p.Peers.{
  PeerState, set_allowed_peers, peer_is_allowed, rotate_once, derive_and_store_ppk,
  get_ppk_for_peer,
}
use cryprq.P2p.Peers.Access.{Names, peer_is_allowed-set_allowed_peers, get_ppk_for_peer-rotate_once}

abbrev config : BackoffConfig
config = record { base_ms = 500; max_ms = 30000 }

abbrev no_failures : Backoff
no_failures = λ key. none

abbrev address : List ℕ
address = 1 ∷ []

abbrev other_address : List ℕ
other_address = 2 ∷ []

-- A base of 7 ms, and no maximum.
abbrev base_text : Option (List ℕ)
base_text = some (0x37 ∷ [])

record_failure-delay_example :
    let config = backoff_config base_text none in
    (delay : ℕ) × (10 ^ 6 ≤ delay)
    × (delay ≤ config.max_ms * 10 ^ 6)
    × ((later : ℕ)
        → (allow_incoming (record_failure config no_failures address 100) address later).0
          ≡ leb (100 + delay) later)
record_failure-delay_example = record_failure-delay base_text none no_failures address 100

abbrev state : PeerState
state = record { allowed_peers = none; keys = none; ppk_store = []; local_epoch = 0 }

abbrev allowed : List (List ℕ)
allowed = address ∷ other_address ∷ []

abbrev from_str : List ℕ → Option (List ℕ)
from_str = λ text. some text

abbrev blake3 : List ℕ → List ℕ
blake3 = λ input. input

abbrev packet : List ℕ
packet = 1 ∷ 2 ∷ 3 ∷ []

abbrev chunk : DataChunk
chunk = record { chunk_id = 7; data' = packet }
