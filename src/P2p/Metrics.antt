-- ===== src/P2p/Metrics.antt =====
-- p2p/src/metrics.rs: the counters and gauges of the node, and what its server answers.
use cryprq.Base.{ℕ, ◌+◌, ◌-◌, ◌%◌, ◌^◌, List, Bool, true, bytes_eq, if◌then◌else◌}
use cryprq.Base.Bytes.{bytes_of}

-- A metric of the registry, or one of the statics `HEALTHY` and `ROTATION_COUNTER`. Durations are
-- in nanoseconds. The counters are atomics of 64 bits and wrap; so does the signed gauge
-- `ACTIVE_PEERS`, which stands in two's complement: -1 is 2 ^ 64 - 1.
pub record Metrics : Type 0 where
  pub handshakes_attempted : ℕ
  pub handshakes_success : ℕ
  pub handshakes_failed : ℕ
  pub rotations_total : ℕ
  pub rotation_duration : ℕ
  pub rotation_interval : ℕ
  pub rotation_epoch : ℕ
  pub active_peers : ℕ
  pub healthy : Bool
  pub rotation_counter : ℕ

abbrev pub mark_swarm_initialized : Metrics → Metrics
mark_swarm_initialized m = record m { healthy = true }

abbrev pub record_handshake_attempt : Metrics → Metrics
record_handshake_attempt m = record m {
  handshakes_attempted = (m.handshakes_attempted + 1) % 2 ^ 64;
}

abbrev pub record_handshake_success : Metrics → Metrics
record_handshake_success m = record m { handshakes_success = (m.handshakes_success + 1) % 2 ^ 64 }

abbrev pub record_handshake_failure : Metrics → Metrics
record_handshake_failure m = record m { handshakes_failed = (m.handshakes_failed + 1) % 2 ^ 64 }

abbrev pub inc_active_peers : Metrics → Metrics
inc_active_peers m = record m { active_peers = (m.active_peers + 1) % 2 ^ 64 }

abbrev pub dec_active_peers : Metrics → Metrics
dec_active_peers m = record m { active_peers = (m.active_peers + (2 ^ 64 - 1)) % 2 ^ 64 }

abbrev pub set_rotation_interval : Metrics → ℕ → Metrics
set_rotation_interval m interval = record m { rotation_interval = interval }

-- `record_rotation_success`, with the number of the rotation that it returns.
unfoldable pub record_rotation_success : Metrics → ℕ → ℕ → ℕ × Metrics
record_rotation_success m duration epoch =
    let counter = (m.rotation_counter + 1) % 2 ^ 64 in
    (
      counter,
      record m {
        rotation_counter = counter;
        rotations_total = (m.rotations_total + 1) % 2 ^ 64;
        rotation_duration = duration;
        rotation_epoch = epoch;
      },
    )

-- An answer of the server: the status and the body.
abbrev pub Response : Type 0
Response = ℕ × List ℕ

unfoldable pub health_response : Metrics → Response
health_response m = if m.healthy then (200, bytes_of "ok") else (503, bytes_of "initializing")

-- `handle_request` on the path of a request; `encode` is the text encoder of the crate prometheus.
unfoldable pub handle_http : (Metrics → List ℕ) → Metrics → List ℕ → Response
handle_http encode m path =
    if bytes_eq path (bytes_of "/metrics")
    then (200, encode m)
    else if bytes_eq path (bytes_of "/healthz")
    then health_response m
    else (404, bytes_of "not found")
