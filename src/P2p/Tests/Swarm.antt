-- ===== src/P2p/Tests/Swarm.antt =====
-- The theorems on the event loops at concrete inputs.
use cryprq.Base.{ℕ, suc, ◌+◌, ◌%◌, ◌^◌, ◌≡◌, ◌≢◌, ◌⊎◌, refl, List, [], ◌∷◌, ◌++◌, Bool, true, false}
use cryprq.Base.{none, some, ok, not}
use cryprq.P2p.Backoff.{BackoffConfig}
use cryprq.P2p.Metrics.{Metrics}
use cryprq.P2p.Peers.{peer_is_allowed}
use cryprq.P2p.Swarm
use cryprq.P2p.Swarm.Requests.{
  collect, response_channel, request_channel, forwarded, disconnected, denied, routed, events_of,
  listener_run-requests,
}
use cryprq.P2p.Swarm.Handshakes.{
  count, is_attempt, is_success, is_failure, is_closed, listener_run-metrics,
}
use cryprq.P2p.Swarm.Dialing.{has_error, dialer_run-ends}
use cryprq.P2p.Startup

abbrev friend : List ℕ
friend = 1 ∷ []

abbrev stranger : List ℕ
stranger = 2 ∷ []

abbrev config : BackoffConfig
config = record { base_ms = 500; max_ms = 30000 }

abbrev metrics : Metrics
metrics = record {
  handshakes_attempted = 0;
  handshakes_success = 0;
  handshakes_failed = 0;
  rotations_total = 0;
  rotation_duration = 0;
  rotation_interval = 0;
  rotation_epoch = 0;
  active_peers = 0;
  healthy = false;
  rotation_counter = 0;
}

abbrev node : Swarm.Node ℕ
node = record {
  peers = record {
    allowed_peers = some (friend ∷ []);
    keys = none;
    ppk_store = [];
    local_epoch = 0;
  };
  backoff = λ address. none;
  metrics = metrics;
  packet_recv_tx = λ peer. some 4;
  connection_callback = true;
  file_transfer_callback = some (λ calls peer packet. (Swarm.accepted packet, suc calls));
  captured = 0;
}

abbrev is_open : ℕ → Bool
is_open recv_tx = true

abbrev events : List Swarm.LoopEvent
events =
    Swarm.connection_established friend []
    ∷ Swarm.connection_established stranger []
    ∷ Swarm.request_response (Swarm.request friend 7 (9 ∷ 9 ∷ 9 ∷ 9 ∷ []))
    ∷ Swarm.request_response (Swarm.request friend 8 (0 ∷ 0 ∷ 0 ∷ 2 ∷ []))
    ∷ Swarm.registered friend 5
    ∷ Swarm.request_response (Swarm.request friend 9 (9 ∷ 9 ∷ 9 ∷ 8 ∷ []))
    ∷ Swarm.connection_closed stranger
    ∷ []

abbrev at_once : List Swarm.LoopEvent → List (ℕ × Swarm.LoopEvent)
at_once [] = []
at_once (event ∷ rest) = (0, event) ∷ at_once rest

listener_run-requests_example :
    let actions = (Swarm.listener_run config is_open node (at_once events)).0 in
    (collect response_channel actions ≡ collect request_channel (events_of (at_once events)))
    × (collect forwarded actions ≡ routed is_open node.packet_recv_tx (events_of (at_once events)))
    × (collect disconnected actions ≡ collect (denied node.peers) (events_of (at_once events)))
listener_run-requests_example = listener_run-requests config is_open node (at_once events)

listener_run-metrics_example :
    let m = (Swarm.listener_run config is_open node (at_once events)).1.metrics in
    (m.handshakes_attempted % 2 ^ 64
      ≡ (count is_attempt (at_once events) + metrics.handshakes_attempted) % 2 ^ 64)
    × (m.handshakes_success % 2 ^ 64
        ≡ (count (is_success node.peers) (at_once events) + metrics.handshakes_success) % 2 ^ 64)
    × (m.handshakes_failed % 2 ^ 64
        ≡ (count (is_failure node.peers) (at_once events) + metrics.handshakes_failed) % 2 ^ 64)
    × ((m.active_peers + count is_closed (at_once events)) % 2 ^ 64
        ≡ (count (is_success node.peers) (at_once events) + metrics.active_peers) % 2 ^ 64)
listener_run-metrics_example = listener_run-metrics config is_open node (at_once events)

dialer_run-ends_example :
    ((Swarm.dialer_run config is_open node (Swarm.outgoing_connection_error ∷ events)).0
      ≡ not (has_error (Swarm.outgoing_connection_error ∷ events)))
    × (has_error (Swarm.outgoing_connection_error ∷ events) ≡ true
        → Swarm.dialer_run config is_open node
            ((Swarm.outgoing_connection_error ∷ events) ++ events)
          ≡ Swarm.dialer_run config is_open node (Swarm.outgoing_connection_error ∷ events))
dialer_run-ends_example =
    dialer_run-ends config is_open node (Swarm.outgoing_connection_error ∷ events) events

abbrev lib : Startup.Libp2p
lib = record {
  can_init = true;
  parse = λ text. some (Startup.transport text ∷ Startup.p2p friend ∷ []);
  can_listen = λ address. true;
  can_dial = λ target. true;
}

abbrev dialed : List Startup.Protocol
dialed = Startup.transport (5 ∷ []) ∷ []

dials : Startup.dial lib node (5 ∷ []) ≡ ok (Startup.peer_at friend dialed)
unfolding Startup.dial Startup.dial_target peer_is_allowed
dials = refl

dial_lem_example :
    (dial_addr : List Startup.Protocol) × (lib.parse (5 ∷ []) ≡ some dial_addr)
    × (lib.can_dial (Startup.peer_at friend dialed) ≡ true)
    × ((((address : List Startup.Protocol) (peer_id : List ℕ)
            → dial_addr ≢ address ++ (Startup.p2p peer_id ∷ []))
          × (Startup.peer_at friend dialed ≡ Startup.address_only dial_addr))
        ⊎ ((peer_id : List ℕ) × ((address : List Startup.Protocol) × (dial_addr
                ≡ address ++ (Startup.p2p peer_id ∷ []))
              × (Startup.peer_at friend dialed ≡ Startup.peer_at peer_id address)
              × (peer_is_allowed node.peers peer_id ≡ true))))
dial_lem_example = Startup.dial_lem lib node (5 ∷ []) (Startup.peer_at friend dialed) dials
