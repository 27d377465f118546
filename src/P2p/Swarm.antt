-- ===== src/P2p/Swarm.antt =====
-- The event loops of p2p/src/lib.rs: `start_listener` and `dial_peer`.
pub mod Requests
pub mod Handshakes
pub mod Dialing
use cryprq.Base.{ℕ, List, [], ◌∷◌, ◌++◌, length, slice, ltb, leb, ◌&&◌, Bool, true, false}
use cryprq.Base.{Option, none, some, if◌then◌else◌}
use cryprq.Base.Bytes.{from_be_bytes, bytes_of}
use cryprq.Base.Maps.{Table, assign}
use cryprq.P2p.Backoff.{BackoffConfig, Backoff, allow_incoming, record_failure, clear_backoff_for}
use cryprq.P2p.Peers.{PeerState, peer_is_allowed, rotate_once}
use cryprq.P2p.Metrics.{
  Metrics, record_handshake_attempt, record_handshake_success, record_handshake_failure,
  inc_active_peers, dec_active_peers, set_rotation_interval, record_rotation_success,
  mark_swarm_initialized,
}

-- What a file callback returns: `Ok(response)`, or `Err(e)` with the text of the error.
pub data FileResult : Type 0 where
  accepted : List ℕ → FileResult
  refused : List ℕ → FileResult

-- A callback with the state that it captures.
abbrev pub FileTransferCallback : Type 0 → Type 0
FileTransferCallback S = S → List ℕ → List ℕ → FileResult × S

-- The statics of the crate. `packet_recv_tx` gives the channel of a peer; `captured` is the state
-- behind the file callback, and `connection_callback` says whether the other callback is set.
pub record Node (S : Type 0) : Type 0 where
  pub peers : PeerState
  pub backoff : Backoff
  pub metrics : Metrics
  pub packet_recv_tx : Table ℕ
  pub connection_callback : Bool
  pub file_transfer_callback : Option (FileTransferCallback S)
  pub captured : S

-- `request_response::Event`: a request comes with the channel for its response.
pub data RequestEvent : Type 0 where
  request : List ℕ → ℕ → List ℕ → RequestEvent
  response : List ℕ → List ℕ → RequestEvent
  outbound_failure inbound_failure response_sent : RequestEvent

-- What a run of a loop consists of: the events of `SwarmEvent`, with peers and addresses as byte
-- strings, and, between two of them, the step in which the task that the connection callback has
-- spawned calls `register_packet_recv_tx`.
pub data LoopEvent : Type 0 where
  registered : List ℕ → ℕ → LoopEvent
  new_listen_addr : List ℕ → LoopEvent
  connection_established : List ℕ → List ℕ → LoopEvent
  incoming_connection : List ℕ → LoopEvent
  incoming_connection_error : List ℕ → LoopEvent
  outgoing_connection_error : LoopEvent
  connection_closed : List ℕ → LoopEvent
  dialing : Option (List ℕ) → LoopEvent
  ping limits : LoopEvent
  request_response : RequestEvent → LoopEvent
  other : LoopEvent

-- What a loop asks of the swarm, of the connection callback and of the channels to the TUN device.
pub data Action : Type 0 where
  disconnect : List ℕ → Action
  connected : List ℕ → Action
  respond : ℕ → List ℕ → Action
  forward : ℕ → List ℕ → Action

module _ {S : Type 0} where
  -- `set_file_transfer_callback`, `set_connection_callback` and `register_packet_recv_tx`.
  abbrev pub set_file_transfer_callback : Node S → FileTransferCallback S → S → Node S
  set_file_transfer_callback s callback captured = record s {
    file_transfer_callback = some callback;
    captured = captured;
  }

  abbrev pub set_connection_callback : Node S → Node S
  set_connection_callback s = record s { connection_callback = true }

  abbrev pub register_packet_recv_tx : Node S → List ℕ → ℕ → Node S
  register_packet_recv_tx s peer_id recv_tx = record s {
    packet_recv_tx = assign s.packet_recv_tx peer_id (some recv_tx);
  }

  abbrev pub get_packet_recv_tx : Node S → List ℕ → Option ℕ
  get_packet_recv_tx s peer_id = s.packet_recv_tx peer_id

  abbrev pub with_metrics : Node S → Metrics → Node S
  with_metrics s metrics = record s { metrics = metrics }

-- Whether a request is a file transfer packet: one of the types 0, 1 and 2.
unfoldable pub is_file_transfer : List ℕ → Bool
is_file_transfer packet = leb 4 (length packet) && ltb (from_be_bytes (slice packet 0 4)) 3

abbrev pub not_enabled : List ℕ
not_enabled = bytes_of "File transfer not enabled"

-- The response to a file transfer request.
abbrev pub reply : FileResult → List ℕ
reply (accepted bytes) = bytes
reply (refused e) = e

-- A run of the loop needs the times of the back-off, and whether a channel's receiver is alive.
module _ {S : Type 0} (config : BackoffConfig) (is_open : ℕ → Bool) where
  -- A packet goes to the channel of its peer, if there is one that is open.
  unfoldable pub forward_packet : Node S → List ℕ → List ℕ → List Action
  forward_packet s peer packet = elim (get_packet_recv_tx s peer) [
    | none ↦ []
    | some recv_tx ↦ if is_open recv_tx then forward recv_tx packet ∷ [] else []
  ]

  -- The arm for a request, the same in both loops.
  unfoldable pub handle_request : Node S → List ℕ → ℕ → List ℕ → List Action × Node S
  handle_request s peer channel packet =
      if is_file_transfer packet
      then elim s.file_transfer_callback [
        | none ↦ (respond channel not_enabled ∷ [], s)
        | some callback ↦
            let (result, captured) = callback s.captured peer packet in
            (respond channel (reply result) ∷ [], record s { captured = captured })
      ]
      else (respond channel [] ∷ forward_packet s peer packet, s)

  unfoldable pub handle_request_response : Node S → RequestEvent → List Action × Node S
  handle_request_response s (request peer channel packet) = handle_request s peer channel packet
  handle_request_response s (response peer bytes) = ([], s)
  handle_request_response s outbound_failure = ([], s)
  handle_request_response s inbound_failure = ([], s)
  handle_request_response s response_sent = ([], s)

  -- The connection callback, if it is set.
  abbrev pub call_connected : Node S → List ℕ → List Action
  call_connected s peer_id = if s.connection_callback then connected peer_id ∷ [] else []

  -- An established connection. Only the listener counts the peer as active.
  unfoldable pub establish : Bool → Node S → List ℕ → List ℕ → List Action × Node S
  establish inbound s peer_id endpoint =
      if peer_is_allowed s.peers peer_id
      then (
        call_connected s peer_id,
        record s {
          metrics =
              (let m = record_handshake_success s.metrics in
                if inbound then inc_active_peers m else m);
          backoff = clear_backoff_for s.backoff endpoint;
        },
      )
      else (disconnect peer_id ∷ [], with_metrics s (record_handshake_failure s.metrics))

  -- One turn of the loop of `start_listener`, at a time.
  unfoldable pub listener_step : ℕ → Node S → LoopEvent → List Action × Node S
  listener_step now s (registered peer_id recv_tx) = ([], register_packet_recv_tx s peer_id recv_tx)
  listener_step now s (new_listen_addr address) = ([], s)
  listener_step now s (connection_established peer_id endpoint) = establish true s peer_id endpoint
  listener_step now s (incoming_connection send_back_addr) = (
    [],
    record s {
      metrics = record_handshake_attempt s.metrics;
      backoff = (allow_incoming s.backoff send_back_addr now).1;
    },
  )
  listener_step now s (incoming_connection_error send_back_addr) = (
    [],
    record s {
      metrics = record_handshake_failure s.metrics;
      backoff = record_failure config s.backoff send_back_addr now;
    },
  )
  listener_step now s (connection_closed peer_id) =
      ([], with_metrics s (dec_active_peers s.metrics))
  listener_step now s (request_response event) = handle_request_response s event
  listener_step now s outgoing_connection_error = ([], s)
  listener_step now s (dialing peer_id) = ([], s)
  listener_step now s ping = ([], s)
  listener_step now s limits = ([], s)
  listener_step now s other = ([], s)

  -- The loop of `start_listener` over the events that arrive, with their times.
  unfoldable pub listener_run : Node S → List (ℕ × LoopEvent) → List Action × Node S
  listener_run s [] = ([], s)
  listener_run s ((now, event) ∷ events) =
      let (actions, s') = listener_step now s event in
      let (later, s'') = listener_run s' events in (actions ++ later, s'')

  -- One turn of the loop of `dial_peer`; `true` goes on, `false` returns the dial error.
  unfoldable pub dialer_step : Node S → LoopEvent → Bool × (List Action × Node S)
  dialer_step s (registered peer_id recv_tx) =
      (true, ([], register_packet_recv_tx s peer_id recv_tx))
  dialer_step s (connection_established remote endpoint) = (true, establish false s remote endpoint)
  dialer_step s outgoing_connection_error =
      (false, ([], with_metrics s (record_handshake_failure s.metrics)))
  dialer_step s (request_response event) = (true, handle_request_response s event)
  dialer_step s (dialing peer_id) =
      (true, ([], with_metrics s (record_handshake_attempt s.metrics)))
  dialer_step s (connection_closed peer_id) = (true, ([], s))
  dialer_step s (new_listen_addr address) = (true, ([], s))
  dialer_step s (incoming_connection send_back_addr) = (true, ([], s))
  dialer_step s (incoming_connection_error send_back_addr) = (true, ([], s))
  dialer_step s ping = (true, ([], s))
  dialer_step s limits = (true, ([], s))
  dialer_step s other = (true, ([], s))

  -- The loop of `dial_peer`; the first component says whether it is still running.
  unfoldable pub dialer_run : Node S → List LoopEvent → Bool × (List Action × Node S)
  dialer_run s [] = (true, ([], s))
  dialer_run s (event ∷ events) =
      let (running, (actions, s')) = dialer_step s event in
      let (running', (later, s'')) = dialer_run s' events in
      if running then (running', (actions ++ later, s'')) else (false, (actions, s'))
