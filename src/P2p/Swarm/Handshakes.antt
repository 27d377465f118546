-- ===== src/P2p/Swarm/Handshakes.antt =====
-- What the metrics of a listener count.
use cryprq.Base.{ℕ, ◌+◌, ◌%◌, ◌^◌, List, [], ◌∷◌, Bool, true, false}
use cryprq.Base.{◌≡◌, refl, subst, arith, if◌then◌else◌}
use cryprq.P2p.Backoff.{BackoffConfig}
use cryprq.P2p.Peers.{PeerState, peer_is_allowed}
use cryprq.P2p.Swarm
use cryprq.P2p.Swarm.Requests.{listener_step-turn, handle_request_response-turn}

abbrev pub counted : Bool → ℕ
counted true = 1
counted false = 0

-- How many events of a run pass a test.
abbrev pub count : (Swarm.LoopEvent → Bool) → List (ℕ × Swarm.LoopEvent) → ℕ
count test [] = 0
count test ((now, event) ∷ events) = counted (test event) + count test events

abbrev pub is_attempt : Swarm.LoopEvent → Bool
is_attempt (Swarm.incoming_connection send_back_addr) = true
is_attempt _ = false

abbrev pub is_success : PeerState → Swarm.LoopEvent → Bool
is_success peers (Swarm.connection_established peer_id endpoint) = peer_is_allowed peers peer_id
is_success peers _ = false

-- A connection that fails on its way in, or that the allow list does not permit.
abbrev pub is_failure : PeerState → Swarm.LoopEvent → Bool
is_failure peers (Swarm.connection_established peer_id endpoint) =
    if peer_is_allowed peers peer_id then false else true
is_failure peers (Swarm.incoming_connection_error send_back_addr) = true
is_failure peers _ = false

abbrev pub is_closed : Swarm.LoopEvent → Bool
is_closed (Swarm.connection_closed peer_id) = true
is_closed _ = false

module _ {S : Type 0} (config : BackoffConfig) (is_open : ℕ → Bool) where
  -- The state has these counts more than another one, each modulo 2 ^ 64.
  abbrev Counts : Swarm.Node S → Swarm.Node S → ℕ → ℕ → ℕ → ℕ → Type 0
  Counts s s' attempts successes failures closed =
      (s'.metrics.handshakes_attempted % 2 ^ 64
        ≡ (attempts + s.metrics.handshakes_attempted) % 2 ^ 64)
      × (s'.metrics.handshakes_success % 2 ^ 64
          ≡ (successes + s.metrics.handshakes_success) % 2 ^ 64)
      × (s'.metrics.handshakes_failed % 2 ^ 64 ≡ (failures + s.metrics.handshakes_failed) % 2 ^ 64)
      × ((s'.metrics.active_peers + closed) % 2 ^ 64
          ≡ (successes + s.metrics.active_peers) % 2 ^ 64)

  Counts-refl : (s s' : Swarm.Node S) → s'.metrics ≡ s.metrics → Counts s s' 0 0 0 0
  Counts-refl s s' e = ground (arith, e)

  listener_step-Counts :
      (now : ℕ) (s : Swarm.Node S) (event : Swarm.LoopEvent)
      → Counts s
          (Swarm.listener_step config is_open now s event).1
          (counted (is_attempt event))
          (counted (is_success s.peers event))
          (counted (is_failure s.peers event))
          (counted (is_closed event))
  unfolding Swarm.listener_step Swarm.establish
  listener_step-Counts now s (Swarm.registered peer_id recv_tx) =
      Counts-refl s (Swarm.register_packet_recv_tx s peer_id recv_tx) refl
  listener_step-Counts now s (Swarm.new_listen_addr address) = Counts-refl s s refl
  listener_step-Counts now s (Swarm.connection_established peer_id endpoint) = ground arith
  listener_step-Counts now s (Swarm.incoming_connection address) = ground arith
  listener_step-Counts now s (Swarm.incoming_connection_error address) = ground arith
  listener_step-Counts now s (Swarm.connection_closed peer_id) = ground arith
  listener_step-Counts now s (Swarm.request_response event) =
      Counts-refl s (Swarm.handle_request_response config is_open s event).1
        (handle_request_response-turn config is_open s event).5
  listener_step-Counts now s Swarm.outgoing_connection_error = Counts-refl s s refl
  listener_step-Counts now s (Swarm.dialing peer_id) = Counts-refl s s refl
  listener_step-Counts now s Swarm.ping = Counts-refl s s refl
  listener_step-Counts now s Swarm.limits = Counts-refl s s refl
  listener_step-Counts now s Swarm.other = Counts-refl s s refl

  Counts-trans :
      (s s' s'' : Swarm.Node S) (a b c d a' b' c' d' : ℕ)
      → Counts s s' a b c d
      → Counts s' s'' a' b' c' d'
      → Counts s s'' (a + a') (b + b') (c + c') (d + d')
  Counts-trans s s' s'' a b c d a' b' c' d' (ha, hb, hc, hd) (ha', hb', hc', hd') =
      (omega arith, omega arith, omega arith, omega arith)

  -- After any run of the listener the metrics have counted the incoming connections as attempts,
  -- the permitted connections as successes, and the failed and denied ones as failures; the gauge
  -- of active peers has gone up by the permitted connections and down by all connections that
  -- were closed; each modulo 2 ^ 64, the gauge in two's complement.
  pub listener_run-metrics :
      (s : Swarm.Node S) (events : List (ℕ × Swarm.LoopEvent))
      → Counts s
          (Swarm.listener_run config is_open s events).1
          (count is_attempt events)
          (count (is_success s.peers) events)
          (count (is_failure s.peers) events)
          (count is_closed events)
  unfolding Swarm.listener_run
  listener_run-metrics s [] = Counts-refl s s refl
  listener_run-metrics s ((now, event) ∷ events) =
      let s' = (Swarm.listener_step config is_open now s event).1 in
      let kept : s'.peers ≡ s.peers = (listener_step-turn config is_open now s event).4 in
      let s'' = (Swarm.listener_run config is_open s' events).1 in
      Counts-trans s s' s'' _ _ _ (counted (is_closed event)) _ _ _ (count is_closed events)
        (listener_step-Counts now s event)
        (subst
          (λ (peers : PeerState).
            Counts s' s'' (count is_attempt events) (count (is_success peers) events)
              (count (is_failure peers) events) (count is_closed events))
          kept (listener_run-metrics s' events))
