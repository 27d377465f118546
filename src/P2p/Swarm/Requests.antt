-- ===== src/P2p/Swarm/Requests.antt =====
-- What the event loops of p2p/src/lib.rs do with the requests of peers.
use cryprq.Base.{ℕ, List, [], ◌∷◌, ◌++◌, Bool, true, not, ◌&&◌, none, some}
use cryprq.Base.{◌≡◌, refl, sym, ap, ap₂, ◌∙◌, arith, if◌then◌else◌}
use mathlib.Core.List.{append_assoc}
use cryprq.Base.Maps.{Table, assign}
use cryprq.P2p.Backoff.{BackoffConfig}
use cryprq.P2p.Peers.{PeerState, peer_is_allowed}
use cryprq.P2p.Swarm

-- Everything of one kind in a sequence.
abbrev pub collect : {A B : Type 0} → (A → List B) → List A → List B
collect f [] = []
collect f (x ∷ xs) = f x ++ collect f xs

pub collect-append :
    {A B : Type 0} (f : A → List B) (xs ys : List A)
    → collect f (xs ++ ys) ≡ collect f xs ++ collect f ys
collect-append f [] ys = refl
collect-append f (x ∷ xs) ys =
    ap (λ t. f x ++ t) (collect-append f xs ys) ∙ sym (append_assoc (f x) _ _)

-- The channels of responses, and the packets that are forwarded to a channel.
abbrev pub response_channel : Swarm.Action → List ℕ
response_channel (Swarm.respond channel bytes) = channel ∷ []
response_channel _ = []

abbrev pub forwarded : Swarm.Action → List (ℕ × List ℕ)
forwarded (Swarm.forward recv_tx packet) = (recv_tx, packet) ∷ []
forwarded _ = []

abbrev pub disconnected : Swarm.Action → List (List ℕ)
disconnected (Swarm.disconnect peer_id) = peer_id ∷ []
disconnected _ = []

-- The channel that a request asks for a response on.
abbrev pub request_channel : Swarm.LoopEvent → List ℕ
request_channel (Swarm.request_response (Swarm.request peer channel packet)) = channel ∷ []
request_channel _ = []

-- The packet of a request that is not for a file, if its peer has an open channel.
abbrev pub to_forward : (ℕ → Bool) → Table ℕ → Swarm.LoopEvent → List (ℕ × List ℕ)
to_forward is_open channels (Swarm.request_response (Swarm.request peer channel packet)) =
    elim (channels peer) [
      | none ↦ []
      | some recv_tx ↦
          if not (Swarm.is_file_transfer packet) && is_open recv_tx
          then (recv_tx, packet) ∷ []
          else []
    ]
to_forward is_open channels _ = []

-- The channels of the peers after an event.
abbrev pub channels_after : Table ℕ → Swarm.LoopEvent → Table ℕ
channels_after channels (Swarm.registered peer_id recv_tx) = assign channels peer_id (some recv_tx)
channels_after channels _ = channels

-- The packets of a run that go to a channel: each to the one that its peer has at that moment.
abbrev pub routed : (ℕ → Bool) → Table ℕ → List Swarm.LoopEvent → List (ℕ × List ℕ)
routed is_open channels [] = []
routed is_open channels (event ∷ events) =
    to_forward is_open channels event ++ routed is_open (channels_after channels event) events

abbrev pub events_of : List (ℕ × Swarm.LoopEvent) → List Swarm.LoopEvent
events_of [] = []
events_of ((now, event) ∷ events) = event ∷ events_of events

-- The peer of a connection that the allow list does not permit.
abbrev pub denied : PeerState → Swarm.LoopEvent → List (List ℕ)
denied peers (Swarm.connection_established peer_id endpoint) =
    if peer_is_allowed peers peer_id then [] else peer_id ∷ []
denied peers _ = []

module _ {S : Type 0} (config : BackoffConfig) (is_open : ℕ → Bool) where
  -- What every turn of the loop tells of one kind, the whole run tells in order; `view` is a part
  -- of the state that no turn changes.
  listener_run-collect :
      {B V : Type 0} (tell : Swarm.Action → List B) (view : Swarm.Node S → V)
      (told : V → Swarm.LoopEvent → List B)
      → ((now : ℕ) (s : Swarm.Node S) (event : Swarm.LoopEvent)
          → let (actions, s') = Swarm.listener_step config is_open now s event in
            (collect tell actions ≡ told (view s) event) × (view s' ≡ view s))
      → (s : Swarm.Node S) (events : List (ℕ × Swarm.LoopEvent))
      → collect tell (Swarm.listener_run config is_open s events).0
        ≡ collect (told (view s)) (events_of events)
  unfolding Swarm.listener_run
  listener_run-collect tell view told turn s [] = refl
  listener_run-collect tell view told turn s ((now, event) ∷ events) =
      let (actions, s') = Swarm.listener_step config is_open now s event in
      let (here, kept) = turn now s event in
      collect-append tell actions _
      ∙ ap₂ ◌++◌ here (
          listener_run-collect tell view told turn s' events
          ∙ ap (λ v. collect (told v) (events_of events)) kept)

  pub handle_request_response-turn :
      (s : Swarm.Node S) (event : Swarm.RequestEvent)
      → let (actions, s') = Swarm.handle_request_response config is_open s event in
        (collect response_channel actions ≡ request_channel (Swarm.request_response event))
        × (collect forwarded actions
            ≡ to_forward is_open s.packet_recv_tx (Swarm.request_response event))
        × (collect disconnected actions ≡ [])
        × (s'.packet_recv_tx ≡ s.packet_recv_tx)
        × (s'.peers ≡ s.peers)
        × (s'.metrics ≡ s.metrics)
  unfolding Swarm.handle_request_response Swarm.handle_request Swarm.forward_packet
  handle_request_response-turn s (Swarm.request peer channel packet) = ground arith
  handle_request_response-turn s (Swarm.response peer bytes) = (refl, refl, refl, refl, refl, refl)
  handle_request_response-turn s Swarm.outbound_failure = (refl, refl, refl, refl, refl, refl)
  handle_request_response-turn s Swarm.inbound_failure = (refl, refl, refl, refl, refl, refl)
  handle_request_response-turn s Swarm.response_sent = (refl, refl, refl, refl, refl, refl)

  pub establish-turn :
      (inbound : Bool) (s : Swarm.Node S) (peer_id endpoint : List ℕ)
      → let (actions, s') = Swarm.establish config is_open inbound s peer_id endpoint in
        (collect response_channel actions ≡ [])
        × (collect forwarded actions ≡ [])
        × (collect disconnected actions
            ≡ denied s.peers (Swarm.connection_established peer_id endpoint))
        × (s'.packet_recv_tx ≡ s.packet_recv_tx)
        × (s'.peers ≡ s.peers)
  unfolding Swarm.establish
  establish-turn inbound s peer_id endpoint = ground arith

  -- What one turn of the listener tells, and the parts of the state that it keeps.
  pub listener_step-turn :
      (now : ℕ) (s : Swarm.Node S) (event : Swarm.LoopEvent)
      → let (actions, s') = Swarm.listener_step config is_open now s event in
        (collect response_channel actions ≡ request_channel event)
        × (collect forwarded actions ≡ to_forward is_open s.packet_recv_tx event)
        × (collect disconnected actions ≡ denied s.peers event)
        × (s'.packet_recv_tx ≡ channels_after s.packet_recv_tx event)
        × (s'.peers ≡ s.peers)
  unfolding Swarm.listener_step
  listener_step-turn now s (Swarm.registered peer_id recv_tx) = (refl, refl, refl, refl, refl)
  listener_step-turn now s (Swarm.new_listen_addr address) = (refl, refl, refl, refl, refl)
  listener_step-turn now s (Swarm.connection_established peer_id endpoint) =
      establish-turn true s peer_id endpoint
  listener_step-turn now s (Swarm.incoming_connection address) = (refl, refl, refl, refl, refl)
  listener_step-turn now s (Swarm.incoming_connection_error address) =
      (refl, refl, refl, refl, refl)
  listener_step-turn now s (Swarm.connection_closed peer_id) = (refl, refl, refl, refl, refl)
  listener_step-turn now s (Swarm.request_response event) =
      let (r, f, d, k, p, m) = handle_request_response-turn s event in (r, f, d, k, p)
  listener_step-turn now s Swarm.outgoing_connection_error = (refl, refl, refl, refl, refl)
  listener_step-turn now s (Swarm.dialing peer_id) = (refl, refl, refl, refl, refl)
  listener_step-turn now s Swarm.ping = (refl, refl, refl, refl, refl)
  listener_step-turn now s Swarm.limits = (refl, refl, refl, refl, refl)
  listener_step-turn now s Swarm.other = (refl, refl, refl, refl, refl)

  listener_run-routed :
      (s : Swarm.Node S) (events : List (ℕ × Swarm.LoopEvent))
      → collect forwarded (Swarm.listener_run config is_open s events).0
        ≡ routed is_open s.packet_recv_tx (events_of events)
  unfolding Swarm.listener_run
  listener_run-routed s [] = refl
  listener_run-routed s ((now, event) ∷ events) =
      let (actions, s') = Swarm.listener_step config is_open now s event in
      let (r, f, d, k, p) = listener_step-turn now s event in
      collect-append forwarded actions _
      ∙ ap₂ ◌++◌ f (
          listener_run-routed s' events
          ∙ ap (λ channels. routed is_open channels (events_of events)) k)

  -- In any run of the listener, with the channels that are registered meanwhile, every request
  -- gets exactly one response, in order; the packets that are handed to a channel are exactly
  -- those of requests that are not for a file and whose peer has an open channel by then; and
  -- exactly the connected peers that the allow list does not permit are disconnected.
  pub listener_run-requests :
      (s : Swarm.Node S) (events : List (ℕ × Swarm.LoopEvent))
      → let actions = (Swarm.listener_run config is_open s events).0 in
        (collect response_channel actions ≡ collect request_channel (events_of events))
        × (collect forwarded actions ≡ routed is_open s.packet_recv_tx (events_of events))
        × (collect disconnected actions ≡ collect (denied s.peers) (events_of events))
  listener_run-requests s events = (
    listener_run-collect response_channel (λ (n : Swarm.Node S). n.peers) (λ v e. request_channel e)
        (λ now n e. let t = listener_step-turn now n e in (t.0, t.4)) s events,
    listener_run-routed s events,
    listener_run-collect disconnected (λ (n : Swarm.Node S). n.peers) denied
        (λ now n e. let t = listener_step-turn now n e in (t.2, t.4)) s events,
  )
