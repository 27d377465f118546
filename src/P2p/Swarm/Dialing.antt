-- ===== src/P2p/Swarm/Dialing.antt =====
-- The loop of `dial_peer`: it ends at the first dial error, and serves requests as the listener does.
use cryprq.Base.{ℕ, List, [], ◌∷◌, ◌++◌, Bool, true, false, not}
use cryprq.Base.{◌≡◌, refl, sym, ap, ◌∙◌, ◌⊎◌, inl, inr}
use cryprq.P2p.Backoff.{BackoffConfig}
use cryprq.P2p.Swarm

-- The events up to the first dial error.
abbrev pub before_error : List Swarm.LoopEvent → List Swarm.LoopEvent
before_error [] = []
before_error (Swarm.outgoing_connection_error ∷ events) = []
before_error (event ∷ events) = event ∷ before_error events

abbrev pub has_error : List Swarm.LoopEvent → Bool
has_error [] = false
has_error (Swarm.outgoing_connection_error ∷ events) = true
has_error (event ∷ events) = has_error events

module _ {S : Type 0} (config : BackoffConfig) (is_open : ℕ → Bool) where
  -- An event is the dial error, or the loop goes on behind it.
  event-cases :
      (event : Swarm.LoopEvent)
      → (event ≡ Swarm.outgoing_connection_error)
        ⊎ (((s : Swarm.Node S) → (Swarm.dialer_step config is_open s event).0 ≡ true)
            × ((events : List Swarm.LoopEvent)
                → (before_error (event ∷ events) ≡ event ∷ before_error events)
                  × (has_error (event ∷ events) ≡ has_error events)))
  unfolding Swarm.dialer_step
  event-cases Swarm.outgoing_connection_error = inl refl
  event-cases (Swarm.registered peer_id recv_tx) = inr ((λ s. refl), λ events. (refl, refl))
  event-cases (Swarm.new_listen_addr address) = inr ((λ s. refl), λ events. (refl, refl))
  event-cases (Swarm.connection_established peer_id endpoint) =
      inr ((λ s. refl), λ events. (refl, refl))
  event-cases (Swarm.incoming_connection address) = inr ((λ s. refl), λ events. (refl, refl))
  event-cases (Swarm.incoming_connection_error address) = inr ((λ s. refl), λ events. (refl, refl))
  event-cases (Swarm.connection_closed peer_id) = inr ((λ s. refl), λ events. (refl, refl))
  event-cases (Swarm.request_response event) = inr ((λ s. refl), λ events. (refl, refl))
  event-cases (Swarm.dialing peer_id) = inr ((λ s. refl), λ events. (refl, refl))
  event-cases Swarm.ping = inr ((λ s. refl), λ events. (refl, refl))
  event-cases Swarm.limits = inr ((λ s. refl), λ events. (refl, refl))
  event-cases Swarm.other = inr ((λ s. refl), λ events. (refl, refl))

  dialer_run-error :
      (s : Swarm.Node S) (events : List Swarm.LoopEvent)
      → Swarm.dialer_run config is_open s (Swarm.outgoing_connection_error ∷ events)
        ≡ (false, (Swarm.dialer_step config is_open s Swarm.outgoing_connection_error).1)
  unfolding Swarm.dialer_run Swarm.dialer_step
  dialer_run-error s events = refl

  dialer_run-goes_on :
      (s : Swarm.Node S) (event : Swarm.LoopEvent) (events : List Swarm.LoopEvent)
      → (Swarm.dialer_step config is_open s event).0 ≡ true
      → let (actions, s') = (Swarm.dialer_step config is_open s event).1 in
        let (running, (later, s'')) = Swarm.dialer_run config is_open s' events in
        Swarm.dialer_run config is_open s (event ∷ events) ≡ (running, (actions ++ later, s''))
  unfolding Swarm.dialer_run
  dialer_run-goes_on s event events runs = rw runs refl

  -- The loop of the dialer is running after a sequence of events just if no dial error is among
  -- them, and nothing that comes after a dial error changes what the loop has done.
  pub dialer_run-ends :
      (s : Swarm.Node S) (events more : List Swarm.LoopEvent)
      → ((Swarm.dialer_run config is_open s events).0 ≡ not (has_error events))
        × (has_error events ≡ true
            → Swarm.dialer_run config is_open s (events ++ more)
              ≡ Swarm.dialer_run config is_open s events)
  unfolding Swarm.dialer_run
  dialer_run-ends s [] more = (refl, λ e. cc)
  dialer_run-ends s (event ∷ events) more = elim (event-cases event) [
    | inl e ↦
        rw (e, dialer_run-error s (events ++ more), dialer_run-error s events) (refl, λ h. refl)
    | inr on ↦
        let s' = (Swarm.dialer_step config is_open s event).1.1 in
        let (ends, rest) = dialer_run-ends s' events more in
        let runs = on.0 s in
        let (b, h) = on.1 events in
        (
          ap (λ t. t.0) (dialer_run-goes_on s event events runs) ∙ ends ∙ ap not (sym h),
          λ found.
              dialer_run-goes_on s event (events ++ more) runs
              ∙ rw (rest (sym h ∙ found)) (sym (dialer_run-goes_on s event events runs)),
        )
  ]
