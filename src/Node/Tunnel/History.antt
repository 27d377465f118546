-- ===== src/Node/Tunnel/History.antt =====
-- Runs of a tunnel, and the sequence numbers that it accepts in them.
use cryprq.Base.{ℕ, ◌≡◌, ◌≢◌, inl, inr, sym, ◌∙◌, subst, arith}
use cryprq.Base.{List, [], ◌∷◌, All, some, ok, true}
use cryprq.Node.Externals.{Externals}
use cryprq.Node.Replay
use cryprq.Node.Replay.{ReplayWindow, check_and_update}
use cryprq.Node.Replay.Spec as Spec
use cryprq.Node.Replay.Refine.{Represents, new-Represents, check_and_update_refines}
use cryprq.Node.Replay.Runs.{InRange, offer_keeps, offer_records, offer_again, verdict_ok}
use cryprq.Node.Tunnel.{Tunnel, recv_record, send_record, send_datagram}
use cryprq.Node.Tunnel.Incoming.{
  handle_incoming_record, handle_file_or_control, handle_file_meta, forward_to_tun,
}
use cryprq.Node.Tunnel.Setup.{rotate}
use cryprq.Node.Tunnel.Receive.{datagram_seq, recv_record-WindowEffect}

-- One thing that happens to a tunnel: a record is sent, a datagram arrives, a received record is
-- handled, or the keys are rotated.
pub data Event (x : Externals) : Type 0 where
  sends : ℕ → ℕ → ℕ → List ℕ → Event x
  receives : x.timing.Instant → List ℕ → x.Address → Event x
  handles : ℕ → ℕ → List ℕ → Event x
  rotates : List ℕ → Event x

module _ (x : Externals) where
  unfoldable pub step : Event x → Tunnel x → Tunnel x
  step (sends stream_id message_type flags payload) t =
      (send_record x t stream_id message_type flags payload).1
  step (receives now datagram addr) t = (recv_record x t now (some (datagram, addr))).1
  step (handles msg_type stream_id payload) t =
      (handle_incoming_record x t msg_type stream_id payload).1
  step (rotates master_secret) t = (rotate x master_secret t).1

  unfoldable pub run : List (Event x) → Tunnel x → Tunnel x
  run [] t = t
  run (e ∷ es) t = run es (step e t)

  -- The sequence numbers of the datagrams lie below the top of the range by a window.
  abbrev pub EventInRange : Event x → Type 0
  EventInRange (receives now datagram addr) = InRange (datagram_seq datagram)
  EventInRange _ = Unit

  sends_window :
      (t : Tunnel x) (sid mt fl : ℕ) (payload : List ℕ)
      → (send_record x t sid mt fl payload).1.replay_window ≡ t.replay_window
  unfolding send_record send_datagram
  sends_window t sid mt fl payload = ground arith

  handles_window :
      (t : Tunnel x) (mt sid : ℕ) (payload : List ℕ)
      → (handle_incoming_record x t mt sid payload).1.replay_window ≡ t.replay_window
  unfolding handle_incoming_record handle_file_or_control forward_to_tun handle_file_meta
  handles_window t mt sid payload = ground arith

  rotates_window : (t : Tunnel x) (ms : List ℕ) → (rotate x ms t).1.replay_window ≡ t.replay_window
  unfolding rotate
  rotates_window t ms = ground arith

  -- The window stands for a history that has all the numbers of another one.
  abbrev Extends : ReplayWindow → Spec.History → Type 0
  Extends w h =
      (h' : Spec.History) × Represents w h'
      × ((n : ℕ) → Spec.contains n h.accepted ≡ true → Spec.contains n h'.accepted ≡ true)

  same_window : {w w' : ReplayWindow} (h : Spec.History) → Represents w h → w' ≡ w → Extends w' h
  same_window h rep same =
      (h, subst (λ (w : ReplayWindow). Represents w h) (sym same) rep, λ n c. c)

  offered_window :
      {w w' : ReplayWindow} (h : Spec.History) (n : ℕ)
      → InRange n
      → Represents w h
      → w' ≡ (check_and_update w n).1
      → Represents w' (Spec.offer h n).1
  offered_window {w = w} h n fits rep same =
      subst (λ (v : ReplayWindow). Represents v (Spec.offer h n).1) (sym same)
        (check_and_update_refines w h n rep fits).1

  step-Extends :
      (e : Event x) (t : Tunnel x) (h : Spec.History)
      → EventInRange e
      → Represents t.replay_window h
      → Extends (step e t).replay_window h
  unfolding step
  step-Extends (sends sid mt fl payload) t h fits rep =
      same_window h rep (sends_window t sid mt fl payload)
  step-Extends (handles mt sid payload) t h fits rep =
      same_window h rep (handles_window t mt sid payload)
  step-Extends (rotates ms) t h fits rep = same_window h rep (rotates_window t ms)
  step-Extends (receives now d addr) t h fits rep = elim (recv_record-WindowEffect x t now d addr) [
    | inl (same, _) ↦ same_window h rep same
    | inr (checked, _) ↦ (
      (Spec.offer h (datagram_seq d)).1,
      offered_window h (datagram_seq d) fits rep checked,
      λ n c. offer_keeps h n (datagram_seq d) c,
    )
  ]

  run-Extends :
      (es : List (Event x)) (t : Tunnel x) (h : Spec.History)
      → All EventInRange es
      → Represents t.replay_window h
      → Extends (run es t).replay_window h
  unfolding run
  run-Extends [] t h fits rep = (h, rep, λ n c. c)
  run-Extends (e ∷ es) t h fits rep =
      let (h', rep', keeps) = step-Extends e t h fits.0 rep in
      let (h'', rep'', keeps') = run-Extends es (step e t) h' fits.1 rep' in
      (h'', rep'', λ n c. keeps' n (keeps n c))

  -- A datagram whose number a window has accepted is refused.
  refused :
      (t : Tunnel x) (h : Spec.History) (now : x.timing.Instant) (d : List ℕ) (addr : x.Address)
      → InRange (datagram_seq d)
      → Represents t.replay_window h
      → Spec.contains (datagram_seq d) h.accepted ≡ true
      → (p : ℕ × (ℕ × List ℕ)) → (recv_record x t now (some (d, addr))).0 ≢ ok p
  refused t h now d addr fits rep known p e = elim (recv_record-WindowEffect x t now d addr) [
    | inl (_, fails) ↦ fails p e
    | inr (_, passes) ↦
        let (same, _) = check_and_update_refines t.replay_window h (datagram_seq d) rep fits in
        let fresh = verdict_ok _ (sym same ∙ passes p e) in
        let stale = offer_again h (datagram_seq d) known in cc
  ]

  -- In any run of a tunnel from its creation on (records sent, datagrams received, records
  -- handled, keys rotated), a datagram with the sequence number of an accepted one is never
  -- accepted, if the numbers of all datagrams lie a window below 2 ^ 64.
  pub no_sequence_number_twice :
      (t : Tunnel x) (before between : List (Event x)) (now now' : x.timing.Instant) (d d' : List ℕ)
      (addr addr' : x.Address) (p q : ℕ × (ℕ × List ℕ))
      → t.replay_window ≡ Replay.new
      → All EventInRange before
      → All EventInRange between
      → InRange (datagram_seq d)
      → datagram_seq d' ≡ datagram_seq d
      → (recv_record x (run before t) now (some (d, addr))).0 ≡ ok p
      → (recv_record x
          (run between (step (receives now d addr) (run before t)))
          now'
          (some (d', addr'))).0
        ≢ ok q
  unfolding step
  no_sequence_number_twice t before between now now' d d' addr addr' p q fresh fb fw fits same ok1 =
      let start =
        subst (λ (w : ReplayWindow). Represents w Spec.empty) (sym fresh) new-Represents in
      let (h, rep, _) = run-Extends before t Spec.empty fb start in
      elim (recv_record-WindowEffect x (run before t) now d addr) [
        | inl (_, fails) ↦ absurd (fails p ok1)
        | inr (checked, passes) ↦
            let n = datagram_seq d in
            let (agrees, _) = check_and_update_refines (run before t).replay_window h n rep fits in
            let first = verdict_ok _ (sym agrees ∙ passes p ok1) in
            let rep' = offered_window h n fits rep checked in
            let (h'', rep'', keeps) = run-Extends between _ (Spec.offer h n).1 fw rep' in
            let known = keeps n (offer_records h n first) in
            refused _ h'' now' d' addr' (subst InRange (sym same) fits) rep''
              (subst (λ (m : ℕ). Spec.contains m h''.accepted ≡ true) (sym same) known) q
      ]
