-- ===== src/P2p/Forwarder/Tasks/Waiting.antt =====
-- While the event loop waits for the swarm, it has the lock.
use cryprq.Base.{◌≤◌, ◌≡◌, refl, arith}
use cryprq.P2p.Forwarder.Tasks.{
  waiting, System, start, Step, hand, lock_loop, event, lock_arm, act, handled, receive,
  lock_sender, send_request, Reach, here, later,
}
use cryprq.P2p.Forwarder.Tasks.Order.{Inv, Step-Inv, Reach-Inv}

-- The loop is in `select_next_some` with no event since, and nothing has been sent.
record Blocked (s t : System) : Type 0 where
  in_select : t.loop ≡ waiting
  unsent : t.sent ≡ s.sent

Step-Blocked : {s t u : System} → Step t u → Inv t → Blocked s t → u.events ≡ t.events → Blocked s u
Step-Blocked (hand packet) inv b e = record { in_select = b.in_select; unsent = b.unsent }
Step-Blocked (lock_loop a free) inv b e = record { in_select = refl; unsent = b.unsent }
Step-Blocked (event a) inv b e = absurd (omega (arith, e))
Step-Blocked (lock_arm a free) inv b e = absurd (let h = b.in_select in cc)
Step-Blocked (act a) inv b e = absurd (let h = b.in_select in cc)
Step-Blocked (handled a) inv b e = absurd (let h = b.in_select in cc)
Step-Blocked (receive packet packets a q) inv b e = record {
  in_select = b.in_select;
  unsent = b.unsent;
}
Step-Blocked (lock_sender packet a free) inv b e = record {
  in_select = b.in_select;
  unsent = b.unsent;
}
Step-Blocked (send_request packet a) inv b e =
    absurd (let h = inv.waits b.in_select in let k = inv.sends packet a in cc)

Step-events : {s t : System} → Step s t → s.events ≤ t.events
Step-events (event e) = omega arith
Step-events (hand packet) = omega arith
Step-events (lock_loop e free) = omega arith
Step-events (lock_arm e free) = omega arith
Step-events (act e) = omega arith
Step-events (handled e) = omega arith
Step-events (receive packet packets e q) = omega arith
Step-events (lock_sender packet e free) = omega arith
Step-events (send_request packet e) = omega arith

Reach-events : {s t : System} → Reach s t → s.events ≤ t.events
Reach-events here = omega arith
Reach-events (later r st) = omega (arith, Reach-events r, Step-events st)

Reach-after-Inv : {s t : System} → Inv s → Reach s t → Inv t
Reach-after-Inv inv here = inv
Reach-after-Inv inv (later r st) = Step-Inv st (Reach-after-Inv inv r)

Reach-Blocked :
    {s t : System} → Inv s → s.loop ≡ waiting → Reach s t → t.events ≡ s.events → Blocked s t
Reach-Blocked inv at here e = record { in_select = at; unsent = refl }
Reach-Blocked inv at (later r st) e =
    let before = Reach-events r in
    let last = Step-events st in
    Step-Blocked st (Reach-after-Inv inv r) (Reach-Blocked inv at r (omega (arith, e)))
      (omega (arith, e))

-- Once the event loop waits for the swarm, no packet is sent, however many are handed over, until
-- the swarm has an event.
pub nothing_sent_while_waiting :
    {s t : System}
    → Reach start s
    → s.loop ≡ waiting
    → Reach s t
    → t.events ≡ s.events
    → t.sent ≡ s.sent
nothing_sent_while_waiting r at run e = (Reach-Blocked (Reach-Inv r) at run e).unsent
