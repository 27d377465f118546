-- ===== src/P2p/Forwarder/Tasks/Order.antt =====
-- The order in which the packets are sent.
use cryprq.Base.{ℕ, ◌≡◌, refl, sym, ap, ◌∙◌, arith, List, [], ◌∷◌, ◌++◌}
use mathlib.Core.List.{append_assoc}
use cryprq.P2p.Forwarder.Tasks.{
  event_loop, send_task, waiting, acting, sending, System, start, Step, hand, lock_loop, event,
  lock_arm, act, handled, receive, lock_sender, send_request, Reach, here, later, in_hand,
}

-- Who stands where the lock is held, has it.
pub record Inv (s : System) : Type 0 where
  pub waits : s.loop ≡ waiting → s.holder ≡ event_loop
  pub acts : s.loop ≡ acting → s.holder ≡ event_loop
  pub sends : (packet : List ℕ) → s.sender ≡ sending packet → s.holder ≡ send_task
  pub in_order : s.sent ++ (in_hand s.sender ++ s.queue) ≡ s.handed

pub Step-Inv : {s t : System} → Step s t → Inv s → Inv t
Step-Inv {s} (hand packet) inv = record {
  waits = inv.waits;
  acts = inv.acts;
  sends = inv.sends;
  in_order =
      ap (λ (q : List (List ℕ)). s.sent ++ q)
        (sym (append_assoc (in_hand s.sender) s.queue (packet ∷ [])))
      ∙ sym (append_assoc s.sent (in_hand s.sender ++ s.queue) (packet ∷ []))
      ∙ ap (λ (q : List (List ℕ)). q ++ (packet ∷ [])) inv.in_order;
}
Step-Inv {s} (lock_loop e free) inv = record {
  waits = λ w. refl;
  acts = λ a. refl;
  sends = λ packet x. absurd (let h = inv.sends packet x in cc);
  in_order = inv.in_order;
}
Step-Inv {s} (event e) inv = record {
  waits = λ w. absurd (cc);
  acts = λ a. absurd (cc);
  sends = λ packet x. absurd (let h = inv.sends packet x in let w = inv.waits e in cc);
  in_order = inv.in_order;
}
Step-Inv {s} (lock_arm e free) inv = record {
  waits = λ w. refl;
  acts = λ a. refl;
  sends = λ packet x. absurd (let h = inv.sends packet x in cc);
  in_order = inv.in_order;
}
Step-Inv {s} (act e) inv = record {
  waits = λ w. absurd (cc);
  acts = λ a. absurd (cc);
  sends = λ packet x. absurd (let h = inv.sends packet x in let w = inv.acts e in cc);
  in_order = inv.in_order;
}
Step-Inv {s} (handled e) inv = record {
  waits = λ w. absurd (cc);
  acts = λ a. absurd (cc);
  sends = inv.sends;
  in_order = inv.in_order;
}
Step-Inv {s} (receive packet packets e q) inv = record {
  waits = inv.waits;
  acts = inv.acts;
  sends = λ p x. absurd (cc);
  in_order = ground (arith, e, q, inv.in_order);
}
Step-Inv {s} (lock_sender packet e free) inv = record {
  waits = λ w. absurd (let h = inv.waits w in cc);
  acts = λ a. absurd (let h = inv.acts a in cc);
  sends = λ p x. refl;
  in_order = ground (arith, e, inv.in_order);
}
Step-Inv {s} (send_request packet e) inv = record {
  waits = λ w. absurd (let h = inv.waits w in let k = inv.sends packet e in cc);
  acts = λ a. absurd (let h = inv.acts a in let k = inv.sends packet e in cc);
  sends = λ p x. absurd (cc);
  in_order = append_assoc s.sent (packet ∷ []) s.queue ∙ ground (arith, e, inv.in_order);
}

start-Inv : Inv start
start-Inv = record {
  waits = λ w. absurd (cc);
  acts = λ a. absurd (cc);
  sends = λ p x. absurd (cc);
  in_order = refl;
}

pub Reach-Inv : {s : System} → Reach start s → Inv s
Reach-Inv here = start-Inv
Reach-Inv (later r st) = Step-Inv st (Reach-Inv r)

-- In every interleaving of the callers of the forwarder, its sending task and the event loop, the
-- packets are sent in the order in which they were handed over, none lost and none twice: those
-- that are not sent yet wait in the task or in its channel.
pub sent_in_order :
    {s : System} → Reach start s → s.sent ++ (in_hand s.sender ++ s.queue) ≡ s.handed
sent_in_order r = (Reach-Inv r).in_order
