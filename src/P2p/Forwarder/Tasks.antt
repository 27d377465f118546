-- ===== src/P2p/Forwarder/Tasks.antt =====
-- The event loop of p2p/src/lib.rs and the sending task of p2p/src/packet_forwarder.rs, interleaved over
-- the lock of the swarm.
pub mod Order
pub mod Waiting
use cryprq.Base.{ℕ, ◌+◌, ◌≡◌, List, [], ◌∷◌, ◌++◌}

-- Who has the lock.
pub data Holder : Type 0 where
  nobody event_loop send_task : Holder

-- Where the event loop stands: before the lock, with the lock in `select_next_some`, at an event
-- without the lock, and at an event with the lock again, for a response or a disconnect.
pub data Loop : Type 0 where
  asking waiting handling acting : Loop

-- Where the sending task stands: before a packet, with one but without the lock, and with both.
pub data Sender : Type 0 where
  receiving : Sender
  with_packet : List ℕ → Sender
  sending : List ℕ → Sender

-- `handed` are all packets that `send_packet` was called with; `events` counts the swarm's.
pub record System : Type 0 where
  pub holder : Holder
  pub loop : Loop
  pub sender : Sender
  pub queue : List (List ℕ)
  pub handed : List (List ℕ)
  pub sent : List (List ℕ)
  pub events : ℕ

abbrev pub start : System
start = record {
  holder = nobody;
  loop = asking;
  sender = receiving;
  queue = [];
  handed = [];
  sent = [];
  events = 0;
}

-- One step of the forwarder's caller, of the event loop, or of the sending task.
pub data Step (s : System) : System → Type 0 where
  hand :
      (packet : List ℕ)
      → Step s (record s { queue = s.queue ++ (packet ∷ []); handed = s.handed ++ (packet ∷ []) })
  lock_loop :
      s.loop ≡ asking
      → s.holder ≡ nobody
      → Step s (record s { loop = waiting; holder = event_loop })
  event :
      s.loop ≡ waiting
      → Step s (record s { loop = handling; holder = nobody; events = s.events + 1 })
  lock_arm :
      s.loop ≡ handling
      → s.holder ≡ nobody
      → Step s (record s { loop = acting; holder = event_loop })
  act : s.loop ≡ acting → Step s (record s { loop = handling; holder = nobody })
  handled : s.loop ≡ handling → Step s (record s { loop = asking })
  receive :
      (packet : List ℕ) (packets : List (List ℕ))
      → s.sender ≡ receiving
      → s.queue ≡ packet ∷ packets
      → Step s (record s { sender = with_packet packet; queue = packets })
  lock_sender :
      (packet : List ℕ)
      → s.sender ≡ with_packet packet
      → s.holder ≡ nobody
      → Step s (record s { sender = sending packet; holder = send_task })
  send_request :
      (packet : List ℕ)
      → s.sender ≡ sending packet
      → Step s (record s { sender = receiving; holder = nobody; sent = s.sent ++ (packet ∷ []) })

-- Any number of steps, in any order of the tasks.
pub data Reach (from : System) : System → Type 0 where
  here : Reach from from
  later : {s t : System} → Reach from s → Step s t → Reach from t

-- The packet in the hand of the task.
abbrev pub in_hand : Sender → List (List ℕ)
in_hand receiving = []
in_hand (with_packet packet) = packet ∷ []
in_hand (sending packet) = packet ∷ []
