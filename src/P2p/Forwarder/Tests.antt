-- ===== src/P2p/Forwarder/Tests.antt =====
-- The theorems on the lock of the swarm at concrete inputs.
use cryprq.Base.{ℕ, ◌≡◌, refl, List, [], ◌∷◌, ◌++◌}
use cryprq.P2p.Forwarder.Tasks
use cryprq.P2p.Forwarder.Tasks.Order.{sent_in_order}
use cryprq.P2p.Forwarder.Tasks.Waiting.{nothing_sent_while_waiting}

abbrev packet : List ℕ
packet = 0x45 ∷ []

-- The loop takes the lock before a packet is handed over.
abbrev in_select : Tasks.System
in_select = record Tasks.start { loop = Tasks.waiting; holder = Tasks.event_loop }

abbrev with_packet : Tasks.System
with_packet = record in_select { sender = Tasks.with_packet packet; handed = packet ∷ [] }

selecting : Tasks.Reach Tasks.start in_select
selecting = Tasks.later Tasks.here (Tasks.lock_loop refl refl)

handing : Tasks.Reach in_select with_packet
handing =
    Tasks.later (Tasks.later Tasks.here (Tasks.hand packet)) (Tasks.receive packet [] refl refl)

abbrev second : List ℕ
second = 0x60 ∷ []

-- Two packets are handed over, and the first is sent.
abbrev one_sent : Tasks.System
one_sent = record Tasks.start {
  queue = second ∷ [];
  handed = packet ∷ second ∷ [];
  sent = packet ∷ [];
}

sending_one : Tasks.Reach Tasks.start one_sent
sending_one =
    let handed = Tasks.later (Tasks.later Tasks.here (Tasks.hand packet)) (Tasks.hand second) in
    let received = Tasks.later handed (Tasks.receive packet (second ∷ []) refl refl) in
    let locked = Tasks.later received (Tasks.lock_sender packet refl refl) in
    Tasks.later locked (Tasks.send_request packet refl)

sent_in_order_example :
    one_sent.sent ++ (Tasks.in_hand one_sent.sender ++ one_sent.queue) ≡ one_sent.handed
sent_in_order_example = sent_in_order sending_one

nothing_sent_while_waiting_example : with_packet.sent ≡ in_select.sent
nothing_sent_while_waiting_example = nothing_sent_while_waiting selecting refl handing refl
