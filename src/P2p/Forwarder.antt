-- ===== src/P2p/Forwarder.antt =====
-- `Libp2pPacketForwarder` of p2p/src/packet_forwarder.rs: its two channels, and the task that sends.
pub mod Tasks
mod Tests
use cryprq.Base.{ℕ, zero, suc, List, [], ◌∷◌, ◌++◌, Option, none, some, Outcome, ok, err}

-- The peer, and what waits in the two channels.
pub record Forwarder : Type 0 where
  pub peer_id : List ℕ
  pub send_queue : List (List ℕ)
  pub recv_queue : List (List ℕ)

-- The errors of `recv_packet`; the channel is never closed, since the forwarder holds a sender.
pub data ForwardError : Type 0 where
  timeout : ForwardError

unfoldable pub new : List ℕ → Forwarder
new peer_id = record { peer_id = peer_id; send_queue = []; recv_queue = [] }

-- `send_packet`: the receiver of the channel is the spawned task, which never ends.
unfoldable pub send_packet : Forwarder → List ℕ → Outcome ForwardError (Unit {0}) × Forwarder
send_packet f packet = (ok tt, record f { send_queue = f.send_queue ++ (packet ∷ []) })

-- One turn of the spawned task: a request to the peer.
unfoldable pub send_turn : Forwarder → Option (List ℕ × List ℕ) × Forwarder
send_turn f = elim f.send_queue [
  | [] ↦ (none, f)
  | packet ∷ packets ↦ (some (f.peer_id, packet), record f { send_queue = packets })
]

-- So many turns of the task: the requests, in order.
unfoldable pub send_task : ℕ → Forwarder → List (List ℕ × List ℕ) × Forwarder
send_task zero f = ([], f)
send_task (suc turns) f =
    let (request, f') = send_turn f in
    let (requests, f'') = send_task turns f' in
    elim request [ none ↦ (requests, f'') | some r ↦ (r ∷ requests, f'') ]

-- A packet that the event loop puts into the channel of `recv_tx`.
unfoldable pub deliver : Forwarder → List ℕ → Forwarder
deliver f packet = record f { recv_queue = f.recv_queue ++ (packet ∷ []) }

-- `recv_packet`: an empty channel is a timeout.
unfoldable pub recv_packet : Forwarder → Outcome ForwardError (List ℕ) × Forwarder
recv_packet f = elim f.recv_queue [
  | [] ↦ (err timeout, f)
  | packet ∷ packets ↦ (ok packet, record f { recv_queue = packets })
]
