-- ===== src/Cli/Vpn.antt =====
-- The VPN mode of `main` in cli/src/main.rs: its connection callback, and the chain of loops that it
-- starts, from the TUN device of one node to that of the other.
pub mod Channels
pub mod Packets
mod Tests
use cryprq.Base.{ℕ, zero, suc, ◌+◌, List, [], ◌∷◌, ◌++◌, Bool, true, false, Option, none, some}
use cryprq.Base.{Outcome, ok, err, panicked, if◌then◌else◌, ◌==◌}
use cryprq.Node.Tun.{DeviceRead, tun_read_task, tun_write_task}
use cryprq.P2p.Forwarder
use cryprq.P2p.Forwarder.{Forwarder}
use cryprq.P2p.Swarm

-- The TUN device in the shared state, if no connection has taken it; the forwarder of the one that
-- has, with its channel; and the number of the next channel.
pub record Vpn (S : Type 0) : Type 0 where
  pub tun_interface_shared : Bool
  pub forwarder : Option (Forwarder × ℕ)
  pub next_channel : ℕ
  pub node : Swarm.Node S

module _ {S : Type 0} where
  -- The callback for an established connection, the same for the listener and the dialer.
  unfoldable pub on_connection : Vpn S → List ℕ → Vpn S
  on_connection v peer_id =
      if v.tun_interface_shared
      then record {
        tun_interface_shared = false;
        forwarder = some (Forwarder.new peer_id, v.next_channel);
        next_channel = v.next_channel + 1;
        node = Swarm.register_packet_recv_tx v.node peer_id v.next_channel;
      }
      else v

  unfoldable pub on_connections : Vpn S → List (List ℕ) → Vpn S
  on_connections v [] = v
  on_connections v (peer_id ∷ peers) = on_connections (on_connection v peer_id) peers

-- The task that reads the device hands its packets to the forwarder.
unfoldable pub forward_all : Forwarder → List (List ℕ) → Forwarder
forward_all f [] = f
forward_all f (packet ∷ packets) = forward_all (Forwarder.send_packet f packet).1 packets

-- The requests to the peer that come of what the device reads, after so many turns of the task that
-- sends.
unfoldable pub outgoing : ℕ → Forwarder → List DeviceRead → List (List ℕ × List ℕ)
outgoing turns f reads = (Forwarder.send_task turns (forward_all f (tun_read_task reads))).0

-- The packets that the event loop puts into a channel.
unfoldable pub deliver_all : ℕ → Forwarder → List Swarm.Action → Forwarder
deliver_all channel f [] = f
deliver_all channel f (Swarm.forward recv_tx packet ∷ actions) =
    deliver_all channel (if recv_tx == channel then Forwarder.deliver f packet else f) actions
deliver_all channel f (_ ∷ actions) = deliver_all channel f actions

-- So many calls of `recv_packet` by the task that writes.
unfoldable pub receive_all : ℕ → Forwarder → List (Option (List ℕ))
receive_all zero f = []
receive_all (suc turns) f =
    let (received, f') = Forwarder.recv_packet f in
    let rest = receive_all turns f' in
    elim received [ ok packet ↦ some packet ∷ rest | err e ↦ none ∷ rest | panicked ↦ [] ]

-- What is written to the device, which takes a packet or not, of what the event loop has handed to
-- the forwarder's channel.
unfoldable pub incoming : (List ℕ → Bool) → ℕ → ℕ → Forwarder → List Swarm.Action → List (List ℕ)
incoming device_takes turns channel f actions =
    tun_write_task device_takes (receive_all turns (deliver_all channel f actions))
