-- ===== src/Cli/Vpn/Packets.antt =====
-- What becomes of the packets of the VPN between two nodes.
use cryprq.Base.{ℕ, ◌≤◌, ◌≡◌, ap, ◌∙◌, arith}
use cryprq.Base.{List, [], length, All}
use cryprq.Base.{Bool}
use cryprq.Node.Tun
use cryprq.Node.Tun.Forwarding.{zeros_for}
use cryprq.P2p.Backoff.{BackoffConfig}
use cryprq.P2p.Forwarder
use cryprq.P2p.Forwarder.{Forwarder}
use cryprq.P2p.Swarm
use cryprq.P2p.Swarm.Requests.{collect, forwarded, listener_run-requests}
use cryprq.Cli.Receive.Served.{requests}
use cryprq.Cli.Vpn
use cryprq.Cli.Vpn.Channels.{
  packets_of, packets_of-to_peer, outgoing-zeros, IsLong, zeros_collected, zeros-le,
}

module _ {S : Type 0} (config : BackoffConfig) (is_open : ℕ → Bool) (now : ℕ) (peer : List ℕ) where
  -- Of the packets that one node reads from its TUN device, if each has at least four bytes, none
  -- reaches a channel of the other node as requests of its peer, whatever channels and callbacks
  -- that node has, if the task that sends has as many turns as there are reads.
  pub vpn_packets_lost :
      (s : Swarm.Node S) (other : List ℕ) (channel turns : ℕ) (reads : List Tun.DeviceRead)
      → All IsLong reads
      → length reads ≤ turns
      → let sent = packets_of (Vpn.outgoing turns (Forwarder.new other) reads) in
        collect forwarded (Swarm.listener_run config is_open s (requests now peer channel sent)).0
        ≡ []
  vpn_packets_lost s other channel turns reads long enough =
      let zeros = zeros_for Tun.buffer_size reads in
      let sent : packets_of (Vpn.outgoing turns (Forwarder.new other) reads) ≡ zeros =
        ap packets_of
          (outgoing-zeros turns other reads (omega (arith, zeros-le Tun.buffer_size reads)))
        ∙ packets_of-to_peer other zeros in
      ap
        (λ (q : List (List ℕ)).
          collect forwarded (Swarm.listener_run config is_open s (requests now peer channel q)).0)
        sent
      ∙ (listener_run-requests config is_open s (requests now peer channel zeros)).1
      ∙ zeros_collected is_open now peer s.packet_recv_tx channel reads long
