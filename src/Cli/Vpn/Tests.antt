-- ===== src/Cli/Vpn/Tests.antt =====
-- The theorems on the VPN between two nodes at concrete inputs.
use cryprq.Base.{ℕ, ◌≡◌, arith, List, [], ◌∷◌, Bool, true, none, get_or, ◌/◌, ◌==◌, ◌||◌}
use cryprq.Node.Tun
use cryprq.P2p.Backoff.{BackoffConfig}
use cryprq.P2p.Forwarder
use cryprq.P2p.Swarm
use cryprq.P2p.Swarm.Requests.{collect, forwarded}
use cryprq.Cli.Receive.Served.{requests}
use cryprq.Cli.Vpn
use cryprq.Cli.Vpn.Channels.{packets_of}
use cryprq.Cli.Vpn.Packets.{vpn_packets_lost}

abbrev config : BackoffConfig
config = record { base_ms = 500; max_ms = 30000 }

abbrev is_open : ℕ → Bool
is_open channel = true

abbrev node : Swarm.Node ℕ
node = record {
  peers = record { allowed_peers = none; keys = none; ppk_store = []; local_epoch = 0 };
  backoff = λ address. none;
  metrics = record {
    handshakes_attempted = 0;
    handshakes_success = 0;
    handshakes_failed = 0;
    rotations_total = 0;
    rotation_duration = 0;
    rotation_interval = 0;
    rotation_epoch = 0;
    active_peers = 0;
    healthy = true;
    rotation_counter = 0;
  };
  packet_recv_tx = λ peer. none;
  connection_callback = true;
  file_transfer_callback = none;
  captured = 0;
}

abbrev vpn : Vpn.Vpn ℕ
vpn = record { tun_interface_shared = true; forwarder = none; next_channel = 4; node = node }

abbrev peer : List ℕ
peer = 5 ∷ []

abbrev other : List ℕ
other = 6 ∷ []

abbrev ip_packets : List (List ℕ)
ip_packets = (0x45 ∷ 0 ∷ 0 ∷ 20 ∷ []) ∷ (0x60 ∷ 0 ∷ 0 ∷ 40 ∷ []) ∷ []

abbrev reads : List Tun.DeviceRead
reads = Tun.packet_read (0x45 ∷ 0 ∷ 0 ∷ 20 ∷ []) ∷ []

vpn_packets_lost_example :
    let sent = packets_of (Vpn.outgoing 3 (Forwarder.new other) reads) in
    collect forwarded (Swarm.listener_run config is_open node (requests 0 peer 40 sent)).0 ≡ []
vpn_packets_lost_example =
    vpn_packets_lost config is_open 0 peer node other 40 3 reads (omega arith) (omega arith)

-- A device that takes packets of IP of either version.
abbrev device_takes : List ℕ → Bool
device_takes packet = get_or packet 0 0 / 16 == 4 || get_or packet 0 0 / 16 == 6
