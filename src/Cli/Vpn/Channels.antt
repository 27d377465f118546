-- ===== src/Cli/Vpn/Channels.antt =====
-- The channels of the forwarder, and which requests of a peer go to one.
use cryprq.Base.{ℕ, zero, suc, ◌+◌, ◌≤◌, ◌<◌, ◌≡◌, refl, sym, ap, ◌∙◌, arith, min}
use cryprq.Base.{List, [], ◌∷◌, ◌++◌, length, get_or, replicate, All, ltb, ==_self, ◌==◌}
use cryprq.Base.{Bool, true, false, Option, some, inl, inr, Bool-cases, if◌then◌else◌}
use mathlib.Core.List.{append_assoc, append-nil}
use cryprq.Base.Bytes.{from_be_bytes}
use cryprq.Node.Tun
use cryprq.Node.Tun.Forwarding.{zeros_for, tun_read_task-zeros}
use cryprq.P2p.Forwarder
use cryprq.P2p.Forwarder.{Forwarder}
use cryprq.P2p.Swarm
use cryprq.P2p.Swarm.Requests.{collect, forwarded, to_forward, routed, events_of}
use cryprq.Cli.Receive.Served.{requests}
use cryprq.Cli.Vpn

-- The task that sends makes a request of each packet, with at least as many turns as there are packets.
abbrev pub to_peer : List ℕ → List (List ℕ) → List (List ℕ × List ℕ)
to_peer peer [] = []
to_peer peer (packet ∷ packets) = (peer, packet) ∷ to_peer peer packets

send_task_lem :
    (turns : ℕ) (peer : List ℕ) (queue rest : List (List ℕ))
    → length queue ≤ turns
    → (Forwarder.send_task turns
        (record { peer_id = peer; send_queue = queue; recv_queue = rest })).0
      ≡ to_peer peer queue
unfolding Forwarder.send_task Forwarder.send_turn
send_task_lem zero peer [] rest h = refl
send_task_lem zero peer (p ∷ ps) rest h = absurd (omega arith)
send_task_lem (suc turns) peer [] rest h = send_task_lem turns peer [] rest (omega arith)
send_task_lem (suc turns) peer (p ∷ ps) rest h =
    ap (λ t. (peer, p) ∷ t) (send_task_lem turns peer ps rest (omega arith))

forward_all_lem :
    (f : Forwarder) (packets : List (List ℕ))
    → Vpn.forward_all f packets ≡ record f { send_queue = f.send_queue ++ packets }
unfolding Vpn.forward_all Forwarder.send_packet
forward_all_lem f [] =
    ap (λ (q : List (List ℕ)). let g : Forwarder = record f { send_queue = q } in g)
      (sym (append-nil f.send_queue))
forward_all_lem f (p ∷ ps) =
    forward_all_lem (Forwarder.send_packet f p).1 ps
    ∙ ap (λ (q : List (List ℕ)). let g : Forwarder = record f { send_queue = q } in g)
        (append_assoc f.send_queue (p ∷ []) ps)

-- What the device reads goes out as requests with as many zeros.
pub outgoing-zeros :
    (turns : ℕ) (peer : List ℕ) (reads : List Tun.DeviceRead)
    → length (zeros_for Tun.buffer_size reads) ≤ turns
    → Vpn.outgoing turns (Forwarder.new peer) reads ≡ to_peer peer (zeros_for Tun.buffer_size reads)
unfolding Vpn.outgoing Forwarder.new
outgoing-zeros turns peer reads h =
    let zeros = zeros_for Tun.buffer_size reads in
    ap
      (λ (q : List (List ℕ)).
        (Forwarder.send_task turns (Vpn.forward_all (Forwarder.new peer) q)).0)
      (tun_read_task-zeros reads)
    ∙ ap (λ (f : Forwarder). (Forwarder.send_task turns f).0)
        (forward_all_lem (Forwarder.new peer) zeros)
    ∙ send_task_lem turns peer zeros [] h

-- Zeros are taken for the metadata of a file.
is_file_transfer-zeros :
    (n : ℕ) → Swarm.is_file_transfer (replicate (suc (suc (suc (suc n)))) 0) ≡ true
unfolding Swarm.is_file_transfer
is_file_transfer-zeros n = ground arith

-- A packet whose first byte is not 0 is none of a file: those of IP start with 4 or 6 in the upper
-- half of a byte.
abbrev pub IsIpPacket : List ℕ → Type 0
IsIpPacket packet = (4 ≤ length packet) × (0 < get_or packet 0 0)

is_file_transfer-ip : (packet : List ℕ) → IsIpPacket packet → Swarm.is_file_transfer packet ≡ false
unfolding Swarm.is_file_transfer
is_file_transfer-ip [] h = absurd (omega (arith, h.0))
is_file_transfer-ip (a ∷ []) h = absurd (omega (arith, h.0))
is_file_transfer-ip (a ∷ b ∷ []) h = absurd (omega (arith, h.0))
is_file_transfer-ip (a ∷ b ∷ c ∷ []) h = absurd (omega (arith, h.0))
is_file_transfer-ip (a ∷ b ∷ c ∷ d ∷ rest) h =
    let large : ltb (from_be_bytes (a ∷ b ∷ c ∷ d ∷ [])) 3 ≡ false = ground (arith, h.1) in
    ground (arith, large)

-- Every packet that the device gives is long enough for the type of a file's packet.
abbrev pub IsLong : Tun.DeviceRead → Type 0
IsLong (Tun.packet_read bytes) = 4 ≤ length bytes
IsLong Tun.read_error = Unit

-- The packets for one channel, in order.
abbrev pub for_channel : ℕ → List (ℕ × List ℕ) → List (List ℕ)
for_channel channel [] = []
for_channel channel ((c, packet) ∷ rest) =
    if c == channel then packet ∷ for_channel channel rest else for_channel channel rest

abbrev pub packets_of : List (List ℕ × List ℕ) → List (List ℕ)
packets_of [] = []
packets_of ((peer, packet) ∷ rest) = packet ∷ packets_of rest

pub packets_of-to_peer :
    (peer : List ℕ) (packets : List (List ℕ)) → packets_of (to_peer peer packets) ≡ packets
packets_of-to_peer peer [] = refl
packets_of-to_peer peer (p ∷ ps) = ap (λ t. p ∷ t) (packets_of-to_peer peer ps)

module _ (is_open : ℕ → Bool) (now : ℕ) (peer : List ℕ) where
  zeros_not_forwarded :
      (channels : List ℕ → Option ℕ) (channel : ℕ) (n : ℕ)
      → 4 ≤ n
      → to_forward is_open channels
          (Swarm.request_response (Swarm.request peer channel (replicate n 0)))
        ≡ []
  zeros_not_forwarded channels channel zero h = absurd (omega arith)
  zeros_not_forwarded channels channel (suc zero) h = absurd (omega arith)
  zeros_not_forwarded channels channel (suc (suc zero)) h = absurd (omega arith)
  zeros_not_forwarded channels channel (suc (suc (suc zero))) h = absurd (omega arith)
  zeros_not_forwarded channels channel (suc (suc (suc (suc n)))) h =
      ground (arith, is_file_transfer-zeros n)

  pub zeros_collected :
      (channels : List ℕ → Option ℕ) (channel : ℕ) (reads : List Tun.DeviceRead)
      → All IsLong reads
      → routed is_open channels
          (events_of (requests now peer channel (zeros_for Tun.buffer_size reads)))
        ≡ []
  zeros_collected channels channel [] h = refl
  zeros_collected channels channel (Tun.read_error ∷ reads) h = refl
  zeros_collected channels channel (Tun.packet_read bytes ∷ reads) h =
      let n = min Tun.buffer_size (length bytes) in
      let some_bytes : ltb 0 n ≡ true = ground (arith, h.0) in
      let lost = zeros_not_forwarded channels channel n (omega (arith, h.0)) in
      let rest = zeros_collected channels (channel + 1) reads h.1 in
      ground (arith, some_bytes, lost, rest)

  -- The packets of IP from a peer with an open channel go to it.
  pub ip_collected :
      (channels : List ℕ → Option ℕ) (c channel : ℕ) (packets : List (List ℕ))
      → channels peer ≡ some c
      → is_open c ≡ true
      → All IsIpPacket packets
      → for_channel c (routed is_open channels (events_of (requests now peer channel packets)))
        ≡ packets
  ip_collected channels c channel [] registered opened h = refl
  ip_collected channels c channel (p ∷ ps) registered opened h =
      let kept = is_file_transfer-ip p h.0 in
      let rest = ip_collected channels c (channel + 1) ps registered opened h.1 in
      ground (arith, registered, opened, kept, rest, ==_self c)

pub zeros-le :
    (size : ℕ) (reads : List Tun.DeviceRead) → length (zeros_for size reads) ≤ length reads
zeros-le size [] = omega arith
zeros-le size (Tun.read_error ∷ reads) = omega arith
zeros-le size (Tun.packet_read bytes ∷ reads) = ground (arith, zeros-le size reads)

pub deliver_all_lem :
    (c : ℕ) (f : Forwarder) (actions : List Swarm.Action)
    → Vpn.deliver_all c f actions
      ≡ record f { recv_queue = f.recv_queue ++ for_channel c (collect forwarded actions) }
unfolding Vpn.deliver_all Forwarder.deliver
deliver_all_lem c f [] = ground (arith, append-nil f.recv_queue)
deliver_all_lem c f (Swarm.disconnect peer_id ∷ actions) = deliver_all_lem c f actions
deliver_all_lem c f (Swarm.connected peer_id ∷ actions) = deliver_all_lem c f actions
deliver_all_lem c f (Swarm.respond channel bytes ∷ actions) = deliver_all_lem c f actions
deliver_all_lem c f (Swarm.forward recv_tx packet ∷ actions) =
    let rest = for_channel c (collect forwarded actions) in
    elim (Bool-cases (recv_tx == c)) [
      | inl here ↦ ground (
        arith,
        here,
        deliver_all_lem c (Forwarder.deliver f packet) actions,
        append_assoc f.recv_queue (packet ∷ []) rest,
      )
      | inr other ↦ ground (arith, other, deliver_all_lem c f actions)
    ]

pub receive_all_lem :
    (device_takes : List ℕ → Bool) (turns : ℕ) (peer : List ℕ) (waiting queue : List (List ℕ))
    → All (λ packet. device_takes packet ≡ true) queue
    → length queue ≤ turns
    → Tun.tun_write_task device_takes (
        Vpn.receive_all turns (record { peer_id = peer; send_queue = waiting; recv_queue = queue }))
      ≡ queue
unfolding Vpn.receive_all Forwarder.recv_packet Tun.tun_write_task
receive_all_lem device_takes zero peer waiting [] taken h = refl
receive_all_lem device_takes zero peer waiting (p ∷ ps) taken h = absurd (omega arith)
receive_all_lem device_takes (suc turns) peer waiting [] taken h =
    receive_all_lem device_takes turns peer waiting [] taken (omega arith)
receive_all_lem device_takes (suc turns) peer waiting (p ∷ ps) taken h =
    rw (taken.0)
      (ap (λ t. p ∷ t) (receive_all_lem device_takes turns peer waiting ps taken.1 (omega arith)))
