-- ===== src/Node/Tunnel/Tests.antt =====
-- The theorems on the VPN, the epochs and the tasks of a tunnel at concrete inputs.
use cryprq.Base.{ℕ, zero, suc, ◌+◌, ◌<◌, ◌^◌, ◌≡◌, refl, arith}
use cryprq.Base.{List, [], ◌∷◌, ◌++◌, All, replicate, none, some, ok, true}
use cryprq.Core.Header.{msg_type_vpn_packet}
use cryprq.Crypto.Kdf.{TrafficKeys, derive_epoch_keys, derive_handshake_keys, expand_four}
use cryprq.Node.Example.{externals, aead-IsAead, hkdf-IsHkdf}
use cryprq.Node.RateLimiter
use cryprq.Node.RateLimiter.{check_and_consume}
use cryprq.Node.Replay
use cryprq.Node.Replay.{check_and_update, check_seen, is_marked, mark}
use cryprq.Node.SeqCounters
use cryprq.Node.Tunnel.{Tunnel, send_vpn_packet}
use cryprq.Node.Tunnel.Epochs.{SameKeys, IsOwn, rotations, keys_recur}
use cryprq.Node.Tunnel.Exchange.{sent_state, received}
use cryprq.Node.Tunnel.Handling.{forwarded, recv_and_handle_record-send_vpn_packet}
use cryprq.Node.Tunnel.History.{Event, rotates, run}
use cryprq.Node.Tunnel.Incoming.{recv_and_handle_record}
use cryprq.Node.Tunnel.Setup.{
  create_tunnel, verify_peer_identity, shared_secret, initial_tunnel, rotate,
}
use cryprq.Node.Tunnel.Tasks
use cryprq.Node.Tunnel.Tasks.Numbers.{Increasing, numbers_increase}
use cryprq.Node.Tunnel.Tasks.Races.{first_packet, number_reused}

abbrev keys : TrafficKeys
keys = record {
  key_ir = replicate 32 7;
  iv_ir = replicate 12 7;
  key_ri = replicate 32 7;
  iv_ri = replicate 12 7;
}

abbrev tunnel : Tunnel externals
tunnel = initial_tunnel externals keys 50 none

abbrev sender : Tunnel externals
sender = record tunnel { peer_addr = some 9 }

abbrev receiver : Tunnel externals
receiver = record tunnel { tun_write_tx = some tt }

abbrev packet : List ℕ
packet = 0x45 ∷ 0 ∷ []

passes : (check_and_consume externals.timing receiver.rate_limiter 50).0 ≡ ok tt
unfolding initial_tunnel check_and_consume RateLimiter.new
passes = refl

first_fresh : (check_and_update receiver.replay_window sender.seq_counters.vpn).0 ≡ ok tt
unfolding initial_tunnel check_and_update check_seen Replay.in_range is_marked mark Replay.new
first_fresh = refl

epoch_byte : sender.epoch.value < 256
unfolding initial_tunnel
epoch_byte = omega arith

below : sender.seq_counters.vpn < SeqCounters.max_nonce_value
unfolding initial_tunnel
below = omega arith

recv_and_handle_record-send_vpn_packet_example :
    (bytes : List ℕ) × (send_vpn_packet externals sender packet
      ≡ (ok tt, sent_state externals sender msg_type_vpn_packet bytes 9))
    × (recv_and_handle_record externals receiver 50 (some (bytes, 7)) ≡ (
      ok tt,
      record (received externals receiver 50 7 sender.seq_counters.vpn) {
        to_tun = forwarded externals receiver packet;
      },
    ))
recv_and_handle_record-send_vpn_packet_example =
    recv_and_handle_record-send_vpn_packet externals aead-IsAead sender receiver packet 9 7 50
      epoch_byte below (omega arith) refl (λ bytes short. refl) refl passes first_fresh

creation :
    create_tunnel externals true (replicate 32 2) (replicate 32 3) (replicate 64 4) 50 none
    ≡ ok (tunnel, replicate 32 7)
unfolding create_tunnel verify_peer_identity shared_secret derive_handshake_keys derive_epoch_keys
    expand_four
creation = refl

-- So many rotations.
abbrev turns : ℕ → List (Event externals)
turns n = replicate n (rotates (replicate 32 7))

turns-IsOwn : (n : ℕ) → All (IsOwn externals (replicate 32 7)) (turns n)
turns-IsOwn zero = tt
turns-IsOwn (suc n) = (refl, turns-IsOwn n)

rotations-turns : (n : ℕ) → rotations externals (replicate 32 7) (turns n) ≡ n
rotations-turns zero = refl
rotations-turns (suc n) = omega (arith, rotations-turns n)

keys_recur_example :
    let u = (rotate externals (replicate 32 7) (run externals (turns 1) tunnel)).1 in
    let u' = (rotate externals (replicate 32 7) (run externals (turns 1 ++ turns 256) tunnel)).1 in
    SameKeys externals (replicate 32 7) u u'
    × (u.seq_counters ≡ SeqCounters.new)
    × (u'.seq_counters ≡ SeqCounters.new)
keys_recur_example =
    keys_recur externals (replicate 32 7) hkdf-IsHkdf true (replicate 32 2) (replicate 32 3)
      (replicate 64 4) 50 none tunnel (turns 1) (turns 256) creation (turns-IsOwn 1)
      (turns-IsOwn 256) (omega (arith, rotations-turns 256))

abbrev cells : Tasks.Cells
cells = record {
  epoch = record { value = 0 };
  keys_outbound = record { key = replicate 32 7; iv = replicate 12 7 };
  keys_inbound = record { key = replicate 32 7; iv = replicate 12 7 };
  seq_counters = SeqCounters.new;
}

number_reused_example :
    (s : Tasks.System) × Tasks.Reach externals.hkdf [] (Tasks.start cells 2) s
    × (s.sealed ≡ first_packet cells 1 ∷ first_packet cells 0 ∷ [])
number_reused_example = number_reused externals.hkdf hkdf-IsHkdf [] cells refl

-- The same run once more.
race :
    (s : Tasks.System) × Tasks.Reach externals.hkdf [] (Tasks.start cells 2) s
    × (s.sealed ≡ first_packet cells 1 ∷ first_packet cells 0 ∷ [])
race = number_reused externals.hkdf hkdf-IsHkdf [] cells refl

numbers_increase_example : Increasing race.0.sealed × (race.0.cells.seq_counters.vpn + 1 < 2 ^ 64)
numbers_increase_example =
    numbers_increase externals.hkdf [] 2 (omega arith) (omega arith) cells (omega arith) race.1
