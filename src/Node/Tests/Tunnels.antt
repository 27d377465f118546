-- ===== src/Node/Tests/Tunnels.antt =====
-- The theorems on whole tunnels at concrete inputs.
use cryprq.Base.{ℕ, ◌+◌, ◌%◌, ◌≡◌, ◌≢◌, ◌⊎◌, refl, arith, List, [], ◌∷◌, ◌++◌, replicate}
use cryprq.Base.{Outcome, ok, panicked, none, some, true}
use cryprq.Core.Header
use cryprq.Core.Record
use cryprq.Core.Record.Seal.{IsRequest}
use cryprq.Crypto.Kdf.{TrafficKeys, derive_epoch_keys, derive_handshake_keys, expand_four}
use cryprq.Crypto.Kdf.Lengths.{HasLengths}
use cryprq.Node.Error.{TunnelError}
use cryprq.Node.Example.{externals, aead-IsAead, hkdf-IsHkdf}
use cryprq.Node.SeqCounters
use cryprq.Node.RecordLayer
use cryprq.Node.Replay
use cryprq.Base.{length}
use cryprq.Node.Replay.{ReplayWindow, check_and_update, check_seen, is_marked, mark}
use cryprq.Node.RateLimiter
use cryprq.Node.RateLimiter.{check_and_consume}
use cryprq.Node.Tunnel.{Tunnel, next_seq, send_record, recv_record, open_record, accept_record}
use cryprq.Node.Tunnel.Setup.{
  create_tunnel, verify_peer_identity, shared_secret, initial_tunnel, rotate,
}
use cryprq.Node.Tunnel.Receive.{recv_record-not-panicked}
use cryprq.Node.Tunnel.Deliver.{recv_record-send_record_lem}
use cryprq.Node.Tunnel.History.{
  Event, sends, rotates, step, receives, run, no_sequence_number_twice,
}
use cryprq.Node.Tunnel.Keys.{
  IsTestKey, IsSigned, HasEpochKeys, create_tunnel-verified, rotate_lem, recv_record-rotate,
}

abbrev traffic_keys : TrafficKeys
traffic_keys = record {
  key_ir = replicate 32 1;
  iv_ir = replicate 12 2;
  key_ri = replicate 32 3;
  iv_ri = replicate 12 4;
}

abbrev fresh_tunnel : Tunnel externals
fresh_tunnel = initial_tunnel externals traffic_keys 50 none

-- A tunnel that knows the address 9 of its peer.
abbrev sender : Tunnel externals
sender = record fresh_tunnel { peer_addr = some 9 }

-- The message 42 as VPN packet 0 on stream 1.
abbrev datagram : List ℕ
datagram =
    (1 ∷ 5 ∷ 0 ∷ 0 ∷ 0 ∷ 0 ∷ 0 ∷ 1 ∷ [])
    ++ (replicate 8 0 ++ ((0 ∷ 0 ∷ 0 ∷ 17 ∷ 42 ∷ []) ++ replicate 16 0))

abbrev message : List ℕ
message = 42 ∷ []

received :
    (recv_record externals (run externals [] fresh_tunnel) 50 (some (datagram, 9))).0
    ≡ ok (5, (1, message))
unfolding run recv_record open_record accept_record check_and_consume RateLimiter.new initial_tunnel
    check_and_update check_seen Replay.in_range is_marked mark Replay.new Header.from_bytes
    Record.from_bytes Record.decrypt RecordLayer.recv_record
received = refl

abbrev between : List (Event externals)
between = sends 1 5 0 message ∷ rotates (1 ∷ []) ∷ []

fresh_window : fresh_tunnel.replay_window ≡ Replay.new
unfolding initial_tunnel
fresh_window = refl

no_sequence_number_twice_example :
    (recv_record externals
      (run externals between
        (step externals (receives 50 datagram 9) (run externals [] fresh_tunnel)))
      60
      (some (datagram, 8))).0
    ≢ ok (5, (1, message))
no_sequence_number_twice_example =
    no_sequence_number_twice externals fresh_tunnel [] between 50 60 datagram datagram 9 8
      (5, (1, message)) (5, (1, message)) fresh_window tt (tt, (tt, tt)) (omega arith) refl received

message-IsRequest : IsRequest 5 0 sender.epoch.value 1 0
unfolding initial_tunnel
message-IsRequest = record {
  message_type_byte = omega arith;
  flags_byte = omega arith;
  epoch_byte = omega arith;
  stream_id_u32 = omega arith;
  sequence_number_u64 = omega arith;
}

drawn : (next_seq sender.seq_counters 5).0 ≡ ok 0
unfolding initial_tunnel next_seq SeqCounters.next_vpn
drawn = refl

limited : (check_and_consume externals.timing fresh_tunnel.rate_limiter 50).0 ≡ ok tt
unfolding initial_tunnel check_and_consume RateLimiter.new
limited = refl

first_fresh : (check_and_update fresh_tunnel.replay_window 0).0 ≡ ok tt
unfolding initial_tunnel check_and_update check_seen Replay.in_range is_marked mark Replay.new
first_fresh = refl

same_keys : fresh_tunnel.keys_outbound ≡ sender.keys_outbound
same_keys = refl

recv_record-send_record_lem_example :
    (bytes : List ℕ) × ((send_record externals sender 1 5 0 message).0 ≡ ok tt)
    × ((send_record externals sender 1 5 0 message).1.sent ≡ sender.sent ++ ((bytes, 9) ∷ []))
    × ((recv_record externals fresh_tunnel 50 (some (bytes, 7))).0 ≡ ok (5, (1, message)))
recv_record-send_record_lem_example =
    recv_record-send_record_lem externals aead-IsAead sender fresh_tunnel 1 5 0 0 message 9 7 50
      message-IsRequest (omega arith) drawn refl (λ bytes short. refl) same_keys limited first_fresh

all_words : length fresh_tunnel.replay_window.bitmap ≡ Replay.word_count
unfolding initial_tunnel Replay.new
all_words = refl

recv_record-not-panicked_example :
    (recv_record externals fresh_tunnel 50 (some (message, 9))).0 ≢ panicked
recv_record-not-panicked_example =
    recv_record-not-panicked externals fresh_tunnel 50 (some (message, 9)) all_words

abbrev peer_key : List ℕ
peer_key = 1 ∷ replicate 31 6

abbrev signature : List ℕ
signature = 1 ∷ replicate 63 7

abbrev created : Outcome TunnelError (Tunnel externals × List ℕ)
created = create_tunnel externals true peer_key peer_key signature 50 none

abbrev epoch_keys : TrafficKeys
epoch_keys = record {
  key_ir = replicate 32 7;
  iv_ir = replicate 12 7;
  key_ri = replicate 32 7;
  iv_ri = replicate 12 7;
}

creation : created ≡ ok (initial_tunnel externals epoch_keys 50 none, replicate 32 7)
unfolding create_tunnel verify_peer_identity shared_secret derive_handshake_keys derive_epoch_keys
    expand_four
creation = refl

create_tunnel-verified_example :
    IsTestKey externals peer_key peer_key signature ⊎ IsSigned externals peer_key peer_key signature
create_tunnel-verified_example =
    create_tunnel-verified externals true peer_key peer_key signature 50 none
      (initial_tunnel externals epoch_keys 50 none) (replicate 32 7) creation

abbrev rotated : Outcome TunnelError (Unit {0}) × Tunnel externals
rotated = rotate externals (1 ∷ []) fresh_tunnel

rotate_lem_example :
    (rotated.0 ≡ ok tt)
    × (rotated.1.epoch.value ≡ (fresh_tunnel.epoch.value + 1) % 256)
    × (rotated.1.seq_counters ≡ SeqCounters.new)
    × (rotated.1.replay_window ≡ fresh_tunnel.replay_window)
    × ((k : TrafficKeys) × (derive_epoch_keys externals.hkdf {E = TunnelError}
            (1 ∷ [])
            rotated.1.epoch.value
            32
            12
          ≡ ok k)
        × HasLengths 32 12 k
        × HasEpochKeys externals rotated.1 k)
rotate_lem_example = rotate_lem externals hkdf-IsHkdf (1 ∷ []) fresh_tunnel

-- A tunnel that has received up to number 5000.
abbrev busy : Tunnel externals
busy = record fresh_tunnel { replay_window = record { max_nonce = 5000; bitmap = replicate 32 0 } }

recv_record-rotate_example :
    ((rotate externals (1 ∷ []) busy).1.seq_counters ≡ SeqCounters.new)
    × ((recv_record externals (rotate externals (1 ∷ []) busy).1 60 (some (datagram, 9))).0
        ≢ ok (5, (1, message)))
recv_record-rotate_example =
    recv_record-rotate externals hkdf-IsHkdf (1 ∷ []) busy 60 datagram 9 (5, (1, message))
      (omega arith) (omega arith)
