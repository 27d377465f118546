-- ===== src/Node/Tunnel.antt =====
-- `Tunnel` of node/src/lib.rs: its state, sending and receiving.
pub mod Incoming
pub mod Setup
pub mod Receive
pub mod Exchange
pub mod Deliver
pub mod Handling
pub mod TestKeys
pub mod History
pub mod Epochs
pub mod Tasks
mod Tests
pub mod Keys
pub mod Auth
use cryprq.Base.{
  ℕ, ◌+◌, ◌^◌, List, [], ◌∷◌, ◌++◌, length, take, leb, ◌==◌, ◌||◌, min, Option, none, some,
}
use cryprq.Base.{Outcome, ok, err, panicked, if◌then◌else◌}
use cryprq.Base.Bytes.{to_be_bytes}
use cryprq.Core.Header
use cryprq.Core.Header.{
  msg_type_vpn_packet, msg_type_file_meta, msg_type_file_chunk, msg_type_file_ack, msg_type_control,
}
use cryprq.Node.Error.{
  TunnelError, encryption_failed, decryption_failed, nonce_overflow, network_error, io_error,
}
use cryprq.Node.Externals.{Externals}
use cryprq.Node.CryptoUtils.{Epoch, make_nonce}
use cryprq.Node.SeqCounters.{SeqCounters, next_vpn, next_data, next_file, max_nonce_value}
use cryprq.Node.RecordLayer
use cryprq.Node.RecordLayer.{DirectionKeys, vpn_stream_id}
use cryprq.Node.Replay.{ReplayWindow, check_and_update}
use cryprq.Node.RateLimiter.{RateLimiter, check_and_consume}
use cryprq.Node.FileTransfer.{FileTransferManager, FileMetadata, Files, serialize}

abbrev pub buffer_size : ℕ
buffer_size = 65535

-- The fields of `Tunnel`, and what has left it: the datagrams that the socket took, the packets that
-- went to the TUN channel, and the files. The writer itself is only there or not there.
pub record Tunnel (x : Externals) : Type 0 where
  pub session_key : List ℕ
  pub static_iv : List ℕ
  pub epoch : Epoch
  pub keys_outbound : DirectionKeys
  pub keys_inbound : DirectionKeys
  pub seq_counters : SeqCounters
  pub peer_addr : Option (x.Address)
  pub nonce_counter : ℕ
  pub replay_window : ReplayWindow
  pub rate_limiter : RateLimiter x.timing
  pub buffer_pool : x.Pool
  pub tun_write_tx : Option (Unit {0})
  pub file_transfer : FileTransferManager
  pub sent : List (List ℕ × x.Address)
  pub to_tun : List (List ℕ)
  pub files : Files

-- The `match` on the message type that draws the sequence number.
unfoldable pub next_seq : SeqCounters → ℕ → Outcome TunnelError ℕ × SeqCounters
next_seq c message_type =
    let (vpn_seq, c') = next_vpn c in
    if message_type == msg_type_vpn_packet
    then elim vpn_seq [ none ↦ (err nonce_overflow, c') | some seq ↦ (ok seq, c') ]
    else if (message_type == msg_type_file_meta || message_type == msg_type_file_chunk)
        || (message_type == msg_type_file_ack || message_type == msg_type_control)
    then (ok (next_file c).0, (next_file c).1)
    else (ok (next_data c).0, (next_data c).1)

module _ (x : Externals) where
  -- `set_tun_writer`
  unfoldable pub set_tun_writer : Tunnel x → Tunnel x
  set_tun_writer t = record t { tun_write_tx = some tt }

  -- The datagram goes to the peer, if its address is known.
  unfoldable pub send_datagram :
      Tunnel x → List ℕ → TunnelError → Outcome TunnelError (Unit {0}) × Tunnel x
  send_datagram t bytes on_error = elim t.peer_addr [
    | none ↦ (ok tt, t)
    | some addr ↦
        if x.send_to bytes addr
        then (ok tt, record t { sent = t.sent ++ ((bytes, addr) ∷ []) })
        else (err on_error, t)
  ]

  -- `send_record`: a drawn number stays drawn when the record is not sent.
  unfoldable pub send_record :
      Tunnel x → ℕ → ℕ → ℕ → List ℕ → Outcome TunnelError (Unit {0}) × Tunnel x
  send_record t stream_id message_type flags payload =
      let (drawn, counters) = next_seq t.seq_counters message_type in
      let t' : Tunnel x = record t { seq_counters = counters } in
      elim drawn [
        | ok seq ↦
            elim (RecordLayer.send_record x.aead t.epoch stream_id seq message_type flags payload
              t.keys_outbound) [
                | ok record_bytes ↦ send_datagram t' record_bytes network_error
                | err e ↦ (err encryption_failed, t')
                | panicked ↦ (panicked, t')
              ]
        | err e ↦ (err e, t')
        | panicked ↦ (panicked, t')
      ]

  -- `send_packet` and `send_vpn_packet`
  unfoldable pub send_vpn_packet : Tunnel x → List ℕ → Outcome TunnelError (Unit {0}) × Tunnel x
  send_vpn_packet t packet = send_record t vpn_stream_id msg_type_vpn_packet 0 packet

  unfoldable pub send_file_meta :
      Tunnel x → ℕ → FileMetadata → Outcome TunnelError (Unit {0}) × Tunnel x
  send_file_meta t stream_id meta = send_record t stream_id msg_type_file_meta 0 (serialize meta)

  unfoldable pub send_file_chunk : Tunnel x → ℕ → List ℕ → Outcome TunnelError (Unit {0}) × Tunnel x
  send_file_chunk t stream_id chunk = send_record t stream_id msg_type_file_chunk 0 chunk

  unfoldable pub send_file_ack : Tunnel x → ℕ → List ℕ → Outcome TunnelError (Unit {0}) × Tunnel x
  send_file_ack t stream_id ack_data = send_record t stream_id msg_type_file_ack 0 ack_data

  -- `send_packet_legacy`, with no record header; the counter is raised before it is used.
  unfoldable pub send_packet_legacy : Tunnel x → List ℕ → Outcome TunnelError (Unit {0}) × Tunnel x
  send_packet_legacy t pkt =
      let nonce_value = t.nonce_counter + 1 in
      let t' : Tunnel x = record t { nonce_counter = nonce_value } in
      if leb max_nonce_value t.nonce_counter
      then (err nonce_overflow, t)
      else elim (x.aead.seal t.session_key (make_nonce t.static_iv nonce_value) [] pkt) [
        | none ↦ (err encryption_failed, t')
        | some ciphertext ↦ send_datagram t' (to_be_bytes 8 nonce_value ++ ciphertext) io_error
      ]

  -- A decrypted record is checked for a replay, and the buffer goes back to the pool.
  unfoldable pub accept_record :
      Tunnel x → Header.RecordHeader → List ℕ → Outcome TunnelError (ℕ × (ℕ × List ℕ)) × Tunnel x
  accept_record t header payload =
      let (checked, window) = check_and_update t.replay_window header.sequence_number in
      elim checked [
        | ok _ ↦ (
          ok (header.message_type, (header.stream_id, payload)),
          record t { replay_window = window; buffer_pool = x.push t.buffer_pool },
        )
        | err e ↦ (err e, record t { replay_window = window })
        | panicked ↦ (panicked, record t { replay_window = window })
      ]

  -- The header is parsed, then the record is decrypted with the outbound keys.
  unfoldable pub open_record : Tunnel x → List ℕ → Outcome TunnelError (ℕ × (ℕ × List ℕ)) × Tunnel x
  open_record t buf = elim (Header.from_bytes (take (min (length buf) 20) buf)) [
    | ok header ↦ elim (RecordLayer.recv_record x.aead buf t.keys_outbound) [
      | ok (header', payload) ↦ accept_record t header' payload
      | err e ↦ (err decryption_failed, t)
      | panicked ↦ (panicked, t)
    ]
    | err e ↦ (err decryption_failed, t)
    | panicked ↦ (panicked, t)
  ]

  -- `recv_record` at an instant, on the datagram and its sender, or on an error of the socket. A
  -- datagram is cut to the size of the buffer.
  unfoldable pub recv_record :
      Tunnel x
      → x.timing.Instant
      → Option (List ℕ × x.Address)
      → Outcome TunnelError (ℕ × (ℕ × List ℕ)) × Tunnel x
  recv_record t now none = (err network_error, record t { buffer_pool = x.pop t.buffer_pool })
  recv_record t now (some (datagram, addr)) =
      let (checked, limiter) = check_and_consume x.timing t.rate_limiter now in
      let t' : Tunnel x = record t { buffer_pool = x.pop t.buffer_pool; rate_limiter = limiter } in
      elim checked [
        | ok _ ↦ open_record (record t' { peer_addr = some addr }) (take buffer_size datagram)
        | err e ↦ (err e, t')
        | panicked ↦ (panicked, t')
      ]
