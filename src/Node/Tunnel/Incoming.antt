-- ===== src/Node/Tunnel/Incoming.antt =====
-- `handle_incoming_record` and `handle_file_or_control` of node/src/lib.rs: what a record does.
use cryprq.Base.{ℕ, List, [], ◌∷◌, ◌++◌, ◌==◌, ◌||◌, Option, none, some}
use cryprq.Base.{Outcome, ok, err, panicked, map_err, if◌then◌else◌}
use cryprq.Core.Header.{
  msg_type_vpn_packet, msg_type_file_meta, msg_type_file_chunk, msg_type_file_ack, msg_type_control,
}
use cryprq.Node.Error.{TunnelError, handshake_failed}
use cryprq.Node.Externals.{Externals}
use cryprq.Node.FileTransfer
use cryprq.Node.Tunnel.{Tunnel, recv_record}

module _ (x : Externals) where
  -- The transfer's result becomes the tunnel's, and its state is put back.
  abbrev pub with_transfer :
      Tunnel x
      → Outcome FileTransfer.TransferError (Unit {0})
        × (FileTransfer.FileTransferManager × FileTransfer.Files)
      → TunnelError
      → Outcome TunnelError (Unit {0}) × Tunnel x
  with_transfer t (r, (manager, files)) on_error =
      (map_err (λ _. on_error) r, record t { file_transfer = manager; files = files })

  unfoldable pub handle_file_meta :
      Tunnel x → ℕ → List ℕ → Outcome TunnelError (Unit {0}) × Tunnel x
  handle_file_meta t stream_id payload = elim (FileTransfer.deserialize payload) [
    | ok meta ↦
        with_transfer t
          (FileTransfer.start_incoming_transfer x.file_system t.file_transfer t.files stream_id
            meta)
          (handshake_failed "Failed to start transfer")
    | err e ↦ (err (handshake_failed "Failed to decode file metadata"), t)
    | panicked ↦ (panicked, t)
  ]

  unfoldable pub handle_file_or_control :
      Tunnel x → ℕ → ℕ → List ℕ → Outcome TunnelError (Unit {0}) × Tunnel x
  handle_file_or_control t stream_id msg_type payload =
      if msg_type == msg_type_file_meta
      then handle_file_meta t stream_id payload
      else if msg_type == msg_type_file_chunk
      then with_transfer t
          (FileTransfer.write_chunk x.file_system t.file_transfer t.files stream_id payload)
          (handshake_failed "Failed to write chunk")
      else if msg_type == msg_type_file_ack
      then (
        map_err (λ _. handshake_failed "Failed to handle ACK")
            (FileTransfer.handle_ack stream_id payload),
        t,
      )
      else if msg_type == msg_type_control
      then (
        map_err (λ _. handshake_failed "Failed to handle control")
            (FileTransfer.handle_control stream_id payload),
        t,
      )
      else (ok tt, t)

  -- A packet that the channel does not take is only logged.
  unfoldable pub forward_to_tun : Tunnel x → List ℕ → Tunnel x
  forward_to_tun t payload = elim t.tun_write_tx [
    | none ↦ t
    | some _ ↦ if x.tun_accepts payload then record t { to_tun = t.to_tun ++ (payload ∷ []) } else t
  ]

  -- Generic data and unknown types are only logged.
  unfoldable pub handle_incoming_record :
      Tunnel x → ℕ → ℕ → List ℕ → Outcome TunnelError (Unit {0}) × Tunnel x
  handle_incoming_record t msg_type stream_id payload =
      if msg_type == msg_type_vpn_packet
      then (ok tt, forward_to_tun t payload)
      else if (msg_type == msg_type_file_meta || msg_type == msg_type_file_chunk)
          || (msg_type == msg_type_file_ack || msg_type == msg_type_control)
      then handle_file_or_control t stream_id msg_type payload
      else (ok tt, t)

  unfoldable pub recv_and_handle_record :
      Tunnel x
      → x.timing.Instant
      → Option (List ℕ × x.Address)
      → Outcome TunnelError (Unit {0}) × Tunnel x
  recv_and_handle_record t now datagram =
      let (r, t') = recv_record x t now datagram in
      elim r [
        | ok (msg_type, (stream_id, payload)) ↦ handle_incoming_record t' msg_type stream_id payload
        | err e ↦ (err e, t')
        | panicked ↦ (panicked, t')
      ]

  -- `recv_packet`: the payload only.
  unfoldable pub recv_packet :
      Tunnel x
      → x.timing.Instant
      → Option (List ℕ × x.Address)
      → Outcome TunnelError (List ℕ) × Tunnel x
  recv_packet t now datagram =
      let (r, t') = recv_record x t now datagram in
      elim r [
        | ok (_, (_, plaintext)) ↦ (ok plaintext, t')
        | err e ↦ (err e, t')
        | panicked ↦ (panicked, t')
      ]
