-- ===== src/Node/Tunnel/Handling.antt =====
-- What `recv_and_handle_record` does with a datagram that was sent; the packets of the VPN.
use cryprq.Base.{ℕ, ◌≤◌, ◌<◌, ◌≡◌, refl, sym, ap, ◌∙◌, subst, arith}
use cryprq.Base.{List, [], ◌∷◌, ◌++◌, length, true, none, some, ok, err, if◌then◌else◌}
use cryprq.Core.Aead.{IsAead}
use cryprq.Core.Header.{msg_type_vpn_packet}
use cryprq.Node.Error.{TunnelError}
use cryprq.Node.Externals.{Externals}
use cryprq.Node.RecordLayer.{DirectionKeys, vpn_stream_id}
use cryprq.Node.Replay.{check_and_update}
use cryprq.Node.RateLimiter.{check_and_consume}
use cryprq.Node.SeqCounters.{SeqCounters, next_vpn, max_nonce_value}
use cryprq.Node.Tunnel.{Tunnel, next_seq, send_vpn_packet}
use cryprq.Node.Tunnel.Exchange.{
  IsSealed, sent_state, received, replayed, send_record-IsSealed, recv_record-IsSealed,
  recv_record-replayed,
}
use cryprq.Node.Tunnel.Incoming.{recv_and_handle_record, handle_incoming_record, forward_to_tun}

module _ (x : Externals) (t : Tunnel x) (now : x.timing.Instant) (from : x.Address) (mt sid seq : ℕ)
    (payload bytes : List ℕ) (sealed : IsSealed x t.keys_outbound mt sid seq payload bytes)
    (passes : (check_and_consume x.timing t.rate_limiter now).0 ≡ ok tt) where
  -- A datagram with a fresh number is handled.
  pub recv_and_handle_record-IsSealed :
      (check_and_update t.replay_window seq).0 ≡ ok tt
      → recv_and_handle_record x t now (some (bytes, from))
        ≡ handle_incoming_record x (received x t now from seq) mt sid payload
  unfolding recv_and_handle_record
  recv_and_handle_record-IsSealed fresh =
      let e = recv_record-IsSealed x t now from mt sid seq payload bytes sealed passes fresh in
      rw (ap (λ r. r.0) e, ap (λ r. r.1) e, recv_and_handle_record) refl

  -- A datagram with a number that the window refuses is not.
  pub recv_and_handle_record-replayed :
      (e : TunnelError)
      → (check_and_update t.replay_window seq).0 ≡ err e
      → recv_and_handle_record x t now (some (bytes, from)) ≡ (err e, replayed x t now from seq)
  unfolding recv_and_handle_record
  recv_and_handle_record-replayed e replay =
      let r = recv_record-replayed x t now from mt sid seq payload bytes sealed passes e replay in
      rw (ap (λ r. r.0) r, ap (λ r. r.1) r, recv_and_handle_record) refl

next_seq-vpn :
    (c : SeqCounters) → c.vpn < max_nonce_value → (next_seq c msg_type_vpn_packet).0 ≡ ok c.vpn
unfolding next_seq next_vpn
next_seq-vpn c h = ground arith

module _ (x : Externals) where
  -- The packets that have gone to the TUN device when this one has come: it is added if the device
  -- is there and takes it.
  abbrev pub forwarded : Tunnel x → List ℕ → List (List ℕ)
  forwarded t packet = elim t.tun_write_tx [
    | none ↦ t.to_tun
    | some _ ↦ if x.tun_accepts packet then t.to_tun ++ (packet ∷ []) else t.to_tun
  ]

  forward_to_tun_lem :
      (t : Tunnel x) (packet : List ℕ)
      → forward_to_tun x t packet ≡ record t { to_tun = forwarded t packet }
  unfolding forward_to_tun
  forward_to_tun_lem t packet = ground arith

  -- A packet of at most 65471 bytes goes out as one datagram, if the counter is below its limit,
  -- the epoch is a byte, the address of the peer is known and the socket takes it; and a tunnel
  -- with the same outbound keys, whose limiter and window let it pass, hands exactly this packet
  -- to its TUN device, if there is one that takes it, and changes nothing else but the pool, the
  -- limiter, the address of the peer and the window, over an AEAD with its documented behaviour.
  pub recv_and_handle_record-send_vpn_packet :
      IsAead x.aead
      → (s t : Tunnel x) (packet : List ℕ) (addr from : x.Address) (now : x.timing.Instant)
      → s.epoch.value < 256
      → s.seq_counters.vpn < max_nonce_value
      → length packet ≤ 65471
      → s.peer_addr ≡ some addr
      → ((bytes : List ℕ) → length bytes ≤ 65507 → x.send_to bytes addr ≡ true)
      → t.keys_outbound ≡ s.keys_outbound
      → (check_and_consume x.timing t.rate_limiter now).0 ≡ ok tt
      → (check_and_update t.replay_window s.seq_counters.vpn).0 ≡ ok tt
      → (bytes : List ℕ) × (send_vpn_packet x s packet
          ≡ (ok tt, sent_state x s msg_type_vpn_packet bytes addr))
        × (recv_and_handle_record x t now (some (bytes, from)) ≡ (
          ok tt,
          record (received x t now from s.seq_counters.vpn) { to_tun = forwarded t packet },
        ))
  unfolding send_vpn_packet handle_incoming_record
  recv_and_handle_record-send_vpn_packet laws s t packet addr from now epoch below fits peer takes
        same_keys limited fresh =
      let seq = s.seq_counters.vpn in
      let (bytes, sent, sealed) =
        send_record-IsSealed x laws s vpn_stream_id msg_type_vpn_packet 0 seq packet addr
          (record {
            message_type_byte = omega arith;
            flags_byte = omega arith;
            epoch_byte = epoch;
            stream_id_u32 = omega arith;
            sequence_number_u64 = omega arith;
          })
          (omega arith) (next_seq-vpn s.seq_counters below) peer
          (λ bytes size. takes bytes (omega arith)) in
      let sealed' =
        subst
          (λ (k : DirectionKeys). IsSealed x k msg_type_vpn_packet vpn_stream_id seq packet bytes)
          (sym same_keys) sealed in
      (
        bytes,
        sent,
        recv_and_handle_record-IsSealed x t now from msg_type_vpn_packet vpn_stream_id seq packet
              bytes sealed' limited fresh
            ∙ ap (λ (u : Tunnel x). (ok tt, u))
                (forward_to_tun_lem (received x t now from seq) packet),
      )
