-- ===== src/Node/Tunnel/Exchange.antt =====
-- What sending leaves in the tunnel, and what a datagram that was sent does to another tunnel.
use cryprq.Base.{ℕ, ◌+◌, ◌≤◌, ◌≡◌, refl, ap, ◌∙◌, arith, min}
use cryprq.Base.{List, [], ◌∷◌, ◌++◌, length, take, take-length, true, some, ok, err}
use cryprq.Core.Header
use cryprq.Core.Header.{RecordHeader}
use cryprq.Core.Aead.{IsAead}
use cryprq.Core.Record.Seal.{IsRequest}
use cryprq.Node.Error.{TunnelError}
use cryprq.Node.Externals.{Externals}
use cryprq.Node.RecordLayer
use cryprq.Node.RecordLayer.{DirectionKeys}
use cryprq.Node.RecordLayer.RoundTrip.{recv_record-send_record, sent_header}
use cryprq.Node.Replay.{check_and_update}
use cryprq.Node.RateLimiter.{check_and_consume}
use cryprq.Node.Tunnel.{
  Tunnel, next_seq, send_record, send_datagram, recv_record, open_record, accept_record,
  buffer_size,
}
use cryprq.Node.Tunnel.Receive.{recv_parsed}

module _ (x : Externals) where
  -- A datagram that opens under these keys to a message of this type, stream and number.
  pub record IsSealed (keys : DirectionKeys) (mt sid seq : ℕ) (payload bytes : List ℕ)
      : Type 0 where
    pub header : RecordHeader
    pub opens : RecordLayer.recv_record x.aead bytes keys ≡ ok (header, payload)
    pub kind : header.message_type ≡ mt
    pub stream : header.stream_id ≡ sid
    pub number : header.sequence_number ≡ seq
    pub fits : length bytes ≤ buffer_size

  abbrev pub sent_state : Tunnel x → ℕ → List ℕ → x.Address → Tunnel x
  sent_state s mt bytes addr = record s {
    seq_counters = (next_seq s.seq_counters mt).1;
    sent = s.sent ++ ((bytes, addr) ∷ []);
  }

  sent_datagram :
      (s : Tunnel x) (sid mt fl seq : ℕ) (payload bytes : List ℕ) (addr : x.Address)
      → (next_seq s.seq_counters mt).0 ≡ ok seq
      → RecordLayer.send_record x.aead s.epoch sid seq mt fl payload s.keys_outbound ≡ ok bytes
      → s.peer_addr ≡ some addr
      → x.send_to bytes addr ≡ true
      → send_record x s sid mt fl payload ≡ (ok tt, sent_state s mt bytes addr)
  unfolding send_record send_datagram
  sent_datagram s sid mt fl seq payload bytes addr drawn sealed peer takes =
      ground (arith, drawn, sealed, peer, takes)

  -- A record is sent as one sealed datagram.
  pub send_record-IsSealed :
      IsAead x.aead
      → (s : Tunnel x) (sid mt fl seq : ℕ) (payload : List ℕ) (addr : x.Address)
      → IsRequest mt fl s.epoch.value sid seq
      → length payload + 36 ≤ buffer_size
      → (next_seq s.seq_counters mt).0 ≡ ok seq
      → s.peer_addr ≡ some addr
      → ((bytes : List ℕ) → length bytes ≡ length payload + 36 → x.send_to bytes addr ≡ true)
      → (bytes : List ℕ) × (send_record x s sid mt fl payload ≡ (ok tt, sent_state s mt bytes addr))
        × IsSealed s.keys_outbound mt sid seq payload bytes
  send_record-IsSealed laws s sid mt fl seq payload addr req fits drawn peer takes =
      let (bytes, sealed, size, opened) =
        recv_record-send_record x.aead laws s.epoch sid seq mt fl payload s.keys_outbound req
          (omega arith) in
      (
        bytes,
        sent_datagram s sid mt fl seq payload bytes addr drawn sealed peer (takes bytes size),
        record {
          header = sent_header s.epoch sid seq mt fl payload;
          opens = opened;
          kind = refl;
          stream = refl;
          number = refl;
          fits = omega arith;
        },
      )

  -- After a datagram that the limiter passes.
  abbrev pub polled : Tunnel x → x.timing.Instant → x.Address → Tunnel x
  polled t now from = record t {
    buffer_pool = x.pop t.buffer_pool;
    rate_limiter = (check_and_consume x.timing t.rate_limiter now).1;
    peer_addr = some from;
  }

  -- After a record that is accepted.
  abbrev pub received : Tunnel x → x.timing.Instant → x.Address → ℕ → Tunnel x
  received t now from seq = record t {
    buffer_pool = x.push (x.pop t.buffer_pool);
    rate_limiter = (check_and_consume x.timing t.rate_limiter now).1;
    peer_addr = some from;
    replay_window = (check_and_update t.replay_window seq).1;
  }

  -- After a record that is refused as a replay.
  abbrev pub replayed : Tunnel x → x.timing.Instant → x.Address → ℕ → Tunnel x
  replayed t now from seq = record (polled t now from) {
    replay_window = (check_and_update t.replay_window seq).1;
  }

  module _ (t : Tunnel x) (now : x.timing.Instant) (from : x.Address) (mt sid seq : ℕ)
      (payload bytes : List ℕ) (sealed : IsSealed t.keys_outbound mt sid seq payload bytes)
      (passes : (check_and_consume x.timing t.rate_limiter now).0 ≡ ok tt) where
    opened_record :
        open_record x (polled t now from) bytes
        ≡ accept_record x (polled t now from) sealed.header payload
    unfolding open_record
    opened_record =
        let (long, head) =
          recv_parsed x.aead bytes t.keys_outbound sealed.header payload sealed.opens in
        let parsed : Header.from_bytes (take (min (length bytes) 20) bytes) ≡ ok sealed.header =
          let short : min (length bytes) 20 ≡ 20 = omega arith in
          ap (λ (n : ℕ). Header.from_bytes (take n bytes)) short ∙ head in
        rw (parsed, sealed.opens, open_record) refl

    received_record :
        recv_record x t now (some (bytes, from))
        ≡ accept_record x (polled t now from) sealed.header payload
    unfolding recv_record
    received_record =
        let whole : take buffer_size bytes ≡ bytes = take-length buffer_size bytes sealed.fits in
        rw (passes, whole, recv_record) opened_record

    -- A sealed datagram with a fresh number is received.
    pub recv_record-IsSealed :
        (check_and_update t.replay_window seq).0 ≡ ok tt
        → recv_record x t now (some (bytes, from))
          ≡ (ok (mt, (sid, payload)), received t now from seq)
    unfolding accept_record
    recv_record-IsSealed fresh =
        received_record ∙ ground (arith, sealed.number, sealed.kind, sealed.stream, fresh)

    -- A sealed datagram whose number the window refuses is not.
    pub recv_record-replayed :
        (e : TunnelError)
        → (check_and_update t.replay_window seq).0 ≡ err e
        → recv_record x t now (some (bytes, from)) ≡ (err e, replayed t now from seq)
    unfolding accept_record
    recv_record-replayed e refused = received_record ∙ ground (arith, sealed.number, refused)
