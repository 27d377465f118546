-- ===== src/Node/Tunnel/Deliver.antt =====
-- A record sent by one tunnel is received by another one with the same keys.
use cryprq.Base.{ℕ, ◌≤◌, ◌≡◌, sym, ap, subst}
use cryprq.Base.{arith}
use cryprq.Base.{List, [], ◌∷◌, ◌++◌, length, true, some, ok}
use cryprq.Core.Aead.{IsAead}
use cryprq.Core.Record.Seal.{IsRequest}
use cryprq.Node.Externals.{Externals}
use cryprq.Node.RecordLayer.{DirectionKeys}
use cryprq.Node.Replay.{check_and_update}
use cryprq.Node.RateLimiter.{check_and_consume}
use cryprq.Node.Tunnel.{Tunnel, next_seq, send_record, recv_record}
use cryprq.Node.Tunnel.Exchange.{IsSealed, send_record-IsSealed, recv_record-IsSealed}

module _ (x : Externals) where
  -- A record of at most 65471 bytes of payload, with its fields in the ranges of their types,
  -- goes out as one datagram to the known address of the peer, over a socket that takes datagrams
  -- of at most 65507 bytes, and a tunnel with the same outbound keys, whose limiter and window
  -- let it pass, receives the message type, stream and payload that were sent, over an AEAD with
  -- its documented behaviour.
  pub recv_record-send_record_lem :
      IsAead x.aead
      → (s t : Tunnel x) (sid mt fl seq : ℕ) (payload : List ℕ) (addr from : x.Address)
        (now : x.timing.Instant)
      → IsRequest mt fl s.epoch.value sid seq
      → length payload ≤ 65471
      → (next_seq s.seq_counters mt).0 ≡ ok seq
      → s.peer_addr ≡ some addr
      → ((bytes : List ℕ) → length bytes ≤ 65507 → x.send_to bytes addr ≡ true)
      → t.keys_outbound ≡ s.keys_outbound
      → (check_and_consume x.timing t.rate_limiter now).0 ≡ ok tt
      → (check_and_update t.replay_window seq).0 ≡ ok tt
      → (bytes : List ℕ) × ((send_record x s sid mt fl payload).0 ≡ ok tt)
        × ((send_record x s sid mt fl payload).1.sent ≡ s.sent ++ ((bytes, addr) ∷ []))
        × ((recv_record x t now (some (bytes, from))).0 ≡ ok (mt, (sid, payload)))
  recv_record-send_record_lem laws s t sid mt fl seq payload addr from now req fits drawn peer takes
        same_keys limited fresh =
      let (bytes, sent, sealed) =
        send_record-IsSealed x laws s sid mt fl seq payload addr req (omega (arith, fits)) drawn
          peer (λ bytes size. takes bytes (omega (arith, size, fits))) in
      let sealed' =
        subst (λ (k : DirectionKeys). IsSealed x k mt sid seq payload bytes) (sym same_keys)
          sealed in
      let arrived =
        recv_record-IsSealed x t now from mt sid seq payload bytes sealed' limited fresh in
      (bytes, ap (λ r. r.0) sent, ap (λ r. r.1.sent) sent, ap (λ r. r.0) arrived)
