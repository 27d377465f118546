-- ===== src/Cli/Upload/Datagrams.antt =====
-- A chunk of the whole buffer does not fit a datagram.
use cryprq.Base.{ℕ, zero, suc, ◌+◌, ◌≤◌, ◌<◌, min, List, length, take, replicate, ◌==◌}
use cryprq.Base.{◌≡◌, ◌≢◌, refl, sym, ap, ◌∙◌, arith, Bool, false, Option, none, some, inl, inr}
use cryprq.Base.{Outcome, ok, err, Outcome-cases, >>=-eq-ok, map_err}
use cryprq.Base.{length-take}
use cryprq.Core.Aead.{Aead, IsAead}
use cryprq.Core.Record.{to_bytes, encrypt}
use cryprq.Core.Record.Codec.{length-to_bytes}
use cryprq.Core.Record.Seal.{encrypt-eq-ok}
use cryprq.Node.CryptoUtils.{Epoch}
use cryprq.Node.Externals.{Externals}
use cryprq.Node.FileTransfer.{FileMetadata}
use cryprq.Node.FileTransfer
use cryprq.Node.RecordLayer
use cryprq.Node.RecordLayer.{DirectionKeys}
use cryprq.Node.Error.{network_error}
use cryprq.Node.Tunnel.{
  Tunnel, next_seq, send_datagram, send_record, send_file_meta, send_file_chunk,
}
use cryprq.P2p.Files.{SourceFile, chunk_size}
use cryprq.P2p.Files.Cutting.{Fills}
use cryprq.Base.{Option-cases}
use cryprq.Node.Tunnel.Setup.{create_tunnel}
use cryprq.Cli.Send.{parse_udp_addr}
use cryprq.Cli.Upload

-- A record is 36 bytes longer than what it carries.
send_record-length :
    (aead : Aead)
    → IsAead aead
    → (ep : Epoch) (sid seq mt fl : ℕ) (msg bytes : List ℕ) (keys : DirectionKeys)
    → RecordLayer.send_record aead ep sid seq mt fl msg keys ≡ ok bytes
    → length bytes ≡ 36 + length msg
unfolding RecordLayer.send_record
send_record-length aead laws ep sid seq mt fl msg bytes keys e =
    let (r, sealed, rest) =
      >>=-eq-ok (encrypt aead mt fl ep.value sid seq msg keys.key keys.iv) _ e in
    let (called, built) = encrypt-eq-ok aead mt fl ep.value sid seq msg keys.key keys.iv r sealed in
    let tagged = laws.length-seal keys.key _ _ msg r.ciphertext called in
    let same : to_bytes r ≡ bytes = cc in
    ap length (sym same) ∙ omega (arith, length-to_bytes r, tagged)

module _ (x : Externals) (laws : IsAead x.aead)
    (bounded : (bytes : List ℕ) (addr : x.Address)
      → 65507 < length bytes
      → x.send_to bytes addr ≡ false) where
  send_datagram-refused :
      (t : Tunnel x) (bytes : List ℕ) (addr : x.Address)
      → t.peer_addr ≡ some addr
      → 65507 < length bytes
      → send_datagram x t bytes network_error ≡ (err network_error, t)
  unfolding send_datagram
  send_datagram-refused t bytes addr peer long =
      let refused = bounded bytes addr long in ground (arith, peer, refused)

  send_record-refused :
      (t : Tunnel x) (sid mt fl : ℕ) (payload : List ℕ) (addr : x.Address)
      → t.peer_addr ≡ some addr
      → 65472 ≤ length payload
      → (send_record x t sid mt fl payload).0 ≢ ok tt
  unfolding send_record
  send_record-refused t sid mt fl payload addr peer long done =
      elim (Outcome-cases (next_seq t.seq_counters mt).0) [
        | inr (inl (e, drawn)) ↦ ground (arith, drawn, done)
        | inr (inr drawn) ↦ ground (arith, drawn, done)
        | inl (seq, drawn) ↦
            elim (Outcome-cases
              (RecordLayer.send_record x.aead t.epoch sid seq mt fl payload t.keys_outbound)) [
                | inr (inl (e, sealed)) ↦ ground (arith, drawn, sealed, done)
                | inr (inr sealed) ↦ ground (arith, drawn, sealed, done)
                | inl (bytes, sealed) ↦
                    let size =
                      send_record-length x.aead laws t.epoch sid seq mt fl payload bytes
                        t.keys_outbound sealed in
                    let t' : Tunnel x = record t {
                      seq_counters = (next_seq t.seq_counters mt).1;
                    } in
                    let refused = send_datagram-refused t' bytes addr peer (omega arith) in
                    ground (arith, drawn, sealed, refused, done)
              ]
      ]

  send_datagram-peer :
      (t : Tunnel x) (bytes : List ℕ)
      → (send_datagram x t bytes network_error).1.peer_addr ≡ t.peer_addr
  unfolding send_datagram
  send_datagram-peer t bytes = ground arith

  send_record-peer :
      (t : Tunnel x) (sid mt fl : ℕ) (payload : List ℕ)
      → (send_record x t sid mt fl payload).1.peer_addr ≡ t.peer_addr
  unfolding send_record
  send_record-peer t sid mt fl payload =
      let t' : Tunnel x = record t { seq_counters = (next_seq t.seq_counters mt).1 } in
      elim (Outcome-cases (next_seq t.seq_counters mt).0) [
        | inr (inl (e, drawn)) ↦ ground (arith, drawn)
        | inr (inr drawn) ↦ ground (arith, drawn)
        | inl (seq, drawn) ↦
            elim (Outcome-cases
              (RecordLayer.send_record x.aead t.epoch sid seq mt fl payload t.keys_outbound)) [
                | inr (inl (e, sealed)) ↦ ground (arith, drawn, sealed)
                | inr (inr sealed) ↦ ground (arith, drawn, sealed)
                | inl (bytes, sealed) ↦
                    let kept = send_datagram-peer t' bytes in ground (arith, drawn, sealed, kept)
              ]
      ]

  module _ (read : List ℕ → Option ℕ) (fills : Fills read) where
    upload_chunks-refused :
        (fuel : ℕ) (t : Tunnel x) (stream_id : ℕ) (content : List ℕ) (addr : x.Address)
        → t.peer_addr ≡ some addr
        → chunk_size ≤ length content
        → (Upload.upload_chunks x read fuel t stream_id content).0 ≢ ok tt
    unfolding Upload.upload_chunks send_file_chunk
    upload_chunks-refused zero t stream_id content addr peer large done = cc
    upload_chunks-refused (suc fuel) t stream_id content addr peer large done =
        let (n, e, full) = fills content in
        let size : length (take (min n chunk_size) content) ≡ chunk_size =
          omega (arith, length-take (min n chunk_size) content) in
        let refused =
          send_record-refused t stream_id 3 0 (take (min n chunk_size) content) addr peer
            (omega arith) in
        let some_bytes : (length (take (min n chunk_size) content) == 0) ≡ false =
          ground (arith, size) in
        elim (Outcome-cases (send_record x t stream_id 3 0 (take (min n chunk_size) content)).0) [
          | inl (a, sent) ↦ refused sent
          | inr (inl (f, failed)) ↦ ground (arith, e, some_bytes, failed, done)
          | inr (inr failed) ↦ ground (arith, e, some_bytes, failed, done)
        ]

    upload-refused :
        (t : Tunnel x) (meta : FileMetadata) (content : List ℕ) (addr : x.Address)
        → t.peer_addr ≡ some addr
        → chunk_size ≤ length content
        → (Upload.upload x read t meta content).0 ≢ ok tt
    unfolding Upload.upload send_file_meta
    upload-refused t meta content addr peer large done =
        let (stream_id, manager) = FileTransfer.alloc_stream_id t.file_transfer in
        let t1 : Tunnel x = record t { file_transfer = manager } in
        let sent = send_record x t1 stream_id 2 0 (FileTransfer.serialize meta) in
        let known = send_record-peer t1 stream_id 2 0 (FileTransfer.serialize meta) ∙ peer in
        let refused =
          upload_chunks-refused (suc (length content)) sent.1 stream_id content addr known large in
        elim (Outcome-cases sent.0) [
          | inl (a, e) ↦ refused (ground (arith, e, done))
          | inr (inl (f, e)) ↦ ground (arith, e, done)
          | inr (inr e) ↦ ground (arith, e, done)
        ]

    peer_of-eq :
        (t' t : Tunnel x) (addr : x.Address)
        → t' ≡ t
        → t'.peer_addr ≡ some addr
        → t.peer_addr ≡ some addr
    peer_of-eq t' t addr same peer = sym (ap (λ (u : Tunnel x). u.peer_addr) same) ∙ peer

    connect_peer-known :
        (parse_socket : List ℕ → ℕ → Option (x.Address)) (bound : Bool) (now : x.timing.Instant)
        (peer_addr : List ℕ) (t : Tunnel x)
        → Upload.connect_peer x read parse_socket bound now peer_addr ≡ ok t
        → (addr : x.Address) × (t.peer_addr ≡ some addr)
    unfolding Upload.connect_peer
    connect_peer-known parse_socket bound now peer_addr t e =
        let (host, read_host, rest) =
          >>=-eq-ok (map_err Upload.address_error (parse_udp_addr peer_addr)) _ e in
        let (made, create, rest') =
          >>=-eq-ok
            (map_err Upload.create_failed
              (create_tunnel x bound (replicate 32 2) (replicate 32 3) (replicate 64 4) now none))
            _ rest in
        elim (Option-cases (parse_socket host.0 host.1)) [
          | inl unread ↦ absurd (ground (arith, unread, rest'))
          | inr (addr, reads) ↦
              let t' : Tunnel x = record made.0 { peer_addr = some addr } in
              let returned : Outcome Upload.UploadError (Tunnel x) = ok t' in
              let same : returned ≡ ok t = ground (arith, reads, rest') in
              let tunnel : t' ≡ t = cc in (addr, peer_of-eq t' t addr tunnel refl)
        ]

    -- Sending a file of 65536 bytes or more over the tunnel never succeeds, over a socket that
    -- refuses datagrams longer than 65507 bytes, if each read fills the buffer and the AEAD has
    -- its documented behaviour.
    pub handle_send_file-refused :
        (sha256 : List ℕ → List ℕ) (parse_socket : List ℕ → ℕ → Option (x.Address)) (bound : Bool)
        (now : x.timing.Instant) (peer_addr : List ℕ) (file : SourceFile)
        → chunk_size ≤ length file.content
        → (Upload.handle_send_file x read sha256 parse_socket bound now peer_addr file).0 ≢ ok tt
    unfolding Upload.handle_send_file
    handle_send_file-refused sha256 parse_socket bound now peer_addr file large done =
        elim (Outcome-cases (Upload.connect_peer x read parse_socket bound now peer_addr)) [
          | inr (inl (f, e)) ↦ ground (arith, e, done)
          | inr (inr e) ↦ ground (arith, e, done)
          | inl (t, e) ↦ elim (Outcome-cases (Upload.describe_upload sha256 read file)) [
            | inr (inl (f, d)) ↦ ground (arith, e, d, done)
            | inr (inr d) ↦ ground (arith, e, d, done)
            | inl (meta, d) ↦
                let (addr, known) = connect_peer-known parse_socket bound now peer_addr t e in
                let refused = upload-refused t meta file.content addr known large in
                ground (arith, e, d, refused, done)
          ]
        ]
