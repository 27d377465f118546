-- ===== src/Cli/Upload/Small.antt =====
-- A file of one chunk that a datagram holds: the two datagrams that `handle_send_file` sends.
use cryprq.Base.{
  ℕ, suc, ◌-◌, ◌≤◌, ◌<◌, min, List, [], ◌∷◌, ◌++◌, length, take, drop, replicate, ◌==◌,
}
use cryprq.Base.{◌≡◌, refl, ap, ◌∙◌, arith, true, false, Option, none, some}
use cryprq.Base.{ok, take-length, drop-length, take-nil}
use cryprq.Core.Aead.{IsAead}
use cryprq.Core.Header.{msg_type_file_meta, msg_type_file_chunk}
use cryprq.Node.Externals.{Externals}
use cryprq.Node.FileTransfer.{FileMetadata}
use cryprq.Node.FileTransfer
use cryprq.Node.SeqCounters.{SeqCounters, next_file}
use cryprq.Node.Tunnel.{Tunnel, next_seq, send_record, send_file_meta, send_file_chunk}
use cryprq.Node.Tunnel.Exchange.{IsSealed, send_record-IsSealed, sent_state}
use cryprq.P2p.Files.{chunk_size}
use cryprq.P2p.Files.Cutting.{Fills}
use cryprq.Crypto.Kdf.{TrafficKeys}
use cryprq.Node.FileTransfer.Metadata.{length-serialize}
use cryprq.Node.Tunnel.Setup.{create_tunnel, initial_tunnel, keys_ir}
use cryprq.P2p.Files.Cutting.{hash_loop-whole}
use cryprq.Cli.Receive.Served.{source_file}
use cryprq.Cli.Send.{parse_udp_addr}
use cryprq.Cli.Upload

next_seq-file :
    (c : SeqCounters)
    → (next_seq c msg_type_file_meta ≡ (ok c.file, (next_file c).1))
      × (next_seq c msg_type_file_chunk ≡ (ok c.file, (next_file c).1))
unfolding next_seq next_file
next_seq-file c = (refl, refl)

module _ (x : Externals) (laws : IsAead x.aead) (read : List ℕ → Option ℕ) (fills : Fills read)
    (addr : x.Address)
    (takes : (bytes : List ℕ) → length bytes ≤ 65507 → x.send_to bytes addr ≡ true) where
  -- The loop over the chunks of a file that one read returns.
  upload_chunks-small :
      (fuel : ℕ) (t t' : Tunnel x) (stream_id : ℕ) (content : List ℕ)
      → 0 < length content
      → length content ≤ chunk_size
      → send_record x t stream_id msg_type_file_chunk 0 content ≡ (ok tt, t')
      → Upload.upload_chunks x read (suc (suc fuel)) t stream_id content ≡ (ok tt, t')
  unfolding Upload.upload_chunks send_file_chunk
  upload_chunks-small fuel t t' stream_id content some_bytes small sent =
      let (n, e, full) = fills content in
      let (n', e', full') = fills [] in
      let whole : take (min n chunk_size) content ≡ content =
        take-length (min n chunk_size) content (ground (arith, full)) in
      let rest : drop (min n chunk_size) content ≡ [] =
        drop-length (min n chunk_size) content (ground (arith, full)) in
      let more : (length content == 0) ≡ false = ground arith in
      ground (arith, e, e', whole, rest, more, sent, take-nil {A = ℕ} (min n' chunk_size))

  counted : (c : SeqCounters) → c.file ≡ 0 → (next_seq c msg_type_file_meta).1.file ≡ 1
  unfolding next_seq next_file
  counted c first = ground (arith, first)

  uploaded :
      (s : Tunnel x) (meta : FileMetadata) (content : List ℕ) (n : ℕ) (t1 t2 t3 : Tunnel x)
      → s.file_transfer.next_stream_id ≡ 2
      → length content ≡ suc n
      → send_record x t1 2 msg_type_file_meta 0 (FileTransfer.serialize meta) ≡ (ok tt, t2)
      → t1 ≡ record s { file_transfer = (FileTransfer.alloc_stream_id s.file_transfer).1 }
      → Upload.upload_chunks x read (suc (suc n)) t2 2 content ≡ (ok tt, t3)
      → Upload.upload x read s meta content ≡ (ok tt, t3)
  unfolding Upload.upload send_file_meta FileTransfer.alloc_stream_id
  uploaded s meta content n t1 t2 t3 stream len sent same chunks =
      ground (arith, stream, len, sent, same, chunks)

  -- The metadata and the chunk go out as two sealed datagrams.
  upload-small :
      (s : Tunnel x) (meta : FileMetadata) (content : List ℕ)
      → s.peer_addr ≡ some addr
      → s.epoch.value < 256
      → s.seq_counters.file ≡ 0
      → s.file_transfer.next_stream_id ≡ 2
      → length (FileTransfer.serialize meta) ≤ 65471
      → 0 < length content
      → length content ≤ 65471
      → (b1 b2 : List ℕ) × ((Upload.upload x read s meta content).0 ≡ ok tt)
        × ((Upload.upload x read s meta content).1.sent
            ≡ (s.sent ++ ((b1, addr) ∷ [])) ++ ((b2, addr) ∷ []))
        × IsSealed x s.keys_outbound msg_type_file_meta 2 0 (FileTransfer.serialize meta) b1
        × IsSealed x s.keys_outbound msg_type_file_chunk 2 1 content b2
  unfolding Upload.upload send_file_meta FileTransfer.alloc_stream_id
  upload-small s meta content peer epoch first stream meta_fits some_bytes fits =
      let s1 : Tunnel x = record s {
        file_transfer = (FileTransfer.alloc_stream_id s.file_transfer).1;
      } in
      let (drawn, _) = next_seq-file s.seq_counters in
      let (b1, sent1, sealed1) =
        send_record-IsSealed x laws s1 2 msg_type_file_meta 0 0 (FileTransfer.serialize meta) addr
          (record {
            message_type_byte = omega arith;
            flags_byte = omega arith;
            epoch_byte = epoch;
            stream_id_u32 = omega arith;
            sequence_number_u64 = omega arith;
          })
          (omega arith) (ap (λ r. r.0) drawn ∙ ap ok first) peer
          (λ bytes size. takes bytes (omega arith)) in
      let s2 = sent_state x s1 msg_type_file_meta b1 addr in
      let second : s2.seq_counters.file ≡ 1 = counted s.seq_counters first in
      let (_, drawn2) = next_seq-file s2.seq_counters in
      let (b2, sent2, sealed2) =
        send_record-IsSealed x laws s2 2 msg_type_file_chunk 0 1 content addr
          (record {
            message_type_byte = omega arith;
            flags_byte = omega arith;
            epoch_byte = epoch;
            stream_id_u32 = omega arith;
            sequence_number_u64 = omega arith;
          })
          (omega arith) (ap (λ r. r.0) drawn2 ∙ ap ok second) peer
          (λ bytes size. takes bytes (omega arith)) in
      let n = length content - 1 in
      let len : length content ≡ suc n = omega arith in
      let chunks =
        upload_chunks-small n s2 (sent_state x s2 msg_type_file_chunk b2 addr) 2 content some_bytes
          (omega arith) sent2 in
      let run =
        uploaded s meta content n s1 s2 (sent_state x s2 msg_type_file_chunk b2 addr) stream len
          sent1 refl chunks in
      (b1, b2, ap (λ r. r.0) run, ap (λ r. r.1.sent) run, sealed1, sealed2)

  -- A file of at most 65471 bytes is sent as two datagrams, under the keys of the test.
  pub handle_send_file-small :
      (keys : TrafficKeys) (master : List ℕ) (sha256 : List ℕ → List ℕ)
      (parse_socket : List ℕ → ℕ → Option (x.Address)) (now : x.timing.Instant)
      (peer_addr ip filename content : List ℕ) (port : ℕ)
      → create_tunnel x true (replicate 32 2) (replicate 32 3) (replicate 64 4) now none
        ≡ ok (initial_tunnel x keys now none, master)
      → parse_udp_addr peer_addr ≡ ok (ip, port)
      → parse_socket ip port ≡ some addr
      → length filename ≤ 65423
      → length (sha256 content) ≡ 32
      → 0 < length content
      → length content ≤ 65471
      → let meta : FileMetadata = record {
        filename = filename;
        size = length content;
        hash = sha256 content;
      } in
        (b1 b2 : List ℕ) × (Upload.handle_send_file x read sha256 parse_socket true now peer_addr
            (source_file filename content)
          ≡ (ok tt, (b1, addr) ∷ (b2, addr) ∷ []))
        × IsSealed x (keys_ir keys) msg_type_file_meta 2 0 (FileTransfer.serialize meta) b1
        × IsSealed x (keys_ir keys) msg_type_file_chunk 2 1 content b2
  unfolding Upload.handle_send_file Upload.connect_peer Upload.describe_upload initial_tunnel
  handle_send_file-small keys master sha256 parse_socket now peer_addr ip filename content port
        created parsed reads short hash some_bytes fits =
      let meta : FileMetadata = record {
        filename = filename;
        size = length content;
        hash = sha256 content;
      } in
      let s : Tunnel x = record (initial_tunnel x keys now none) { peer_addr = some addr } in
      let size = length-serialize meta hash in
      let (b1, b2, done, sent, sealed1, sealed2) =
        upload-small s meta content refl (omega arith) refl refl (omega arith) some_bytes fits in
      let hashed = hash_loop-whole read fills content in
      (b1, b2, ground (arith, created, parsed, reads, hashed, done, sent), sealed1, sealed2)
