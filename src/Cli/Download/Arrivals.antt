-- ===== src/Cli/Download/Arrivals.antt =====
-- What a datagram of a file does to the receiving tunnel.
use cryprq.Base.{ℕ, ◌≤◌, ◌<◌, ◌^◌, ◌≡◌, sym, ap, ◌∙◌, arith}
use cryprq.Base.{List, [], ◌∷◌, length, true, none, some, ok}
use mathlib.Core.List.{append-nil}
use cryprq.Core.Header.{msg_type_file_meta, msg_type_file_chunk}
use cryprq.Node.Externals.{Externals}
use cryprq.Node.FileTransfer
use cryprq.Node.FileTransfer.{FileMetadata, FileTransferManager, IncomingTransfer, Files}
use cryprq.Node.FileTransfer.Metadata.{IsMetadata, deserialize-serialize}
use cryprq.Node.Replay.{check_and_update}
use cryprq.Node.RateLimiter.{check_and_consume}
use cryprq.Node.Tunnel.{Tunnel}
use cryprq.Node.Tunnel.Exchange.{IsSealed, received}
use cryprq.Node.Tunnel.Handling.{recv_and_handle_record-IsSealed}
use cryprq.Node.Tunnel.Incoming.{
  recv_and_handle_record, handle_incoming_record, handle_file_or_control, handle_file_meta,
}

-- A transfer with nothing received yet, or with its whole content.
abbrev pub transfer_of : List ℕ → FileMetadata → IncomingTransfer
transfer_of dir meta = record {
  metadata = meta;
  output_path = FileTransfer.join dir meta.filename;
  file = some 0;
  bytes_received = 0;
  chunks_received = [];
}

abbrev pub opened : List ℕ → ℕ → FileMetadata → FileTransferManager
opened dir sid meta = record (FileTransfer.new dir) { incoming = (sid, transfer_of dir meta) ∷ [] }

abbrev pub closed : List ℕ → ℕ → FileMetadata → ℕ → FileTransferManager
closed dir sid meta len = record (FileTransfer.new dir) {
  incoming = (sid, record (transfer_of dir meta) { file = none; bytes_received = len }) ∷ [];
}

abbrev pub file_of : List ℕ → FileMetadata → List ℕ → Files
file_of dir meta content = (FileTransfer.join dir meta.filename, content) ∷ []

module _ (x : Externals) (dir : List ℕ) (sid : ℕ) (meta : FileMetadata) where
  module _ (t : Tunnel x)
      (can : x.file_system.can_create (FileTransfer.join dir meta.filename) ≡ true)
      (valid : IsMetadata meta) (fresh : t.file_transfer ≡ FileTransfer.new dir)
      (no_files : t.files ≡ []) where
    handle_file_meta-opened :
        handle_file_meta x t sid (FileTransfer.serialize meta)
        ≡ (ok tt, record t { file_transfer = opened dir sid meta; files = file_of dir meta [] })
    unfolding handle_file_meta FileTransfer.start_incoming_transfer
    handle_file_meta-opened =
        let parsed : FileTransfer.deserialize (FileTransfer.serialize meta) ≡ ok meta =
          ap FileTransfer.deserialize (sym (append-nil _)) ∙ deserialize-serialize meta [] valid in
        rw (parsed, handle_file_meta) (ground (arith, can, fresh, no_files))

  handle_file_chunk-closed :
      (t : Tunnel x) (content : List ℕ)
      → t.file_transfer ≡ opened dir sid meta
      → t.files ≡ file_of dir meta []
      → length content ≤ x.file_system.accepts 0 content
      → meta.size ≡ length content
      → length content < 2 ^ 64
      → handle_file_or_control x t sid msg_type_file_chunk content ≡ (
        ok tt,
        record t {
          file_transfer = closed dir sid meta (length content);
          files = file_of dir meta content;
        },
      )
  unfolding handle_file_or_control FileTransfer.write_chunk FileTransfer.count_chunk
      FileTransfer.append_to
  handle_file_chunk-closed t content begun empty takes size fits =
      ground (arith, begun, empty, size)

module _ (x : Externals) (dir : List ℕ) (sid : ℕ) (meta : FileMetadata) (t : Tunnel x)
    (now : x.timing.Instant) (from : x.Address) (seq : ℕ) (bytes : List ℕ)
    (passes : (check_and_consume x.timing t.rate_limiter now).0 ≡ ok tt)
    (fresh : (check_and_update t.replay_window seq).0 ≡ ok tt) where
  -- The metadata of a file opens the file.
  pub meta_arrives :
      IsSealed x t.keys_outbound msg_type_file_meta sid seq (FileTransfer.serialize meta) bytes
      → x.file_system.can_create (FileTransfer.join dir meta.filename) ≡ true
      → IsMetadata meta
      → t.file_transfer ≡ FileTransfer.new dir
      → t.files ≡ []
      → recv_and_handle_record x t now (some (bytes, from)) ≡ (
        ok tt,
        record (received x t now from seq) {
          file_transfer = opened dir sid meta;
          files = file_of dir meta [];
        },
      )
  unfolding handle_incoming_record handle_file_or_control
  meta_arrives sealed can valid new no_files =
      recv_and_handle_record-IsSealed x t now from msg_type_file_meta sid seq
        (FileTransfer.serialize meta) bytes sealed passes fresh
      ∙ handle_file_meta-opened x dir sid meta (received x t now from seq) can valid new no_files

  -- A chunk that is the whole file completes it.
  pub chunk_arrives :
      (content : List ℕ)
      → IsSealed x t.keys_outbound msg_type_file_chunk sid seq content bytes
      → t.file_transfer ≡ opened dir sid meta
      → t.files ≡ file_of dir meta []
      → length content ≤ x.file_system.accepts 0 content
      → meta.size ≡ length content
      → length content < 2 ^ 64
      → recv_and_handle_record x t now (some (bytes, from)) ≡ (
        ok tt,
        record (received x t now from seq) {
          file_transfer = closed dir sid meta (length content);
          files = file_of dir meta content;
        },
      )
  unfolding handle_incoming_record
  chunk_arrives content sealed begun empty takes size fits =
      recv_and_handle_record-IsSealed x t now from msg_type_file_chunk sid seq content bytes sealed
        passes fresh
      ∙ handle_file_chunk-closed x dir sid meta (received x t now from seq) content begun empty
          takes size fits
