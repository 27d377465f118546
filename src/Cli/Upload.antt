-- ===== src/Cli/Upload.antt =====
-- `handle_send_file` of cli/src/main.rs: a file over the tunnel.
pub mod Datagrams
pub mod Small
use cryprq.Base.{ℕ, zero, suc, List, [], length, replicate, ◌==◌, Bool, Option, none, some}
use cryprq.Base.{Outcome, ok, err, panicked, ◌>>=◌, map_err, if◌then◌else◌}
use cryprq.Node.Error.{TunnelError}
use cryprq.Node.Externals.{Externals}
use cryprq.Node.FileTransfer.{FileMetadata}
use cryprq.Node.FileTransfer
use cryprq.Node.Tunnel.{Tunnel, send_file_meta, send_file_chunk}
use cryprq.Node.Tunnel.Setup.{create_tunnel}
use cryprq.P2p.Files.{
  FileError, SourceFile, read_buffer, hash_loop, open_failed, metadata_failed, invalid_filename,
  unfinished,
}
use cryprq.Cli.Send.{AddressError, parse_udp_addr}

pub data UploadError : Type 0 where
  address_error : AddressError → UploadError
  bad_socket_address : UploadError
  create_failed meta_failed chunk_failed : TunnelError → UploadError
  file_error : FileError → UploadError

-- What is known of the file: its size, its name and its hash, in the order in which they are read.
unfoldable pub describe_upload :
    (List ℕ → List ℕ) → (List ℕ → Option ℕ) → SourceFile → Outcome FileError FileMetadata
describe_upload sha256 read file = do
  file_size ← (if file.can_stat then ok (length file.content) else err metadata_failed)
  filename ← elim file.file_name [ none ↦ err invalid_filename | some name ↦ ok name ]
  opened ← (if file.can_open then ok file.content else err open_failed)
  hashed ← hash_loop read (suc (length opened)) [] opened
  ok (record { filename = filename; size = file_size; hash = sha256 hashed })

module _ (x : Externals) (read : List ℕ → Option ℕ) where
  -- The loop over the chunks: the first chunk that is not sent ends it.
  unfoldable pub upload_chunks :
      ℕ → Tunnel x → ℕ → List ℕ → Outcome UploadError (Unit {0}) × Tunnel x
  upload_chunks zero t stream_id rest = (err (file_error unfinished), t)
  upload_chunks (suc fuel) t stream_id rest = elim (read_buffer read rest) [
    | panicked ↦ (panicked, t)
    | err e ↦ (err (file_error e), t)
    | ok (buffer, rest') ↦
        let (result, t') = send_file_chunk x t stream_id buffer in
        if length buffer == 0 then (ok tt, t) else elim result [
          | ok done ↦ upload_chunks fuel t' stream_id rest'
          | err e ↦ (err (chunk_failed e), t')
          | panicked ↦ (panicked, t')
        ]
  ]

  -- A new stream, the metadata, and the chunks.
  unfoldable pub upload :
      Tunnel x → FileMetadata → List ℕ → Outcome UploadError (Unit {0}) × Tunnel x
  upload t meta content =
      let (stream_id, manager) = FileTransfer.alloc_stream_id t.file_transfer in
      let (result, t') = send_file_meta x (record t { file_transfer = manager }) stream_id meta in
      elim result [
        | ok done ↦ upload_chunks (suc (length content)) t' stream_id content
        | err e ↦ (err (meta_failed e), t')
        | panicked ↦ (panicked, t')
      ]

  -- The tunnel with its test keys, and the address of the peer; `parse_socket` reads the address of
  -- a socket from its host and port.
  unfoldable pub connect_peer :
      (List ℕ → ℕ → Option (x.Address))
      → Bool
      → x.timing.Instant
      → List ℕ
      → Outcome UploadError (Tunnel x)
  connect_peer parse_socket bound now peer_addr = do
    (ip, port) ← map_err address_error (parse_udp_addr peer_addr)
    (t, master_secret) ←
        map_err create_failed
          (create_tunnel x bound (replicate 32 2) (replicate 32 3) (replicate 64 4) now none)
    addr ← elim (parse_socket ip port) [ none ↦ err bad_socket_address | some a ↦ ok a ]
    ok (record t { peer_addr = some addr })

  -- `handle_send_file`: what it returns, with the datagrams that went out.
  unfoldable pub handle_send_file :
      (List ℕ → List ℕ)
      → (List ℕ → ℕ → Option (x.Address))
      → Bool
      → x.timing.Instant
      → List ℕ
      → SourceFile
      → Outcome UploadError (Unit {0}) × List (List ℕ × x.Address)
  handle_send_file sha256 parse_socket bound now peer_addr file =
      elim (connect_peer parse_socket bound now peer_addr) [
        | err e ↦ (err e, [])
        | panicked ↦ (panicked, [])
        | ok t ↦ elim (describe_upload sha256 read file) [
          | err e ↦ (err (file_error e), t.sent)
          | panicked ↦ (panicked, t.sent)
          | ok meta ↦ let (result, t') = upload t meta file.content in (result, t'.sent)
        ]
      ]
