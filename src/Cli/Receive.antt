-- ===== src/Cli/Receive.antt =====
-- The file callback of `handle_receive_file_old` in cli/src/main.rs.
pub mod Chunks
pub mod Arms
pub mod Delivery
pub mod Served
pub mod Safety
use cryprq.Base.{
  ℕ, zero, suc, ◌+◌, ◌/◌, ◌%◌, ◌^◌, List, [], ◌++◌, length, take, slice, ltb, ◌==◌, bytes_eq,
}
use cryprq.Base.{Bool, Option, none, some, Outcome, ok, err, panicked, ◌>>=◌, if◌then◌else◌}
use cryprq.Base.Bytes.{from_be_bytes, bytes_of}
use cryprq.Base.Maps.{Map, lookup, insert, Table, assign}
use cryprq.Node.FileTransfer.{FileMetadata, TransferError, join}
use cryprq.P2p.Packets.{DataChunk, deserialize_chunk, ChunkError}
use cryprq.P2p.Files.{FileError, deserialize_metadata, calculate_file_hash}
use cryprq.P2p.Swarm.{FileResult, accepted, refused, FileTransferCallback}

-- The operating system's answers about a path, and the hash of the crate sha2: whether it can be
-- created, opened and removed, and how many bytes a write to it takes before an error.
pub record Storage : Type 0 where
  pub can_create : List ℕ → Bool
  pub can_open : List ℕ → Bool
  pub can_remove : List ℕ → Bool
  pub accepts : List ℕ → List ℕ → ℕ
  pub read : List ℕ → Option ℕ
  pub sha256 : List ℕ → List ℕ

pub record FileReceiveState : Type 0 where
  pub metadata : Option FileMetadata
  pub chunks : Map (List ℕ)
  pub total_chunks : ℕ

-- What the callback captures, and the files by path: `file_state` is the map behind the lock.
pub record Receiver : Type 0 where
  pub file_state : Table FileReceiveState
  pub files : Table (List ℕ)

-- The errors, a constructor for each message.
pub data ReceiveError : Type 0 where
  too_short unknown_type no_metadata create_failed hash_mismatch : ReceiveError
  metadata_error : TransferError → ReceiveError
  chunk_error : ChunkError → ReceiveError
  write_failed missing_chunk : ℕ → ReceiveError
  hash_failed : FileError → ReceiveError

abbrev pub text_ok : List ℕ
text_ok = bytes_of "OK"

abbrev pub new_state : FileReceiveState
new_state = record { metadata = none; chunks = []; total_chunks = 0 }

-- `entry(peer_id).or_insert_with(…)`
abbrev pub state_of : Receiver → List ℕ → FileReceiveState
state_of r peer_id = elim (r.file_state peer_id) [ none ↦ new_state | some state ↦ state ]

abbrev pub with_state : Receiver → List ℕ → Option FileReceiveState → Receiver
with_state r peer_id state = record r { file_state = assign r.file_state peer_id state }

abbrev pub with_file : Receiver → List ℕ → Option (List ℕ) → Receiver
with_file r path content = record r { files = assign r.files path content }

-- The arm of a metadata packet.
unfoldable pub receive_metadata :
    Receiver → List ℕ → FileReceiveState → List ℕ → Outcome ReceiveError (List ℕ) × Receiver
receive_metadata r peer_id state packet = elim (deserialize_metadata packet) [
  | panicked ↦ (panicked, r)
  | err e ↦ (err (metadata_error e), r)
  | ok metadata ↦ (
    ok text_ok,
    with_state r peer_id (
        some (record state {
          total_chunks = (metadata.size + 65535) / 65536 % 2 ^ 32;
          metadata = some metadata;
        })),
  )
]

-- The arm of a data chunk.
unfoldable pub receive_chunk :
    Receiver → List ℕ → FileReceiveState → List ℕ → Outcome ReceiveError (List ℕ) × Receiver
receive_chunk r peer_id state packet = elim (deserialize_chunk packet) [
  | panicked ↦ (panicked, r)
  | err e ↦ (err (chunk_error e), r)
  | ok chunk ↦ (
    ok text_ok,
    with_state r peer_id
        (some (record state { chunks = insert state.chunks chunk.chunk_id chunk.data' })),
  )
]

module _ (storage : Storage) where
  -- The loop `for chunk_id in 0..total_chunks`, with `n` turns to go: what it adds to the file.
  unfoldable pub write_chunks :
      List ℕ → Map (List ℕ) → ℕ → ℕ → List ℕ → Outcome ReceiveError (Unit {0}) × List ℕ
  write_chunks path chunks chunk_id zero written = (ok tt, written)
  write_chunks path chunks chunk_id (suc n) written = elim (lookup chunks chunk_id) [
    | none ↦ (err (missing_chunk chunk_id), written)
    | some chunk_data ↦
        let taken = storage.accepts path chunk_data in
        let rest = write_chunks path chunks (chunk_id + 1) n (written ++ chunk_data) in
        if ltb taken (length chunk_data)
        then (err (write_failed chunk_id), written ++ take taken chunk_data)
        else rest
  ]

  -- The file is hashed again as it was written; a file with another hash is removed.
  unfoldable pub verify_file :
      Receiver → List ℕ → FileMetadata → List ℕ → List ℕ → Outcome ReceiveError (List ℕ) × Receiver
  verify_file r peer_id metadata path written =
      elim (calculate_file_hash storage.sha256 storage.read (storage.can_open path) written) [
        | panicked ↦ (panicked, r)
        | err e ↦ (err (hash_failed e), r)
        | ok received_hash ↦
            if bytes_eq received_hash metadata.hash
            then (ok text_ok, with_state r peer_id none)
            else (err hash_mismatch, if storage.can_remove path then with_file r path none else r)
      ]

  -- The arm of an end packet; a file that is there is truncated.
  unfoldable pub receive_end :
      Receiver → List ℕ → List ℕ → FileReceiveState → Outcome ReceiveError (List ℕ) × Receiver
  receive_end r output_dir peer_id state = elim state.metadata [
    | none ↦ (err no_metadata, r)
    | some metadata ↦
        let path = join output_dir metadata.filename in
        let (result, written) = write_chunks path state.chunks 0 state.total_chunks [] in
        let r' = with_file r path (some written) in
        if storage.can_create path
        then elim result [
          | ok done ↦ verify_file r' peer_id metadata path written
          | err e ↦ (err e, r')
          | panicked ↦ (panicked, r')
        ]
        else (err create_failed, r)
  ]

  -- The callback: the peer has a state from its first packet on.
  unfoldable pub receive_packet :
      List ℕ → Receiver → List ℕ → List ℕ → Outcome ReceiveError (List ℕ) × Receiver
  receive_packet output_dir r peer_id packet =
      let state = state_of r peer_id in
      let r' = with_state r peer_id (some state) in
      let packet_type = from_be_bytes (slice packet 0 4) in
      if ltb (length packet) 4
      then (err too_short, r')
      else if packet_type == 0
      then receive_metadata r' peer_id state packet
      else if packet_type == 1
      then receive_chunk r' peer_id state packet
      else if packet_type == 2
      then receive_end r' output_dir peer_id state
      else (err unknown_type, r')

  -- As the listener calls it, with the texts of the errors; no call of it panics.
  unfoldable pub file_callback : (ReceiveError → List ℕ) → List ℕ → FileTransferCallback Receiver
  file_callback text output_dir r peer_id packet =
      let (result, r') = receive_packet output_dir r peer_id packet in
      elim result [
        | ok bytes ↦ (accepted bytes, r')
        | err e ↦ (refused (text e), r')
        | panicked ↦ (refused [], r')
      ]
