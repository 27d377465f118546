-- ===== src/Node/FileTransfer.antt =====
-- node/src/file_transfer.rs: the metadata of a file, and the transfers in progress.
pub mod Metadata
pub mod Manager
use Prim.Native.String.{String}
use cryprq.Base.{
  ℕ, ◌+◌, ◌*◌, ◌/◌, ◌%◌, ◌^◌, List, [], ◌∷◌, ◌++◌, length, get_or, set, take, slice, ltb, leb, ◌==◌,
  not,
}
use cryprq.Base.{
  false, Bool, Option, none, some, Outcome, ok, err, ◌>>=◌, ◌>>◌, reject_if, if◌then◌else◌,
}
use cryprq.Base.Bytes.{to_be_bytes, from_be_bytes}
use cryprq.Base.Maps.{Map, lookup, insert}
use cryprq.Base.Utf8.{is_utf8}

pub record FileMetadata : Type 0 where
  pub filename : List ℕ
  pub size : ℕ
  pub hash : List ℕ

-- The errors that the functions build, a constructor for each message.
pub data TransferError : Type 0 where
  metadata_too_short invalid_packet_type too_short_for_filename_length : TransferError
  too_short_for_filename invalid_utf8 too_short_for_size too_short_for_hash : TransferError
  create_failed write_failed : TransferError
  no_incoming_transfer : ℕ → TransferError

abbrev pub packet_type_metadata : ℕ
packet_type_metadata = 0

unfoldable pub serialize : FileMetadata → List ℕ
serialize m =
    to_be_bytes 4 packet_type_metadata
    ++ (to_be_bytes 4 (length m.filename % 2 ^ 32)
        ++ (m.filename ++ (to_be_bytes 8 m.size ++ m.hash)))

-- The reads behind the filename, from `offset` on.
unfoldable pub deserialize_rest : List ℕ → List ℕ → ℕ → Outcome TransferError FileMetadata
deserialize_rest data' filename offset = do
  reject_if (ltb (length data') (offset + 8)) too_short_for_size
  let size = from_be_bytes (slice data' offset (offset + 8))
  reject_if (ltb (length data') (offset + 8 + 32)) too_short_for_hash
  ok (record {
    filename = filename;
    size = size;
    hash = slice data' (offset + 8) (offset + 8 + 32);
  })

unfoldable pub deserialize : List ℕ → Outcome TransferError FileMetadata
deserialize data' = do
  reject_if (ltb (length data') 4) metadata_too_short
  reject_if (not (from_be_bytes (slice data' 0 4) == packet_type_metadata)) invalid_packet_type
  reject_if (ltb (length data') (4 + 4)) too_short_for_filename_length
  let filename_len = from_be_bytes (slice data' 4 8)
  reject_if (ltb (length data') (8 + filename_len)) too_short_for_filename
  let filename = slice data' 8 (8 + filename_len)
  reject_if (not (is_utf8 filename)) invalid_utf8
  deserialize_rest data' filename (8 + filename_len)

-- Whether a separator is missing at the end of a path.
abbrev pub needs_separator : List ℕ → Bool
needs_separator [] = false
needs_separator (c ∷ []) = not (c == 0x2f)
needs_separator (c ∷ d ∷ cs) = needs_separator (d ∷ cs)

abbrev pub is_absolute : List ℕ → Bool
is_absolute [] = false
is_absolute (c ∷ cs) = c == 0x2f

-- `PathBuf::join`: an absolute name replaces the directory.
unfoldable pub join : List ℕ → List ℕ → List ℕ
join dir name =
    if is_absolute name
    then name
    else (if needs_separator dir then dir ++ (0x2f ∷ []) else dir) ++ name

-- The operating system's answers: whether a path can be created, and how many bytes of a chunk
-- the file behind a handle takes before an error.
pub record FileSystem : Type 0 where
  pub can_create : List ℕ → Bool
  pub accepts : ℕ → List ℕ → ℕ

-- The files opened so far, by handle: the path, and the bytes written through the handle.
abbrev pub Files : Type 0
Files = List (List ℕ × List ℕ)

pub record IncomingTransfer : Type 0 where
  pub metadata : FileMetadata
  pub output_path : List ℕ
  pub file : Option ℕ
  pub bytes_received : ℕ
  pub chunks_received : List ℕ

pub record OutgoingTransfer : Type 0 where
  pub metadata : FileMetadata
  pub file_path : List ℕ
  pub chunks_sent : ℕ
  pub total_chunks : ℕ

pub record FileTransferManager : Type 0 where
  pub next_stream_id : ℕ
  pub incoming : Map IncomingTransfer
  pub outgoing : Map OutgoingTransfer
  pub output_dir : List ℕ

abbrev pub new : List ℕ → FileTransferManager
new output_dir = record {
  next_stream_id = 2;
  incoming = [];
  outgoing = [];
  output_dir = output_dir;
}

unfoldable pub alloc_stream_id : FileTransferManager → ℕ × FileTransferManager
alloc_stream_id m =
    (m.next_stream_id, record m { next_stream_id = (m.next_stream_id + 1) % 2 ^ 32 })

-- `start_incoming_transfer`: the file is created, and an older transfer of the stream is replaced.
unfoldable pub start_incoming_transfer :
    FileSystem
    → FileTransferManager
    → Files
    → ℕ
    → FileMetadata
    → Outcome TransferError (Unit {0}) × (FileTransferManager × Files)
start_incoming_transfer fs m files stream_id metadata =
    let output_path = join m.output_dir metadata.filename in
    let transfer : IncomingTransfer = record {
      metadata = metadata;
      output_path = output_path;
      file = some (length files);
      bytes_received = 0;
      chunks_received = [];
    } in
    if fs.can_create output_path
    then (
      ok tt,
      (
        record m { incoming = insert m.incoming stream_id transfer },
        files ++ ((output_path, []) ∷ []),
      ),
    )
    else (err create_failed, (m, files))

-- `write_all` on a handle.
unfoldable pub append_to : Files → ℕ → List ℕ → Files
append_to files handle bytes =
    let (path, content) = get_or files handle ([], []) in set files handle (path, content ++ bytes)

-- The transfer after a chunk of this length: closed once it has the announced size.
unfoldable pub count_chunk : IncomingTransfer → ℕ → IncomingTransfer
count_chunk t len =
    let bytes_received = (t.bytes_received + len) % 2 ^ 64 in
    record t {
      file = if leb t.metadata.size bytes_received then none else t.file;
      bytes_received = bytes_received;
    }

-- `write_chunk`: a chunk for a closed file is ignored.
unfoldable pub write_chunk :
    FileSystem
    → FileTransferManager
    → Files
    → ℕ
    → List ℕ
    → Outcome TransferError (Unit {0}) × (FileTransferManager × Files)
write_chunk fs m files stream_id chunk_data = elim (lookup m.incoming stream_id) [
  | none ↦ (err (no_incoming_transfer stream_id), (m, files))
  | some transfer ↦ elim transfer.file [
    | none ↦ (ok tt, (m, files))
    | some handle ↦
        if ltb (fs.accepts handle chunk_data) (length chunk_data)
        then (
          err write_failed,
          (m, append_to files handle (take (fs.accepts handle chunk_data) chunk_data)),
        )
        else (
          ok tt,
          (
            record m {
              incoming = insert m.incoming stream_id (count_chunk transfer (length chunk_data));
            },
            append_to files handle chunk_data,
          ),
        )
  ]
]

-- `handle_ack` and `handle_control` only log.
unfoldable pub handle_ack : ℕ → List ℕ → Outcome TransferError (Unit {0})
handle_ack stream_id ack_data = ok tt

unfoldable pub handle_control : ℕ → List ℕ → Outcome TransferError (Unit {0})
handle_control stream_id control_data = ok tt

-- `register_outgoing`: `div_ceil` by the chunk size, and the cast `as u32`.
unfoldable pub register_outgoing :
    FileTransferManager → ℕ → FileMetadata → List ℕ → FileTransferManager
register_outgoing m stream_id metadata file_path =
    let transfer : OutgoingTransfer = record {
      metadata = metadata;
      file_path = file_path;
      chunks_sent = 0;
      total_chunks = (metadata.size + 65535) / 65536 % 2 ^ 32;
    } in
    record m { outgoing = insert m.outgoing stream_id transfer }
