-- ===== src/P2p/Files.antt =====
-- Sending a file to a peer: `send_file_to_peer` of p2p/src/lib.rs, with the metadata packet and
-- `calculate_file_hash` of p2p/src/file_transfer.rs.
pub mod Reading
pub mod Cutting
use cryprq.Base.{ℕ, zero, suc, ◌+◌, ◌%◌, ◌^◌, min, List, [], ◌∷◌, ◌++◌, length, take, drop, ◌==◌}
use cryprq.Base.{Bool, Option, none, some, Outcome, ok, err, panicked, ◌>>=◌, if◌then◌else◌}
use cryprq.Node.FileTransfer.{FileMetadata, serialize, deserialize, TransferError}
use cryprq.P2p.Packets.{DataChunk, serialize_chunk, create_end_packet}

abbrev pub chunk_size : ℕ
chunk_size = 65536

-- `FileMetadata` has the codec that node/src/file_transfer.rs repeats.
abbrev pub serialize_metadata : FileMetadata → List ℕ
serialize_metadata m = serialize m

abbrev pub deserialize_metadata : List ℕ → Outcome TransferError FileMetadata
deserialize_metadata packet = deserialize packet

-- What the calls on a file fail with. `unfinished` is no error of the source: it marks a loop that
-- its fuel ends.
pub data FileError : Type 0 where
  open_failed read_failed metadata_failed invalid_filename unfinished : FileError

-- `File::read` into a buffer of the chunk size: `read` is the operating system's answer, from the
-- bytes that are left, how many it returns.
abbrev pub read_buffer : (List ℕ → Option ℕ) → List ℕ → Outcome FileError (List ℕ × List ℕ)
read_buffer read rest = elim (read rest) [
  | none ↦ err read_failed
  | some n ↦ let bytes_read = min n chunk_size in ok (take bytes_read rest, drop bytes_read rest)
]

-- The loop of `calculate_file_hash`: what the hasher was given, until a read returns nothing.
unfoldable pub hash_loop : (List ℕ → Option ℕ) → ℕ → List ℕ → List ℕ → Outcome FileError (List ℕ)
hash_loop read zero hashed rest = err unfinished
hash_loop read (suc fuel) hashed rest = do
  (buffer, rest') ← read_buffer read rest
  let more = hash_loop read fuel (hashed ++ buffer) rest'
  if length buffer == 0 then ok hashed else more

-- `calculate_file_hash`: `sha256` is that of the crate sha2, over all bytes of its updates.
unfoldable pub calculate_file_hash :
    (List ℕ → List ℕ) → (List ℕ → Option ℕ) → Bool → List ℕ → Outcome FileError (List ℕ)
calculate_file_hash sha256 read can_open content = do
  file ← (if can_open then ok content else err open_failed)
  hashed ← hash_loop read (suc (length content)) [] file
  ok (sha256 hashed)

-- The loop over the chunks: the packets that are sent, and how it ends.
unfoldable pub send_chunks :
    (List ℕ → Option ℕ) → ℕ → ℕ → List ℕ → List (List ℕ) × Outcome FileError (Unit {0})
send_chunks read zero chunk_id rest = ([], err unfinished)
send_chunks read (suc fuel) chunk_id rest = elim (read_buffer read rest) [
  | panicked ↦ ([], panicked)
  | err e ↦ ([], err e)
  | ok (buffer, rest') ↦
      let chunk : DataChunk = record { chunk_id = chunk_id; data' = buffer } in
      let (packets, result) = send_chunks read fuel ((chunk_id + 1) % 2 ^ 32) rest' in
      if length buffer == 0 then ([], ok tt) else (serialize_chunk chunk ∷ packets, result)
]

-- The file that is sent: the name of its path as text, its bytes, and whether it can be opened and
-- measured.
pub record SourceFile : Type 0 where
  pub file_name : Option (List ℕ)
  pub content : List ℕ
  pub can_open : Bool
  pub can_stat : Bool

-- The packets behind the metadata: an error of a read ends them early.
unfoldable pub send_content :
    (List ℕ → Option ℕ) → SourceFile → List (List ℕ) × Outcome FileError (Unit {0})
send_content read file =
    let (packets, result) = send_chunks read (suc (length file.content)) 0 file.content in
    elim result [
      | ok done ↦ (packets ++ (create_end_packet ∷ []), ok tt)
      | err e ↦ (packets, err e)
      | panicked ↦ (packets, panicked)
    ]

-- What is known of the file before anything is sent.
unfoldable pub describe :
    (List ℕ → List ℕ) → (List ℕ → Option ℕ) → SourceFile → Outcome FileError FileMetadata
describe sha256 read file = do
  file_hash ← calculate_file_hash sha256 read file.can_open file.content
  file_size ← (if file.can_stat then ok (length file.content) else err metadata_failed)
  filename ← elim file.file_name [ none ↦ err invalid_filename | some name ↦ ok name ]
  ok (record { filename = filename; size = file_size; hash = file_hash })

-- `send_file_to_peer`: the requests that it sends, in order, and what it returns.
unfoldable pub send_file_to_peer :
    (List ℕ → List ℕ)
    → (List ℕ → Option ℕ)
    → SourceFile
    → List (List ℕ) × Outcome FileError (Unit {0})
send_file_to_peer sha256 read file = elim (describe sha256 read file) [
  | err e ↦ ([], err e)
  | panicked ↦ ([], panicked)
  | ok metadata ↦
      let (packets, result) = send_content read file in
      (serialize_metadata metadata ∷ packets, result)
]
