-- ===== src/P2p/Packets.antt =====
-- The packets between peers: the codecs of p2p/src/packet_forwarder.rs and p2p/src/file_transfer.rs,
-- and the chunks of a file.
pub mod Codec
use cryprq.Base.{ℕ, ◌+◌, ◌*◌, ◌%◌, ◌^◌, List, ◌++◌, length, slice, ltb, leb, ◌==◌, ◌&&◌, not, Bool}
use cryprq.Base.{Outcome, ok, err, ◌>>=◌, ◌>>◌, reject_if}
use cryprq.Base.Bytes.{to_be_bytes, from_be_bytes}
use cryprq.Base.Io.{IoError, packet_too_large, response_too_large, read_exact, write_all}

-- A packet behind its length, with the bytes left in the stream. The limit and the error differ.
unfoldable pub read_packet : ℕ → IoError → List ℕ → Outcome IoError (List ℕ × List ℕ)
read_packet limit too_large io = do
  (len_bytes, rest) ← read_exact 4 io
  let len = from_be_bytes len_bytes
  reject_if (ltb limit len) too_large
  read_exact len rest

-- The cast `as u32` keeps the low 32 bits of the length.
unfoldable pub write_packet : List ℕ → List ℕ → List ℕ
write_packet io packet = write_all (write_all io (to_be_bytes 4 (length packet % 2 ^ 32))) packet

-- `PacketCodec`
abbrev pub read_request : List ℕ → Outcome IoError (List ℕ × List ℕ)
read_request io = read_packet (10 * 1024 * 1024) packet_too_large io

abbrev pub read_response : List ℕ → Outcome IoError (List ℕ × List ℕ)
read_response io = read_packet 65535 packet_too_large io

abbrev pub write_request : List ℕ → List ℕ → List ℕ
write_request io req = write_packet io req

abbrev pub write_response : List ℕ → List ℕ → List ℕ
write_response io res = write_packet io res

-- `FileTransferCodec`
abbrev pub read_file_request : List ℕ → Outcome IoError (List ℕ × List ℕ)
read_file_request io = read_packet (10 * 1024 * 1024) packet_too_large io

abbrev pub read_file_response : List ℕ → Outcome IoError (List ℕ × List ℕ)
read_file_response io = read_packet 1024 response_too_large io

abbrev pub write_file_request : List ℕ → List ℕ → List ℕ
write_file_request io req = write_packet io req

abbrev pub write_file_response : List ℕ → List ℕ → List ℕ
write_file_response io res = write_packet io res

abbrev pub packet_type_data : ℕ
packet_type_data = 1

abbrev pub packet_type_end : ℕ
packet_type_end = 2

pub record DataChunk : Type 0 where
  pub chunk_id : ℕ
  pub data' : List ℕ

-- The errors of `DataChunk::deserialize`, a constructor for each message.
pub data ChunkError : Type 0 where
  chunk_too_short invalid_chunk_type too_short_for_data : ChunkError

unfoldable pub serialize_chunk : DataChunk → List ℕ
serialize_chunk c =
    to_be_bytes 4 packet_type_data
    ++ (to_be_bytes 4 c.chunk_id ++ (to_be_bytes 4 (length c.data' % 2 ^ 32) ++ c.data'))

unfoldable pub deserialize_chunk : List ℕ → Outcome ChunkError DataChunk
deserialize_chunk packet = do
  reject_if (ltb (length packet) 12) chunk_too_short
  reject_if (not (from_be_bytes (slice packet 0 4) == packet_type_data)) invalid_chunk_type
  let chunk_id = from_be_bytes (slice packet 4 8)
  let data_len = from_be_bytes (slice packet 8 12)
  reject_if (ltb (length packet) (12 + data_len)) too_short_for_data
  ok (record { chunk_id = chunk_id; data' = slice packet 12 (12 + data_len) })

abbrev pub create_end_packet : List ℕ
create_end_packet = to_be_bytes 4 packet_type_end

unfoldable pub is_end_packet : List ℕ → Bool
is_end_packet packet =
    leb 4 (length packet) && (from_be_bytes (slice packet 0 4) == packet_type_end)
