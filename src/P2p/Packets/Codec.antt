-- ===== src/P2p/Packets/Codec.antt =====
-- What is written as a packet or a chunk is read back.
use cryprq.Base.{ℕ, ◌+◌, ◌-◌, ◌%◌, ◌≤◌, ◌<◌, ◌^◌, ◌≡◌, refl, ap, ◌∙◌, arith, true, false}
use cryprq.Base.{
  List, [], ◌++◌, length, slice, take, take-append, drop-append, length-append, ok, err,
}
use cryprq.Base.Bytes.{to_be_bytes, from_be_bytes, from-to_be_bytes}
use cryprq.Base.Io.{IoError}
use cryprq.P2p.Packets.{
  read_packet, write_packet, DataChunk, serialize_chunk, deserialize_chunk, packet_type_data,
  is_end_packet, create_end_packet,
}

-- A packet shorter than 2 ^ 32 bytes that was written to a stream is taken off it, and no byte of
-- what follows, if it is within the reader's limit, and is refused as too large otherwise.
pub read_packet-write_packet :
    (limit : ℕ) (too_large : IoError) (packet rest : List ℕ)
    → length packet < 2 ^ 32
    → (length packet ≤ limit
        → read_packet limit too_large (write_packet [] packet ++ rest) ≡ ok (packet, rest))
      × (limit < length packet
          → read_packet limit too_large (write_packet [] packet ++ rest) ≡ err too_large)
unfolding read_packet write_packet
read_packet-write_packet limit too_large packet rest fits =
    let size : from_be_bytes (to_be_bytes 4 (length packet % 2 ^ 32)) ≡ length packet =
      from-to_be_bytes 4 (length packet % 2 ^ 32) (omega arith) ∙ omega arith in
    let len = length-append packet rest in
    let front = take-append (length packet) packet rest refl in
    let back = drop-append (length packet) packet rest refl in (ground arith, ground arith)

deserialize_reads :
    (d data' : List ℕ) (id n : ℕ)
    → 12 + n ≤ length d
    → from_be_bytes (slice d 0 4) ≡ packet_type_data
    → from_be_bytes (slice d 4 8) ≡ id
    → from_be_bytes (slice d 8 12) ≡ n
    → slice d 12 (12 + n) ≡ data'
    → (deserialize_chunk d ≡ ok (record { chunk_id = id; data' = data' }))
      × (is_end_packet d ≡ false)
unfolding deserialize_chunk is_end_packet
deserialize_reads d data' id n long kind number size content = (ground arith, ground arith)

-- A chunk with an index and a length of 32 bits is read back from its bytes, whatever follows,
-- and is told apart from the end packet.
pub deserialize_chunk-serialize_chunk :
    (c : DataChunk) (trailing : List ℕ)
    → c.chunk_id < 2 ^ 32
    → length c.data' < 2 ^ 32
    → (deserialize_chunk (serialize_chunk c ++ trailing) ≡ ok c)
      × (is_end_packet (serialize_chunk c ++ trailing) ≡ false)
      × (is_end_packet (create_end_packet ++ trailing) ≡ true)
unfolding serialize_chunk is_end_packet
deserialize_chunk-serialize_chunk c rest id_fits fits =
    let size : from_be_bytes (to_be_bytes 4 (length c.data' % 2 ^ 32)) ≡ length c.data' =
      from-to_be_bytes 4 (length c.data' % 2 ^ 32) (omega arith) ∙ omega arith in
    let exact : 12 + length c.data' - 12 ≡ length c.data' = omega arith in
    let (back, kind) =
      deserialize_reads (serialize_chunk c ++ rest) c.data' c.chunk_id (length c.data')
        (omega (arith, length-append c.data' rest)) refl (from-to_be_bytes 4 c.chunk_id id_fits)
        size
        (ap (λ (n : ℕ). take n (c.data' ++ rest)) exact
          ∙ take-append (length c.data') c.data' rest refl) in
    (back, kind, ground arith)
