-- ===== src/Core/Header.antt =====
-- `RecordHeader` of core/src/record.rs: the 20 bytes before each ciphertext.
pub mod Codec
use cryprq.Base.{ℕ, ◌<◌, ◌^◌, List, [], ◌∷◌, ◌++◌, length, get_or, slice, ltb, ◌==◌, not, true}
use cryprq.Base.{Outcome, ok, err, ◌>>=◌, ◌>>◌, reject_if, if◌then◌else◌}
use cryprq.Base.Bytes.{to_be_bytes, from_be_bytes}
use cryprq.Base.Io.{
  IoError, header_too_short, unsupported_version, read_exact, write_all, unexpected_eof,
}

abbrev pub protocol_version : ℕ
protocol_version = 0x01

abbrev pub record_header_size : ℕ
record_header_size = 20

abbrev pub msg_type_data : ℕ
msg_type_data = 0x01

abbrev pub msg_type_file_meta : ℕ
msg_type_file_meta = 0x02

abbrev pub msg_type_file_chunk : ℕ
msg_type_file_chunk = 0x03

abbrev pub msg_type_file_ack : ℕ
msg_type_file_ack = 0x04

abbrev pub msg_type_vpn_packet : ℕ
msg_type_vpn_packet = 0x05

abbrev pub msg_type_control : ℕ
msg_type_control = 0x10

pub record RecordHeader : Type 0 where
  pub version : ℕ
  pub message_type : ℕ
  pub flags : ℕ
  pub epoch : ℕ
  pub stream_id : ℕ
  pub sequence_number : ℕ
  pub ciphertext_length : ℕ

-- The fields lie in the ranges of their Rust types.
pub record IsHeader (h : RecordHeader) : Type 0 where
  pub version_byte : h.version < 256
  pub message_type_byte : h.message_type < 256
  pub flags_byte : h.flags < 256
  pub epoch_byte : h.epoch < 256
  pub stream_id_u32 : h.stream_id < 2 ^ 32
  pub sequence_number_u64 : h.sequence_number < 2 ^ 64
  pub ciphertext_length_u32 : h.ciphertext_length < 2 ^ 32

-- `RecordHeader::new`
abbrev pub new : ℕ → ℕ → ℕ → ℕ → ℕ → ℕ → RecordHeader
new message_type flags epoch stream_id sequence_number ciphertext_length = record {
  version = protocol_version;
  message_type = message_type;
  flags = flags;
  epoch = epoch;
  stream_id = stream_id;
  sequence_number = sequence_number;
  ciphertext_length = ciphertext_length;
}

-- `to_bytes`: `buf[0..4]` are the four bytes, then the big-endian fields.
unfoldable pub to_bytes : RecordHeader → List ℕ
to_bytes h =
    h.version
    ∷ h.message_type
    ∷ h.flags
    ∷ h.epoch
    ∷ (to_be_bytes 4 h.stream_id
        ++ (to_be_bytes 8 h.sequence_number ++ to_be_bytes 4 h.ciphertext_length))

-- The body of `from_bytes` once the two checks have passed.
abbrev pub fields : List ℕ → RecordHeader
fields buf = record {
  version = get_or buf 0 0;
  message_type = get_or buf 1 0;
  flags = get_or buf 2 0;
  epoch = get_or buf 3 0;
  stream_id = from_be_bytes (slice buf 4 8);
  sequence_number = from_be_bytes (slice buf 8 16);
  ciphertext_length = from_be_bytes (slice buf 16 20);
}

-- `from_bytes`: no index is out of range after the length check.
unfoldable pub from_bytes : List ℕ → Outcome IoError RecordHeader
from_bytes buf = do
  reject_if (ltb (length buf) record_header_size) header_too_short
  reject_if (not (get_or buf 0 0 == protocol_version)) (unsupported_version (get_or buf 0 0))
  ok (fields buf)

unfoldable pub read_from : List ℕ → Outcome IoError (RecordHeader × List ℕ)
read_from reader = do
  (buf, rest) ← read_exact record_header_size reader
  header ← from_bytes buf
  ok (header, rest)

unfoldable pub write_to : RecordHeader → List ℕ → List ℕ
write_to h writer = write_all writer (to_bytes h)
