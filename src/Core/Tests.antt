-- ===== src/Core/Tests.antt =====
-- The theorems on records and nonces at concrete inputs.
mod Ffi
use cryprq.Base.{
  ℕ, ◌<◌, ◌≤◌, ◌≡◌, ◌≢◌, ◌⊎◌, ◌↔◌, refl, arith, List, [], ◌∷◌, ◌++◌, length, get_or, replicate, ok,
  err, panicked,
}
use cryprq.Base.Bytes.{IsBytes}
use cryprq.Base.Io.{header_too_short, unsupported_version}
use cryprq.Core.Header
use cryprq.Core.Header.{RecordHeader, IsHeader}
use cryprq.Core.Header.Codec
use cryprq.Core.Nonce.{record_nonce_injective}
use cryprq.Core.Record.{Record, to_bytes, from_bytes, read_from, write_to}
use cryprq.Core.Record.Codec as RecordCodec
use cryprq.Core.Record.Codec.{IsRecord}

abbrev ping_header : RecordHeader
ping_header = Header.new 5 0 3 1 258 2

abbrev ping : Record
ping = record { header = ping_header; ciphertext = 9 ∷ 8 ∷ [] }

abbrev ping_bytes : List ℕ
ping_bytes =
    1 ∷ 5 ∷ 0 ∷ 3 ∷ 0 ∷ 0 ∷ 0 ∷ 1 ∷ 0 ∷ 0 ∷ 0 ∷ 0 ∷ 0 ∷ 0 ∷ 1 ∷ 2 ∷ 0 ∷ 0 ∷ 0 ∷ 2 ∷ 9 ∷ 8 ∷ []

ping_header-IsHeader : IsHeader ping_header
ping_header-IsHeader = record {
  version_byte = omega arith;
  message_type_byte = omega arith;
  flags_byte = omega arith;
  epoch_byte = omega arith;
  stream_id_u32 = omega arith;
  sequence_number_u64 = omega arith;
  ciphertext_length_u32 = omega arith;
}

ping-IsRecord : IsRecord ping
ping-IsRecord = record { header = ping_header-IsHeader; current = refl; announced = refl }

ping_bytes-IsBytes : IsBytes ping_bytes
ping_bytes-IsBytes = ground arith

parse_ping : from_bytes ping_bytes ≡ ok ping
unfolding from_bytes Header.from_bytes
parse_ping = refl

from_bytes_accepts_example : IsRecord ping × (to_bytes ping ≡ ping_bytes)
from_bytes_accepts_example =
    RecordCodec.from_bytes_accepts ping_bytes ping ping_bytes-IsBytes parse_ping

abbrev one_byte : List ℕ
one_byte = 1 ∷ []

abbrev zero_iv : List ℕ
zero_iv = replicate 12 0

abbrev seven : ℕ
seven = 7

record_nonce_injective_example : seven ≡ seven
record_nonce_injective_example =
    record_nonce_injective zero_iv seven seven refl (omega arith) (omega arith) refl
