-- ===== src/Core/Record.antt =====
-- `Record` of core/src/record.rs: a header with the ciphertext that it announces.
pub mod Codec
pub mod Seal
use cryprq.Base.{ℕ, ◌+◌, ◌%◌, ◌^◌, List, ◌++◌, length, take, drop, ltb, ◌==◌, not, some, none}
use cryprq.Base.{Outcome, ok, err, panicked, ◌>>=◌, ◌>>◌, reject_if, if◌then◌else◌}
use cryprq.Base.Io.{
  IoError, length_mismatch, encryption_failed, decryption_failed, read_exact, write_all,
}
use cryprq.Core.Header
use cryprq.Core.Header.{RecordHeader, record_header_size}
use cryprq.Core.Nonce.{record_nonce}
use cryprq.Core.Aead.{Aead, tag_size}

pub record Record : Type 0 where
  pub header : RecordHeader
  pub ciphertext : List ℕ

-- `Record::new`; the cast `as u32` keeps the low 32 bits of the length.
abbrev pub new : ℕ → ℕ → ℕ → ℕ → ℕ → List ℕ → Record
new message_type flags epoch stream_id sequence_number ciphertext = record {
  header =
      Header.new message_type flags epoch stream_id sequence_number (length ciphertext % 2 ^ 32);
  ciphertext = ciphertext;
}

unfoldable pub to_bytes : Record → List ℕ
to_bytes r = Header.to_bytes r.header ++ r.ciphertext

-- The slice `&buf[..RECORD_HEADER_SIZE]` panics on a shorter buffer.
unfoldable pub from_bytes : List ℕ → Outcome IoError Record
from_bytes buf = if ltb (length buf) record_header_size then panicked else do
  header ← Header.from_bytes (take record_header_size buf)
  let ciphertext = drop record_header_size buf
  reject_if (not (length ciphertext == header.ciphertext_length))
      (length_mismatch header.ciphertext_length (length ciphertext))
  ok (record { header = header; ciphertext = ciphertext })

unfoldable pub read_from : List ℕ → Outcome IoError (Record × List ℕ)
read_from reader = do
  (header, rest) ← Header.read_from reader
  (ciphertext, rest') ← read_exact header.ciphertext_length rest
  ok (record { header = header; ciphertext = ciphertext }, rest')

unfoldable pub write_to : Record → List ℕ → List ℕ
write_to r writer = write_all (Header.write_to r.header writer) r.ciphertext

module _ (aead : Aead) where
  -- `Record::encrypt` without its unused first argument.
  unfoldable pub encrypt : ℕ → ℕ → ℕ → ℕ → ℕ → List ℕ → List ℕ → List ℕ → Outcome IoError Record
  encrypt message_type flags epoch stream_id sequence_number plaintext key static_iv =
      let nonce = record_nonce static_iv sequence_number in
      let ciphertext_length = (length plaintext + tag_size) % 2 ^ 32 in
      let header =
        Header.new message_type flags epoch stream_id sequence_number ciphertext_length in
      elim (aead.seal key nonce (Header.to_bytes header) plaintext) [
        | none ↦ err encryption_failed
        | some ciphertext ↦ ok (record { header = header; ciphertext = ciphertext })
      ]

  unfoldable pub decrypt : Record → List ℕ → List ℕ → Outcome IoError (List ℕ)
  decrypt r key static_iv =
      let nonce = record_nonce static_iv r.header.sequence_number in
      elim (aead.unseal key nonce (Header.to_bytes r.header) r.ciphertext) [
        | none ↦ err decryption_failed
        | some plaintext ↦ ok plaintext
      ]
