-- ===== src/Node/RecordLayer/RoundTrip.antt =====
-- What one side sends, the other receives.
use cryprq.Base.{ℕ, ◌+◌, ◌<◌, ◌%◌, ◌^◌, ◌≡◌, ap, arith, List, length, ok, panicked}
use cryprq.Core.Header
use cryprq.Core.Header.{RecordHeader}
use cryprq.Core.Aead.{Aead, IsAead, tag_size}
use cryprq.Core.Record.{to_bytes}
use cryprq.Core.Record.Codec.{length-to_bytes, from_bytes-to_bytes, from_bytes-panicked}
use cryprq.Core.Record.Seal.{
  IsRequest, encrypt-eq-ok, decrypt-encrypt, encrypt-IsRecord, encrypt_ok,
}
use cryprq.Node.CryptoUtils.{Epoch}
use cryprq.Node.RecordLayer.{DirectionKeys, send_record, recv_record}

-- The header of a datagram with this message.
abbrev pub sent_header : Epoch → ℕ → ℕ → ℕ → ℕ → List ℕ → RecordHeader
sent_header ep sid seq mt fl msg =
    Header.new mt fl ep.value sid seq ((length msg + tag_size) % 2 ^ 32)

-- A message whose ciphertext has a length of 32 bits, with fields in the ranges of their types,
-- is sent as a datagram 36 bytes longer, which is received as the message with its header, under
-- the same keys, over an AEAD with its documented behaviour.
pub recv_record-send_record :
    (aead : Aead)
    → IsAead aead
    → (ep : Epoch) (sid seq mt fl : ℕ) (msg : List ℕ) (keys : DirectionKeys)
    → IsRequest mt fl ep.value sid seq
    → length msg + tag_size < 2 ^ 32
    → (bytes : List ℕ) × (send_record aead ep sid seq mt fl msg keys ≡ ok bytes)
      × (length bytes ≡ length msg + 36)
      × (recv_record aead bytes keys ≡ ok (sent_header ep sid seq mt fl msg, msg))
unfolding send_record recv_record
recv_record-send_record aead laws ep sid seq mt fl msg keys req short =
    let (r, sealed) =
      encrypt_ok aead laws mt fl ep.value sid seq msg keys.key keys.iv (omega arith) in
    let (_, built) = encrypt-eq-ok aead mt fl ep.value sid seq msg keys.key keys.iv r sealed in
    let opened = decrypt-encrypt aead mt fl ep.value sid seq msg keys.key keys.iv r sealed laws in
    let valid =
      encrypt-IsRecord aead mt fl ep.value sid seq msg keys.key keys.iv r sealed laws req short in
    (
      to_bytes r,
      ground (arith, sealed),
      omega (
        arith,
        length-to_bytes r,
        valid.announced,
        ap (λ (h : RecordHeader). h.ciphertext_length) built,
      ),
      ground (arith, from_bytes-to_bytes r valid, opened, built),
    )

-- Receiving panics on fewer bytes than a header has.
recv_record-panicked :
    (aead : Aead) (buf : List ℕ) (keys : DirectionKeys)
    → length buf < 20
    → recv_record aead buf keys ≡ panicked
unfolding recv_record
recv_record-panicked aead buf keys h = ground (arith, (from_bytes-panicked buf).1 h)
