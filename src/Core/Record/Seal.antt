-- ===== src/Core/Record/Seal.antt =====
-- `Record::encrypt` and `Record::decrypt`, over an AEAD with its documented behaviour.
use cryprq.Base.{ℕ, ◌+◌, ◌%◌, ◌≤◌, ◌<◌, ◌^◌, ◌≡◌, ap, arith}
use cryprq.Base.{List, length, ok, some}
use cryprq.Core.Header
use cryprq.Core.Header.{RecordHeader, IsHeader}
use cryprq.Core.Nonce.{record_nonce}
use cryprq.Core.Aead.{Aead, IsAead, tag_size, plaintext_limit}
use cryprq.Core.Record.{Record, encrypt, decrypt}
use cryprq.Core.Record.Codec.{IsRecord}

-- The arguments that the caller passes are in the ranges of their types.
pub record IsRequest (message_type flags epoch stream_id sequence_number : ℕ) : Type 0 where
  pub message_type_byte : message_type < 256
  pub flags_byte : flags < 256
  pub epoch_byte : epoch < 256
  pub stream_id_u32 : stream_id < 2 ^ 32
  pub sequence_number_u64 : sequence_number < 2 ^ 64

module _ (aead : Aead) (mt fl ep sid seq : ℕ) (msg key iv : List ℕ) (r : Record)
    (sealed : encrypt aead mt fl ep sid seq msg key iv ≡ ok r) where
  -- What a successful `encrypt` has built.
  pub encrypt-eq-ok :
      (aead.seal key (record_nonce iv seq) (Header.to_bytes r.header) msg ≡ some r.ciphertext)
      × (r.header ≡ Header.new mt fl ep sid seq ((length msg + tag_size) % 2 ^ 32))
  unfolding encrypt
  encrypt-eq-ok = ground arith

  module _ (laws : IsAead aead) where
    -- A sealed record opens to the message under the same key and IV.
    pub decrypt-encrypt : decrypt aead r key iv ≡ ok msg
    unfolding decrypt
    decrypt-encrypt =
        let (called, built) = encrypt-eq-ok in
        let nonce : record_nonce iv r.header.sequence_number ≡ record_nonce iv seq =
          ap (λ (h : RecordHeader). record_nonce iv h.sequence_number) built in
        let opened = laws.unseal-seal key _ _ msg r.ciphertext called in rw (nonce, opened, decrypt)

    -- The header announces the length of the ciphertext, where that fits 32 bits.
    pub encrypt-IsRecord : IsRequest mt fl ep sid seq → length msg + tag_size < 2 ^ 32 → IsRecord r
    encrypt-IsRecord req short =
        let (called, built) = encrypt-eq-ok in
        let tagged = laws.length-seal key _ _ msg r.ciphertext called in ground arith

-- Every message within the limit of the AEAD is encrypted.
pub encrypt_ok :
    (aead : Aead)
    → IsAead aead
    → (mt fl ep sid seq : ℕ) (msg key iv : List ℕ) → length msg ≤ plaintext_limit
    → (r : Record) × (encrypt aead mt fl ep sid seq msg key iv ≡ ok r)
unfolding encrypt
encrypt_ok aead laws mt fl ep sid seq msg key iv short =
    let h = Header.new mt fl ep sid seq ((length msg + tag_size) % 2 ^ 32) in
    let (ct, sealed) = laws.seal-some key (record_nonce iv seq) (Header.to_bytes h) msg short in
    (record { header = h; ciphertext = ct }, ground (arith, sealed))
