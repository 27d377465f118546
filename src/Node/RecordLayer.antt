-- ===== src/Node/RecordLayer.antt =====
-- node/src/record_layer.rs: records to datagrams and back.
pub mod RoundTrip
use cryprq.Base.{ℕ, ◌+◌, ◌%◌, ◌^◌, List, Outcome, ok, ◌>>=◌}
use cryprq.Base.Io.{IoError}
use cryprq.Core.Header.{RecordHeader}
use cryprq.Core.Aead.{Aead}
use cryprq.Core.Record
use cryprq.Core.Record.{Record}
use cryprq.Node.CryptoUtils.{Epoch}

pub record DirectionKeys : Type 0 where
  pub key : List ℕ
  pub iv : List ℕ

abbrev pub vpn_stream_id : ℕ
vpn_stream_id = 1

-- `fetch_add(1)` on the static `AtomicU32` that starts at 2: the number, and the next one.
unfoldable pub alloc_stream_id : ℕ → ℕ × ℕ
alloc_stream_id stream_id_counter = (stream_id_counter, (stream_id_counter + 1) % 2 ^ 32)

module _ (aead : Aead) where
  unfoldable pub send_record :
      Epoch → ℕ → ℕ → ℕ → ℕ → List ℕ → DirectionKeys → Outcome IoError (List ℕ)
  send_record epoch stream_id sequence_number message_type flags plaintext keys = do
    record' ←
        Record.encrypt aead message_type flags epoch.value stream_id sequence_number plaintext
          keys.key keys.iv
    ok (Record.to_bytes record')

  unfoldable pub recv_record : List ℕ → DirectionKeys → Outcome IoError (RecordHeader × List ℕ)
  recv_record buf keys = do
    record' ← Record.from_bytes buf
    plaintext ← Record.decrypt aead record' keys.key keys.iv
    ok (record'.header, plaintext)
