-- ===== src/Node/Tests.antt =====
-- The theorems on the parts of the tunnel at concrete inputs.
mod Tunnels
use cryprq.Node.Tun.{DeviceRead, packet_read, read_error, tun_read_task}
use cryprq.Node.Tun.Forwarding.{zeros_for, tun_read_task-zeros}
use cryprq.Base.{
  ℕ, ◌+◌, ◌%◌, ◌≤◌, ◌<◌, ◌^◌, ◌≡◌, ◌≢◌, refl, arith, max, List, [], ◌∷◌, ◌++◌, length, replicate,
  get_or,
}
use cryprq.Base.{Outcome, ok, err, Option, none, some, true}
use cryprq.Base.Maps.{lookup}
use cryprq.Base.Utf8.{is_utf8}
use cryprq.Core.Record.Seal.{IsRequest}
use cryprq.Node.Error.{TunnelError, rate_limit_exceeded}
use cryprq.Node.Example.{aead-IsAead, timing-IsTiming, aead, timing, file_system}
use cryprq.Node.CryptoUtils.{Epoch, initial, next_times, value-next_times, make_nonce}
use cryprq.Node.SeqCounters
use cryprq.Node.SeqCounters.{SeqCounters, next_vpn, next_data, next_file, max_nonce_value, reset}
use cryprq.Node.SeqCounters.Nonces
use cryprq.Node.SeqCounters.Nonces.{vpn, file, Kind}
use cryprq.Node.RecordLayer.{DirectionKeys, send_record, recv_record}
use cryprq.Node.RecordLayer.RoundTrip.{recv_record-send_record, sent_header}
use cryprq.Node.RateLimiter
use cryprq.Node.RateLimiter.{RateLimiter, check_and_consume}
use cryprq.Node.RateLimiter.Bucket.{check_and_consume-bounded, burst, burst-new}
use cryprq.Node.FileTransfer
use cryprq.Node.FileTransfer.{
  FileMetadata, FileTransferManager, Files, IncomingTransfer, serialize, deserialize,
  start_incoming_transfer, write_chunk,
}
use cryprq.Node.FileTransfer.Metadata.{IsMetadata, deserialize-serialize}
use cryprq.Node.FileTransfer.Manager.{
  IsReceiving, start_incoming_transfer-IsReceiving, write_chunk-IsReceiving,
}
use cryprq.Node.Padding.{PaddingConfig, pad_packet, unpad_packet}

-- Numbers 0 and 1 with a file's number drawn in between.
abbrev file_between : List Kind
file_between = file ∷ []

first_number : (next_vpn SeqCounters.new).0 ≡ some 0
unfolding next_vpn
first_number = refl

second_number : (next_vpn (Nonces.after (next_vpn SeqCounters.new).1 file_between)).0 ≡ some 1
unfolding next_vpn Nonces.after next_file
second_number = refl

abbrev zero_iv : List ℕ
zero_iv = replicate 12 0

vpn_nonces_differ_example : make_nonce zero_iv 0 ≢ make_nonce zero_iv 1
vpn_nonces_differ_example =
    Nonces.vpn_nonces_differ SeqCounters.new file_between 0 1 first_number second_number zero_iv
      refl

abbrev exhausted : SeqCounters
exhausted = record { vpn = max_nonce_value; data_counter = 0; file = 0 }

abbrev keys : DirectionKeys
keys = record { key = replicate 32 1; iv = zero_iv }

abbrev hello : List ℕ
hello = 104 ∷ 105 ∷ []

hello-IsRequest : IsRequest 5 0 0 1 7
hello-IsRequest = record {
  message_type_byte = omega arith;
  flags_byte = omega arith;
  epoch_byte = omega arith;
  stream_id_u32 = omega arith;
  sequence_number_u64 = omega arith;
}

recv_record-send_record_example :
    (bytes : List ℕ) × (send_record aead initial 1 7 5 0 hello keys ≡ ok bytes)
    × (length bytes ≡ length hello + 36)
    × (recv_record aead bytes keys ≡ ok (sent_header initial 1 7 5 0 hello, hello))
recv_record-send_record_example =
    recv_record-send_record aead aead-IsAead initial 1 7 5 0 hello keys hello-IsRequest
      (omega arith)

abbrev limiter : RateLimiter timing
limiter = RateLimiter.new timing 1000 3 50

burst-new_example :
    burst timing timing-IsTiming (3 + 2) (RateLimiter.new timing 1000 3 50) 50
    ≡ replicate 3 (ok tt) ++ replicate 2 (err rate_limit_exceeded)
burst-new_example = burst-new timing timing-IsTiming 1000 3 2 50 (omega arith) (omega arith)

abbrev notes : FileMetadata
notes = record { filename = 110 ∷ 46 ∷ 116 ∷ []; size = 3; hash = replicate 32 9 }

notes-IsMetadata : IsMetadata notes
unfolding is_utf8
notes-IsMetadata = record {
  filename_utf8 = refl;
  filename_u32 = omega arith;
  size_u64 = omega arith;
  hash_32 = refl;
}

abbrev manager : FileTransferManager
manager = FileTransfer.new (47 ∷ [])

abbrev started : FileTransferManager × Files
started = (start_incoming_transfer file_system manager [] 2 notes).1

started-IsReceiving : IsReceiving started.0 started.1 2 0 3 []
started-IsReceiving = (start_incoming_transfer-IsReceiving file_system manager [] 2 notes refl).1

abbrev padding : PaddingConfig
padding = record { min_packet_size = 64; max_packet_size = 1500; target_packet_size = 8 }

abbrev device_reads : List DeviceRead
device_reads = packet_read (7 ∷ 8 ∷ []) ∷ packet_read [] ∷ read_error ∷ packet_read (9 ∷ []) ∷ []
