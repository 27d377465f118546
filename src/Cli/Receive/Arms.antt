-- ===== src/Cli/Receive/Arms.antt =====
-- The callback on each kind of packet.
use cryprq.Base.{
  ℕ, ◌+◌, ◌/◌, ◌%◌, ◌^◌, ◌<◌, ◌≤◌, List, [], ◌++◌, length, slice, ltb, bytes_eq, bytes_eq_self,
}
use cryprq.Base.{◌≡◌, refl, sym, ap, ◌∙◌, arith, true, false, some, none, ok}
use cryprq.Base.{length-append, slice-append, le→ltb}
use mathlib.Core.List.{append-nil}
use cryprq.Base.Bytes.{to_be_bytes, from_be_bytes, from-to_be_bytes}
use cryprq.Base.Maps.{insert, assign_self}
use cryprq.Node.FileTransfer.{FileMetadata, serialize, deserialize, join}
use cryprq.Node.FileTransfer.Metadata.{IsMetadata, deserialize-serialize}
use cryprq.P2p.Packets.{DataChunk, serialize_chunk, deserialize_chunk, create_end_packet}
use cryprq.P2p.Packets.Codec.{deserialize_chunk-serialize_chunk}
use cryprq.P2p.Files.{calculate_file_hash}
use cryprq.P2p.Files.Cutting.{Fills, calculate_file_hash_lem}
use cryprq.P2p.Swarm.{is_file_transfer}
use cryprq.Cli.Receive

-- The first field of a packet, and that it marks a file transfer.
pub packet_type :
    (ty : ℕ) (rest : List ℕ)
    → ty < 3
    → let packet = to_be_bytes 4 ty ++ rest in
      (ltb (length packet) 4 ≡ false)
      × (from_be_bytes (slice packet 0 4) ≡ ty)
      × (is_file_transfer packet ≡ true)
unfolding is_file_transfer
packet_type ty rest small =
    let long : 4 ≤ length (to_be_bytes 4 ty ++ rest) =
      omega (arith, length-append (to_be_bytes 4 ty) rest) in
    let first : from_be_bytes (slice (to_be_bytes 4 ty ++ rest) 0 4) ≡ ty =
      ap from_be_bytes (slice-append [] (to_be_bytes 4 ty) rest 0 4 refl refl)
      ∙ from-to_be_bytes 4 ty (omega arith) in
    (le→ltb _ 4 long, first, ground (arith, first, long))

pub serialize-packet_type :
    (m : FileMetadata)
    → (ltb (length (serialize m)) 4 ≡ false)
      × (from_be_bytes (slice (serialize m) 0 4) ≡ 0)
      × (is_file_transfer (serialize m) ≡ true)
unfolding serialize
serialize-packet_type m = packet_type 0 _ (omega arith)

pub serialize_chunk-packet_type :
    (c : DataChunk)
    → (ltb (length (serialize_chunk c)) 4 ≡ false)
      × (from_be_bytes (slice (serialize_chunk c) 0 4) ≡ 1)
      × (is_file_transfer (serialize_chunk c) ≡ true)
unfolding serialize_chunk
serialize_chunk-packet_type c = packet_type 1 _ (omega arith)

receive_metadata-ok :
    (r : Receive.Receiver) (peer packet : List ℕ) (state : Receive.FileReceiveState)
    (m : FileMetadata)
    → deserialize packet ≡ ok m
    → Receive.receive_metadata r peer state packet ≡ (
      ok Receive.text_ok,
      Receive.with_state r peer (
          some
            (record state { total_chunks = (m.size + 65535) / 65536 % 2 ^ 32; metadata = some m })),
    )
unfolding Receive.receive_metadata
receive_metadata-ok r peer packet state m e = ground (arith, e)

receive_chunk-ok :
    (r : Receive.Receiver) (peer packet : List ℕ) (state : Receive.FileReceiveState) (c : DataChunk)
    → deserialize_chunk packet ≡ ok c
    → Receive.receive_chunk r peer state packet ≡ (
      ok Receive.text_ok,
      Receive.with_state r peer
          (some (record state { chunks = insert state.chunks c.chunk_id c.data' })),
    )
unfolding Receive.receive_chunk
receive_chunk-ok r peer packet state c e = ground (arith, e)

verify_file-ok :
    (storage : Receive.Storage) (r : Receive.Receiver) (peer path content : List ℕ)
    (m : FileMetadata)
    → Fills storage.read
    → storage.can_open path ≡ true
    → storage.sha256 content ≡ m.hash
    → Receive.verify_file storage r peer m path content
      ≡ (ok Receive.text_ok, Receive.with_state r peer none)
unfolding Receive.verify_file
verify_file-ok storage r peer path content m fills can_open hash =
    let same : bytes_eq (storage.sha256 content) m.hash ≡ true = rw hash (bytes_eq_self m.hash) in
    let hashed : calculate_file_hash storage.sha256 storage.read (storage.can_open path) content
        ≡ ok (storage.sha256 content) =
      rw can_open (calculate_file_hash_lem storage.read fills storage.sha256 content) in
    ground (arith, hashed, same)

receive_end-ok :
    (storage : Receive.Storage) (r : Receive.Receiver) (output_dir peer content : List ℕ)
    (state : Receive.FileReceiveState) (m : FileMetadata)
    → let path = join output_dir m.filename in
      state.metadata ≡ some m
      → Receive.write_chunks storage path state.chunks 0 state.total_chunks [] ≡ (ok tt, content)
      → storage.can_create path ≡ true
      → Receive.receive_end storage r output_dir peer state
        ≡ Receive.verify_file storage (Receive.with_file r path (some content)) peer m path content
unfolding Receive.receive_end
receive_end-ok storage r output_dir peer content state m described written can_create =
    ground (arith, described, written, can_create)

state_of-with_state :
    (r : Receive.Receiver) (peer : List ℕ) (state : Receive.FileReceiveState)
    → Receive.state_of (Receive.with_state r peer (some state)) peer ≡ state
state_of-with_state r peer state =
    let e = assign_self r.file_state peer (some state) in ground (arith, e)

module _ (storage : Receive.Storage) (output_dir : List ℕ) (r : Receive.Receiver)
    (peer : List ℕ) where
  -- The receiver once the peer has a state.
  abbrev entered : Receive.Receiver
  entered = Receive.with_state r peer (some (Receive.state_of r peer))

  receive_packet-metadata :
      (packet : List ℕ)
      → ltb (length packet) 4 ≡ false
      → from_be_bytes (slice packet 0 4) ≡ 0
      → Receive.receive_packet storage output_dir r peer packet
        ≡ Receive.receive_metadata entered peer (Receive.state_of r peer) packet
  unfolding Receive.receive_packet
  receive_packet-metadata packet long ty = rw (long, ty) refl

  receive_packet-chunk :
      (packet : List ℕ)
      → ltb (length packet) 4 ≡ false
      → from_be_bytes (slice packet 0 4) ≡ 1
      → Receive.receive_packet storage output_dir r peer packet
        ≡ Receive.receive_chunk entered peer (Receive.state_of r peer) packet
  unfolding Receive.receive_packet
  receive_packet-chunk packet long ty = rw (long, ty) refl

  receive_packet-end :
      (packet : List ℕ)
      → ltb (length packet) 4 ≡ false
      → from_be_bytes (slice packet 0 4) ≡ 2
      → Receive.receive_packet storage output_dir r peer packet
        ≡ Receive.receive_end storage entered output_dir peer (Receive.state_of r peer)
  unfolding Receive.receive_packet
  receive_packet-end packet long ty = rw (long, ty) refl

  pub receive_packet-serialize :
      (m : FileMetadata)
      → IsMetadata m
      → (next : Receive.Receiver) × (Receive.receive_packet storage output_dir r peer (serialize m)
          ≡ (ok Receive.text_ok, next))
        × (Receive.state_of next peer ≡ record (Receive.state_of r peer) {
          total_chunks = (m.size + 65535) / 65536 % 2 ^ 32;
          metadata = some m;
        })
  receive_packet-serialize m v =
      let (long, ty, file) = serialize-packet_type m in
      let read_back =
        ap deserialize (sym (append-nil (serialize m))) ∙ deserialize-serialize m [] v in
      (
        _,
        receive_packet-metadata (serialize m) long ty
            ∙ receive_metadata-ok entered peer _ (Receive.state_of r peer) m read_back,
        state_of-with_state entered peer _,
      )

  pub receive_packet-serialize_chunk :
      (c : DataChunk)
      → c.chunk_id < 2 ^ 32
      → length c.data' < 2 ^ 32
      → (next : Receive.Receiver) × (Receive.receive_packet storage output_dir r peer
            (serialize_chunk c)
          ≡ (ok Receive.text_ok, next))
        × (Receive.state_of next peer ≡ record (Receive.state_of r peer) {
          chunks = insert (Receive.state_of r peer).chunks c.chunk_id c.data';
        })
  receive_packet-serialize_chunk c id_fits fits =
      let (long, ty, file) = serialize_chunk-packet_type c in
      let (back, kind, last) = deserialize_chunk-serialize_chunk c [] id_fits fits in
      let read_back = ap deserialize_chunk (sym (append-nil (serialize_chunk c))) ∙ back in
      (
        _,
        receive_packet-chunk (serialize_chunk c) long ty
            ∙ receive_chunk-ok entered peer _ (Receive.state_of r peer) c read_back,
        state_of-with_state entered peer _,
      )

  -- An end packet for a file whose chunks are all written, with the announced hash.
  pub receive_packet-create_end_packet :
      (m : FileMetadata) (content : List ℕ)
      → Fills storage.read
      → let path = join output_dir m.filename in
        let state = Receive.state_of r peer in
        state.metadata ≡ some m
        → Receive.write_chunks storage path state.chunks 0 state.total_chunks [] ≡ (ok tt, content)
        → storage.can_create path ≡ true
        → storage.can_open path ≡ true
        → storage.sha256 content ≡ m.hash
        → (next : Receive.Receiver) × (Receive.receive_packet storage output_dir r peer
              create_end_packet
            ≡ (ok Receive.text_ok, next))
          × (next.files path ≡ some content)
          × (next.file_state peer ≡ none)
  receive_packet-create_end_packet m content fills described written can_create can_open hash =
      let path = join output_dir m.filename in
      (
        _,
        receive_packet-end create_end_packet refl refl
            ∙ receive_end-ok storage entered output_dir peer content (Receive.state_of r peer) m
                described written can_create
            ∙ verify_file-ok storage _ peer path content m fills can_open hash,
        assign_self r.files path (some content),
        assign_self entered.file_state peer none,
      )
