-- ===== src/Cli/Receive/Delivery.antt =====
-- A file that `send_file_to_peer` sends arrives through the listener and the callback.
use cryprq.Base.{ℕ, suc, ◌+◌, ◌/◌, ◌%◌, ◌^◌, ◌<◌, ◌≤◌, List, [], ◌∷◌, ◌++◌, length, All}
use cryprq.Base.{◌≡◌, refl, sym, ap, ◌∙◌, subst, arith, true, some, none, ok}
use cryprq.Node.FileTransfer.{FileMetadata, serialize, join}
use cryprq.Node.FileTransfer.Metadata.{IsMetadata}
use cryprq.P2p.Packets.{DataChunk, create_end_packet}
use cryprq.P2p.Files.{chunk_size}
use cryprq.P2p.Files.Cutting.{Fills, cut, chunk_packets, concat-cut, length-cut, cut-short}
use cryprq.P2p.Swarm
use cryprq.Cli.Receive
use cryprq.Cli.Receive.Chunks.{insert_all, write_chunks-insert_all}
use cryprq.Cli.Receive.Arms.{
  serialize-packet_type, serialize_chunk-packet_type, receive_packet-serialize,
  receive_packet-serialize_chunk, receive_packet-create_end_packet,
}

module _ (storage : Receive.Storage) (output_dir peer : List ℕ) where
  -- Every packet is one for the callback, which returns `OK`, and leaves the last receiver.
  abbrev pub Accepted : Receive.Receiver → List (List ℕ) → Receive.Receiver → Type 0
  Accepted r [] r' = r ≡ r'
  Accepted r (packet ∷ packets) r' =
      (next : Receive.Receiver) × (Swarm.is_file_transfer packet ≡ true)
      × (Receive.receive_packet storage output_dir r peer packet ≡ (ok Receive.text_ok, next))
      × Accepted next packets r'

  Accepted-append :
      (xs ys : List (List ℕ)) (r r' r'' : Receive.Receiver)
      → Accepted r xs r'
      → Accepted r' ys r''
      → Accepted r (xs ++ ys) r''
  Accepted-append [] ys r r' r'' e h = subst (λ (t : Receive.Receiver). Accepted t ys r'') (sym e) h
  Accepted-append (packet ∷ xs) ys r r' r'' (next, file, call, rest) h =
      (next, file, call, Accepted-append xs ys next r' r'' rest h)

  Accepted-chunk_packets :
      (pieces : List (List ℕ)) (chunk_id : ℕ) (r : Receive.Receiver)
      → All (λ (piece : List ℕ). length piece ≤ chunk_size) pieces
      → chunk_id + length pieces < 2 ^ 32
      → (r' : Receive.Receiver) × Accepted r (chunk_packets chunk_id pieces) r'
        × (Receive.state_of r' peer ≡ record (Receive.state_of r peer) {
          chunks = insert_all (Receive.state_of r peer).chunks chunk_id pieces;
        })
  Accepted-chunk_packets [] chunk_id r short few = (r, refl, refl)
  Accepted-chunk_packets (piece ∷ pieces) chunk_id r (small, short) few =
      let chunk : DataChunk = record { chunk_id = chunk_id; data' = piece } in
      let (next, call, state) =
        receive_packet-serialize_chunk storage output_dir r peer chunk (omega arith)
          (omega arith) in
      let (r', rest, state') =
        Accepted-chunk_packets pieces (chunk_id + 1) next short (omega arith) in
      let add : Receive.FileReceiveState → Receive.FileReceiveState =
        λ st. record st { chunks = insert_all st.chunks (chunk_id + 1) pieces } in
      (r', (next, (serialize_chunk-packet_type chunk).2, call, rest), state' ∙ ap add state)

  -- The packets of a file of this content and name, from its description to the end.
  pub Accepted-file :
      (m : FileMetadata) (content : List ℕ) (r : Receive.Receiver)
      → let pieces = cut chunk_size (suc (length content)) content in
        let path = join output_dir m.filename in
        IsMetadata m
        → m.size ≡ length content
        → storage.sha256 content ≡ m.hash
        → length pieces < 2 ^ 32
        → Fills storage.read
        → ((bytes : List ℕ) → length bytes ≤ storage.accepts path bytes)
        → storage.can_create path ≡ true
        → storage.can_open path ≡ true
        → (r' : Receive.Receiver) × Accepted r
            (serialize m ∷ (chunk_packets 0 pieces ++ (create_end_packet ∷ [])))
            r'
          × (r'.files path ≡ some content)
          × (r'.file_state peer ≡ none)
  unfolding Swarm.is_file_transfer
  Accepted-file m content r v size hash few fills takes can_create can_open =
      let pieces = cut chunk_size (suc (length content)) content in
      let path = join output_dir m.filename in
      let (r1, call, state) = receive_packet-serialize storage output_dir r peer m v in
      let (r2, chunks, state') =
        Accepted-chunk_packets pieces 0 r1 (cut-short chunk_size (suc (length content)) content)
          (omega arith) in
      let st = Receive.state_of r peer in
      let total : (m.size + 65535) / 65536 % 2 ^ 32 ≡ length pieces =
        let number = length-cut (suc (length content)) content (omega arith) in omega arith in
      let known : Receive.state_of r2 peer ≡ record {
        metadata = some m;
        chunks = insert_all st.chunks 0 pieces;
        total_chunks = length pieces;
      } =
        state'
        ∙ ap (λ (t : Receive.FileReceiveState). record t { chunks = insert_all t.chunks 0 pieces })
            state
        ∙ ap
            (λ (n : ℕ). record {
              metadata = some m;
              chunks = insert_all st.chunks 0 pieces;
              total_chunks = n;
            })
            total in
      let written =
        ap
          (λ (t : Receive.FileReceiveState).
            Receive.write_chunks storage path t.chunks 0 t.total_chunks [])
          known
        ∙ write_chunks-insert_all storage path takes pieces st.chunks 0 []
        ∙ ap (λ w. (ok tt, w))
            (concat-cut chunk_size (suc (length content)) content (omega arith) (omega arith)) in
      let (r3, last, saved, forgotten) =
        receive_packet-create_end_packet storage output_dir r2 peer m content fills
          (ap (λ t. t.metadata) known) written can_create can_open hash in
      (
        r3,
        (
          r1,
          (serialize-packet_type m).2,
          call,
          Accepted-append (chunk_packets 0 pieces) (create_end_packet ∷ []) r1 r2 r3 chunks
              (r3, refl, last, refl),
        ),
        saved,
        forgotten,
      )
