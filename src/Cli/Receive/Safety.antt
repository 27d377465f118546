-- ===== src/Cli/Receive/Safety.antt =====
-- What the callback never does: keep a file with another hash, or panic.
use cryprq.Base.{ℕ, zero, suc, ◌+◌, List, [], ◌++◌, length, ltb}
use cryprq.Base.{◌≡◌, ◌≢◌, refl, arith, some, none, if◌then◌else◌}
use cryprq.Base.{Outcome, ok, err, panicked, Bool-cases, Option-cases, inl, inr, ◌⊎◌}
use cryprq.Base.Maps.{Map, lookup}
use cryprq.Node.FileTransfer.{FileMetadata, join, deserialize, deserialize_rest}
use cryprq.P2p.Packets.{deserialize_chunk}
use cryprq.P2p.Files.Reading.{calculate_file_hash-not-panicked}
use cryprq.P2p.Files.Cutting.{Fills}
use cryprq.Cli.Receive

-- The loop over the chunks writes them all, or names the chunk where it stopped.
write_chunks-cases :
    (storage : Receive.Storage) (path : List ℕ) (chunks : Map (List ℕ)) (n chunk_id : ℕ)
    (written : List ℕ)
    → let result = (Receive.write_chunks storage path chunks chunk_id n written).0 in
      (result ≡ ok tt)
      ⊎ ((i : ℕ) × ((result ≡ err (Receive.missing_chunk i))
            ⊎ (result ≡ err (Receive.write_failed i))))
unfolding Receive.write_chunks
write_chunks-cases storage path chunks zero chunk_id written = inl refl
write_chunks-cases storage path chunks (suc n) chunk_id written =
    elim (Option-cases (lookup chunks chunk_id)) [
      | inl e ↦ inr (chunk_id, inl (ground (arith, e)))
      | inr (piece, e) ↦ elim (Bool-cases (ltb (storage.accepts path piece) (length piece))) [
        | inl full ↦ inr (chunk_id, inr (ground (arith, e, full)))
        | inr takes ↦
            let turn : Receive.write_chunks storage path chunks chunk_id (suc n) written
                ≡ Receive.write_chunks storage path chunks (chunk_id + 1) n (written ++ piece) =
              ground (arith, e, takes) in
            rw turn (write_chunks-cases storage path chunks n (chunk_id + 1) (written ++ piece))
      ]
    ]

-- What stands under the path after an error: nothing, if the hash is another one and the file can be
-- removed, and otherwise what was written, whatever its hash.
abbrev pub AfterError :
    Receive.Storage → List ℕ → List ℕ → Receive.Receiver → Receive.ReceiveError → Type 0
AfterError storage path written r Receive.hash_mismatch =
    r.files path ≡ (if storage.can_remove path then none else some written)
AfterError storage path written r (Receive.missing_chunk i) = r.files path ≡ some written
AfterError storage path written r (Receive.write_failed i) = r.files path ≡ some written
AfterError storage path written r (Receive.hash_failed e) = r.files path ≡ some written
AfterError storage path written r _ = Unit

-- How a transfer ends: well, with the announced hash under the path, or with an error.
abbrev pub EndsWell :
    Receive.Storage
    → List ℕ
    → FileMetadata
    → Outcome Receive.ReceiveError (List ℕ) × Receive.Receiver
    → List ℕ
    → Type 0
EndsWell storage path m result written =
    ((result.0 ≡ ok Receive.text_ok)
      × (storage.sha256 written ≡ m.hash)
      × (result.1.files path ≡ some written))
    ⊎ ((e : Receive.ReceiveError) × (result.0 ≡ err e) × AfterError storage path written result.1 e)

module _ (storage : Receive.Storage) (fills : Fills storage.read) (r : Receive.Receiver)
    (output_dir peer : List ℕ) (m : FileMetadata) where
  abbrev path : List ℕ
  path = join output_dir m.filename

deserialize-not-panicked : (packet : List ℕ) → deserialize packet ≢ panicked
unfolding deserialize deserialize_rest
deserialize-not-panicked packet e = ground arith

deserialize_chunk-not-panicked : (packet : List ℕ) → deserialize_chunk packet ≢ panicked
unfolding deserialize_chunk
deserialize_chunk-not-panicked packet e = ground arith

-- No packet makes the callback panic, whatever the operating system answers.
module _ (storage : Receive.Storage) (output_dir peer : List ℕ) where
  verify_file-not-panicked :
      (r : Receive.Receiver) (m : FileMetadata) (path written : List ℕ)
      → (Receive.verify_file storage r peer m path written).0 ≢ panicked
  unfolding Receive.verify_file
  verify_file-not-panicked r m path written x =
      let safe =
        calculate_file_hash-not-panicked storage.read storage.sha256 (storage.can_open path)
          written in
      ground (arith, safe)

  receive_end-not-panicked :
      (r : Receive.Receiver) (state : Receive.FileReceiveState)
      → (Receive.receive_end storage r output_dir peer state).0 ≢ panicked
  unfolding Receive.receive_end
  receive_end-not-panicked r state x = elim (Option-cases state.metadata) [
    | inl e ↦ ground (arith, e)
    | inr (m, e) ↦
        let path = join output_dir m.filename in
        let loop = Receive.write_chunks storage path state.chunks 0 state.total_chunks [] in
        let safe =
          verify_file-not-panicked (Receive.with_file r path (some loop.1)) m path loop.1 in
        elim (write_chunks-cases storage path state.chunks state.total_chunks 0 []) [
          | inl all ↦ ground (arith, e, all, safe)
          | inr (i, inl missing) ↦ ground (arith, e, missing)
          | inr (i, inr full) ↦ ground (arith, e, full)
        ]
  ]

  receive_packet-not-panicked :
      (r : Receive.Receiver) (packet : List ℕ)
      → (Receive.receive_packet storage output_dir r peer packet).0 ≢ panicked
  unfolding Receive.receive_packet Receive.receive_metadata Receive.receive_chunk
  receive_packet-not-panicked r packet x =
      let meta = deserialize-not-panicked packet in
      let chunk = deserialize_chunk-not-panicked packet in
      let last =
        receive_end-not-panicked (Receive.with_state r peer (some (Receive.state_of r peer)))
          (Receive.state_of r peer) in
      ground (arith, meta, chunk, last)
