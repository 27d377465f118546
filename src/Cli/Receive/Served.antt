-- ===== src/Cli/Receive/Served.antt =====
-- A listener that serves the requests of a file transfer.
use cryprq.Base.{ℕ, ◌+◌, ◌*◌, ◌^◌, ◌<◌, ◌≤◌, suc, List, [], ◌∷◌, length, Bool}
use cryprq.Base.{◌≡◌, refl, sym, ap, ◌∙◌, subst, arith, true, some, none, Option, ok}
use cryprq.Base.Utf8.{is_utf8}
use cryprq.Node.FileTransfer.{FileMetadata, join}
use cryprq.Base.{◌-◌}
use cryprq.Node.FileTransfer.Metadata.{IsMetadata}
use cryprq.P2p.Backoff.{BackoffConfig}
use cryprq.P2p.Files.{chunk_size, SourceFile, send_file_to_peer}
use cryprq.P2p.Files.Cutting.{Fills, cut, length-cut, send_file_to_peer-cut}
use cryprq.P2p.Swarm
use cryprq.Cli.Receive
use cryprq.Cli.Receive.Delivery.{Accepted, Accepted-file}

-- The packets of a peer as requests, on channels from one on.
abbrev pub requests : ℕ → List ℕ → ℕ → List (List ℕ) → List (ℕ × Swarm.LoopEvent)
requests now peer channel [] = []
requests now peer channel (packet ∷ packets) =
    (now, Swarm.request_response (Swarm.request peer channel packet))
    ∷ requests now peer (channel + 1) packets

-- The response `OK` to each of them.
abbrev pub all_ok : ℕ → List (List ℕ) → List Swarm.Action
all_ok channel [] = []
all_ok channel (packet ∷ packets) =
    Swarm.respond channel Receive.text_ok ∷ all_ok (channel + 1) packets

-- A file that can be sent and stored: its name is a string, it has fewer than 2 ^ 32 - 1 chunks,
-- and no call of the operating system on either side fails or stops short.
pub record IsDeliverable (storage : Receive.Storage) (read : List ℕ → Option ℕ)
    (output_dir filename content : List ℕ) : Type 0 where
  pub filename_utf8 : is_utf8 filename ≡ true
  pub filename_u32 : length filename < 2 ^ 32
  pub few_chunks : length content < 65536 * (2 ^ 32 - 1)
  pub hash_32 : length (storage.sha256 content) ≡ 32
  pub reads : Fills read
  pub reads_back : Fills storage.read
  pub writes : (bytes : List ℕ) → length bytes ≤ storage.accepts (join output_dir filename) bytes
  pub can_create : storage.can_create (join output_dir filename) ≡ true
  pub can_open : storage.can_open (join output_dir filename) ≡ true

abbrev pub source_file : List ℕ → List ℕ → SourceFile
source_file filename content = record {
  file_name = some filename;
  content = content;
  can_open = true;
  can_stat = true;
}

module _ (storage : Receive.Storage) (text : Receive.ReceiveError → List ℕ)
    (output_dir peer : List ℕ) (config : BackoffConfig) (is_open : ℕ → Bool) (now : ℕ) where
  file_callback-ok :
      (r r' : Receive.Receiver) (packet bytes : List ℕ)
      → Receive.receive_packet storage output_dir r peer packet ≡ (ok bytes, r')
      → Receive.file_callback storage text output_dir r peer packet ≡ (Swarm.accepted bytes, r')
  unfolding Receive.file_callback
  file_callback-ok r r' packet bytes e = ground (arith, e)

  listener_step-accepted :
      (s : Swarm.Node Receive.Receiver) (r' : Receive.Receiver) (channel : ℕ) (packet : List ℕ)
      → s.file_transfer_callback ≡ some (Receive.file_callback storage text output_dir)
      → Swarm.is_file_transfer packet ≡ true
      → Receive.receive_packet storage output_dir s.captured peer packet ≡ (ok Receive.text_ok, r')
      → Swarm.listener_step config is_open now s
          (Swarm.request_response (Swarm.request peer channel packet))
        ≡ (Swarm.respond channel Receive.text_ok ∷ [], record s { captured = r' })
  unfolding Swarm.listener_step Swarm.handle_request_response Swarm.handle_request
  listener_step-accepted s r' channel packet callback file call =
      let called = file_callback-ok s.captured r' packet Receive.text_ok call in
      ground (arith, callback, file, called)

  listener_run-Accepted :
      (packets : List (List ℕ)) (s : Swarm.Node Receive.Receiver) (r' : Receive.Receiver)
      (channel : ℕ)
      → s.file_transfer_callback ≡ some (Receive.file_callback storage text output_dir)
      → Accepted storage output_dir peer s.captured packets r'
      → Swarm.listener_run config is_open s (requests now peer channel packets)
        ≡ (all_ok channel packets, record s { captured = r' })
  unfolding Swarm.listener_run
  listener_run-Accepted [] s r' channel callback e = ap (λ r. ([], record s { captured = r })) e
  listener_run-Accepted (packet ∷ packets) s r' channel callback (next, file, call, rest) =
      rw
        (
          listener_step-accepted s next channel packet callback file call,
          listener_run-Accepted packets (record s { captured = next }) r' (channel + 1) callback
              rest,
        )
        refl

  -- A file whose name is a string, of fewer than 2 ^ 32 - 1 chunks, is sent without an error
  -- where each read fills the buffer; and a listener with the receiving callback, whose file
  -- system fails on no call, answers OK to every packet, in whatever state the callback was,
  -- after which the file stands under its name with the content that was sent, and the state of
  -- the transfer is removed.
  pub file_arrives :
      (s : Swarm.Node Receive.Receiver) (read : List ℕ → Option ℕ) (filename content : List ℕ)
      (channel : ℕ)
      → s.file_transfer_callback ≡ some (Receive.file_callback storage text output_dir)
      → IsDeliverable storage read output_dir filename content
      → let (packets, result) =
          send_file_to_peer storage.sha256 read (source_file filename content) in
        let (actions, s') =
          Swarm.listener_run config is_open s (requests now peer channel packets) in
        (result ≡ ok tt)
        × (actions ≡ all_ok channel packets)
        × (s'.captured.files (join output_dir filename) ≡ some content)
        × (s'.captured.file_state peer ≡ none)
  file_arrives s read filename content channel callback d =
      let m : FileMetadata = record {
        filename = filename;
        size = length content;
        hash = storage.sha256 content;
      } in
      let few : length (cut chunk_size (suc (length content)) content) < 2 ^ 32 =
        let number = length-cut (suc (length content)) content (omega arith) in
        let bound = d.few_chunks in omega arith in
      let valid : IsMetadata m = record {
        filename_utf8 = d.filename_utf8;
        filename_u32 = d.filename_u32;
        size_u64 = let bound = d.few_chunks in omega arith;
        hash_32 = d.hash_32;
      } in
      let (r', accepted, saved, forgotten) =
        Accepted-file storage output_dir peer m content s.captured valid refl refl few d.reads_back
          d.writes d.can_create d.can_open in
      let sent = send_file_to_peer-cut read d.reads storage.sha256 filename content few in
      let packets = (send_file_to_peer storage.sha256 read (source_file filename content)).0 in
      let arrive =
        subst (λ (p : List (List ℕ)). Accepted storage output_dir peer s.captured p r')
          (sym (ap (λ t. t.0) sent)) accepted in
      let served = listener_run-Accepted packets s r' channel callback arrive in
      (
        ap (λ t. t.1) sent,
        ap (λ t. t.0) served,
        ap (λ t. t.1.captured.files (join output_dir filename)) served ∙ saved,
        ap (λ t. t.1.captured.file_state peer) served ∙ forgotten,
      )
