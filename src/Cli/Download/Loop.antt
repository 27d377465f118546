-- ===== src/Cli/Download/Loop.antt =====
-- The receive loop on the two datagrams of a file, and on two more with the same numbers.
use cryprq.Base.{ℕ, ◌≤◌, ◌<◌, ◌^◌, ◌≡◌, refl, ap, ◌∙◌, arith}
use cryprq.Base.{List, [], ◌∷◌, length, true, Option, some, Outcome, ok, err, panicked, get_or}
use cryprq.Core.Header.{msg_type_file_meta, msg_type_file_chunk}
use cryprq.Crypto.Kdf.{TrafficKeys}
use cryprq.Node.Error.{TunnelError, replay_detected}
use cryprq.Node.Externals.{Externals}
use cryprq.Node.FileTransfer
use cryprq.Node.FileTransfer.{FileMetadata}
use cryprq.Node.FileTransfer.Metadata.{IsMetadata}
use cryprq.Node.RateLimiter
use cryprq.Node.RateLimiter.{RateLimiter, check_and_consume}
use cryprq.Node.Replay
use cryprq.Node.Replay.{ReplayWindow, check_and_update}
use cryprq.Node.Replay.Runs.{results, verdicts, results-new_refine}
use cryprq.Node.Replay.Spec.{offer}
use cryprq.Node.Tunnel.{Tunnel}
use cryprq.Node.Tunnel.Exchange.{IsSealed, received, replayed}
use cryprq.Node.Tunnel.Handling.{recv_and_handle_record-replayed}
use cryprq.Node.Tunnel.Incoming.{recv_and_handle_record}
use cryprq.Node.Tunnel.Setup.{initial_tunnel, keys_ir}
use cryprq.Cli.Download
use cryprq.Cli.Download.Arrivals.{meta_arrives, chunk_arrives, opened, closed, file_of}

-- The first two numbers pass a new window once each.
first_numbers :
    let w1 = (check_and_update Replay.new 0).1 in
    let w2 = (check_and_update w1 1).1 in
    let w3 = (check_and_update w2 0).1 in
    ((check_and_update Replay.new 0).0 ≡ ok tt)
    × ((check_and_update w1 1).0 ≡ ok tt)
    × ((check_and_update w2 0).0 ≡ err replay_detected)
    × ((check_and_update w3 1).0 ≡ err replay_detected)
unfolding results offer verdicts
first_numbers =
    let answers : List (Outcome TunnelError (Unit {0})) =
      ok tt ∷ ok tt ∷ err replay_detected ∷ err replay_detected ∷ [] in
    let run : results Replay.new (0 ∷ 1 ∷ 0 ∷ 1 ∷ []) ≡ answers =
      results-new_refine (0 ∷ 1 ∷ 0 ∷ 1 ∷ []) (omega arith) in
    (
      ap (λ l. get_or l 0 panicked) run,
      ap (λ l. get_or l 1 panicked) run,
      ap (λ l. get_or l 2 panicked) run,
      ap (λ l. get_or l 3 panicked) run,
    )

module _ (x : Externals) where
  -- The limiter passes a check at each of these instants.
  abbrev pub Admits : RateLimiter x.timing → List (x.timing.Instant) → Type 0
  Admits l [] = Unit
  Admits l (now ∷ times) =
      ((check_and_consume x.timing l now).0 ≡ ok tt)
      × Admits (check_and_consume x.timing l now).1 times

  -- Datagrams that arrive in their order, at these instants, with no rotation of the receiver's keys
  -- before or between them.
  abbrev pub arrivals :
      x.Address → List (x.timing.Instant) → List (List ℕ × x.Address) → List (Download.Happening x)
  arrivals from [] sent = []
  arrivals from (now ∷ times) [] = []
  arrivals from (now ∷ times) ((bytes, addr) ∷ sent) =
      Download.arrives now (some (bytes, from)) ∷ arrivals from times sent

  receive_loop-ok :
      (master : List ℕ) (t t' : Tunnel x) (now : x.timing.Instant) (d : Option (List ℕ × x.Address))
      (rest : List (Download.Happening x))
      → recv_and_handle_record x t now d ≡ (ok tt, t')
      → Download.receive_loop x master t (Download.arrives now d ∷ rest) ≡ (
        ok tt ∷ (Download.receive_loop x master t' rest).0,
        (Download.receive_loop x master t' rest).1,
      )
  unfolding Download.receive_loop
  receive_loop-ok master t t' now d rest e = ground (arith, e)

  receive_loop-err :
      (master : List ℕ) (t t' : Tunnel x) (now : x.timing.Instant) (d : Option (List ℕ × x.Address))
      (rest : List (Download.Happening x)) (f : TunnelError)
      → recv_and_handle_record x t now d ≡ (err f, t')
      → Download.receive_loop x master t (Download.arrives now d ∷ rest) ≡ (
        err f ∷ (Download.receive_loop x master t' rest).0,
        (Download.receive_loop x master t' rest).1,
      )
  unfolding Download.receive_loop
  receive_loop-err master t t' now d rest f e = ground (arith, e)

  module _ (keys : TrafficKeys) (now : x.timing.Instant) (dir : List ℕ) (meta : FileMetadata)
      (from : x.Address) (t1 t2 : x.timing.Instant) (master : List ℕ) where
    -- The receiver at its start, after the metadata and after the chunk.
    abbrev pub idle : Tunnel x
    idle = initial_tunnel x keys now (some dir)

    abbrev pub begun : Tunnel x
    begun = record (received x idle t1 from 0) {
      file_transfer = opened dir 2 meta;
      files = file_of dir meta [];
    }

    abbrev pub finished : List ℕ → Tunnel x
    finished content = record (received x begun t2 from 1) {
      file_transfer = closed dir 2 meta (length content);
      files = file_of dir meta content;
    }

    module _ (content b1 b2 : List ℕ)
        (sealed1 : IsSealed x
          (keys_ir keys)
          msg_type_file_meta
          2
          0
          (FileTransfer.serialize meta)
          b1)
        (sealed2 : IsSealed x (keys_ir keys) msg_type_file_chunk 2 1 content b2) where
      -- The two datagrams of a file leave the file with its content.
      pub receive_loop-file :
          IsMetadata meta
          → x.file_system.can_create (FileTransfer.join dir meta.filename) ≡ true
          → length content ≤ x.file_system.accepts 0 content
          → meta.size ≡ length content
          → length content < 2 ^ 64
          → Admits (RateLimiter.new x.timing 1000 2000 now) (t1 ∷ t2 ∷ [])
          → (rest : List (Download.Happening x))
          → let (results, t) = Download.receive_loop x master (finished content) rest in
            Download.receive_loop x master idle
              (Download.arrives t1 (some (b1, from)) ∷ Download.arrives t2 (some (b2, from)) ∷ rest)
            ≡ (ok tt ∷ ok tt ∷ results, t)
      unfolding initial_tunnel
      receive_loop-file valid can takes size fits admits rest =
          let (n0, n1, _, _) = first_numbers in
          let first =
            meta_arrives x dir 2 meta idle t1 from 0 b1 admits.0 n0 sealed1 can valid refl refl in
          let second =
            chunk_arrives x dir 2 meta begun t2 from 1 b2 admits.1.0 n1 content sealed2 refl refl
              takes size fits in
          receive_loop-ok master idle begun t1 (some (b1, from))
            (Download.arrives t2 (some (b2, from)) ∷ rest) first
          ∙ ap (λ r. (ok tt ∷ r.0, r.1))
              (receive_loop-ok master begun (finished content) t2 (some (b2, from)) rest second)

      -- Two datagrams of any tunnel with the same keys and numbers are refused after them.
      pub receive_loop-again :
          (t3 t4 : x.timing.Instant) (p1 p2 c1 c2 : List ℕ)
          → IsSealed x (keys_ir keys) msg_type_file_meta 2 0 p1 c1
          → IsSealed x (keys_ir keys) msg_type_file_chunk 2 1 p2 c2
          → Admits (RateLimiter.new x.timing 1000 2000 now) (t1 ∷ t2 ∷ t3 ∷ t4 ∷ [])
          → (t : Tunnel x) × (Download.receive_loop x master
                (finished content)
                (Download.arrives t3 (some (c1, from)) ∷ Download.arrives t4 (some (c2, from)) ∷ [])
              ≡ (err replay_detected ∷ err replay_detected ∷ [], t))
            × (t.files ≡ file_of dir meta content)
      unfolding initial_tunnel Download.receive_loop
      receive_loop-again t3 t4 p1 p2 c1 c2 again1 again2 admits =
          let (_, _, n2, n3) = first_numbers in
          let t = replayed x (finished content) t3 from 0 in
          let third =
            recv_and_handle_record-replayed x (finished content) t3 from msg_type_file_meta 2 0 p1
              c1 again1 admits.1.1.0 replay_detected n2 in
          let fourth =
            recv_and_handle_record-replayed x t t4 from msg_type_file_chunk 2 1 p2 c2 again2
              admits.1.1.1.0 replay_detected n3 in
          (
            replayed x t t4 from 1,
            receive_loop-err master (finished content) t t3 (some (c1, from))
                  (Download.arrives t4 (some (c2, from)) ∷ []) replay_detected third
                ∙ ap (λ r. (err replay_detected ∷ r.0, r.1))
                    (receive_loop-err master t (replayed x t t4 from 1) t4 (some (c2, from)) []
                      replay_detected fourth),
            refl,
          )
