-- ===== src/Cli/Download/Transfers.antt =====
-- A file from `handle_send_file` to `handle_receive_file`, and a second one after it.
use cryprq.Base.{ℕ, ◌≤◌, ◌<◌, ◌≡◌, refl, ap, ◌∙◌, arith}
use cryprq.Base.{List, [], ◌∷◌, ◌++◌, length, replicate, true, Option, none, some, ok, err}
use cryprq.Base.Utf8.{is_utf8}
use cryprq.Core.Aead.{IsAead}
use cryprq.Crypto.Kdf.{TrafficKeys}
use cryprq.Crypto.Kdf.Lengths.{IsHkdf}
use cryprq.Node.Error.{replay_detected}
use cryprq.Node.Externals.{Externals}
use cryprq.Node.FileTransfer
use cryprq.Node.FileTransfer.{FileMetadata}
use cryprq.Node.FileTransfer.Metadata.{IsMetadata}
use cryprq.Node.RateLimiter
use cryprq.Node.RateLimiter.{RateLimiter, check_and_consume}
use cryprq.Node.Tunnel.{Tunnel}
use cryprq.Node.Tunnel.Setup.{create_tunnel, initial_tunnel}
use cryprq.Node.Tunnel.TestKeys.{create_tunnel-test}
use cryprq.P2p.Files.Cutting.{Fills}
use cryprq.Cli.Receive.Served.{source_file}
use cryprq.Cli.Send.{parse_udp_addr}
use cryprq.Cli.Upload
use cryprq.Cli.Upload.Small.{handle_send_file-small}
use cryprq.Cli.Download
use cryprq.Cli.Download.Loop.{Admits, arrivals, finished, receive_loop-file, receive_loop-again}

module _ (x : Externals) where
  -- A file that a datagram holds, and that the receiving side can store.
  pub record IsSmallFile (sha256 : List ℕ → List ℕ) (dir filename content : List ℕ) : Type 0 where
    pub filename_utf8 : is_utf8 filename ≡ true
    pub filename_short : length filename ≤ 65423
    pub nonempty : 0 < length content
    pub one_datagram : length content ≤ 65471
    pub hash_32 : length (sha256 content) ≡ 32
    pub can_create : x.file_system.can_create (FileTransfer.join dir filename) ≡ true
    pub writes : length content ≤ x.file_system.accepts 0 content

  module _ (laws : IsAead x.aead) (kdf : IsHkdf x.hkdf) (read : List ℕ → Option ℕ)
      (fills : Fills read) (sha256 : List ℕ → List ℕ)
      (parse_socket : List ℕ → ℕ → Option (x.Address)) (addr from : x.Address)
      (takes : (bytes : List ℕ) → length bytes ≤ 65507 → x.send_to bytes addr ≡ true)
      (peer_addr ip listen_addr host : List ℕ) (port listen_port : ℕ)
      (parsed : parse_udp_addr peer_addr ≡ ok (ip, port)) (reads : parse_socket ip port ≡ some addr)
      (listens : parse_udp_addr listen_addr ≡ ok (host, listen_port)) (dir : List ℕ)
      (now : x.timing.Instant) where
    described-IsMetadata :
        (filename content : List ℕ)
        → IsSmallFile sha256 dir filename content
        → IsMetadata (record { filename = filename; size = length content; hash = sha256 content })
    described-IsMetadata filename content file = record {
      filename_utf8 = file.filename_utf8;
      filename_u32 = omega (arith, file.filename_short);
      size_u64 = omega (arith, file.one_datagram);
      hash_32 = file.hash_32;
    }

    handle_receive_file-loop :
        (keys : TrafficKeys) (master : List ℕ) (incoming : List (Download.Happening x))
        → create_tunnel x true (replicate 32 2) (replicate 32 3) (replicate 64 4) now (some dir)
          ≡ ok (initial_tunnel x keys now (some dir), master)
        → Download.handle_receive_file x true true now listen_addr dir incoming
          ≡ ok (Download.receive_loop x master (initial_tunnel x keys now (some dir)) incoming)
    unfolding Download.handle_receive_file Download.listen
    handle_receive_file-loop keys master incoming created = rw (listens, created) refl

    -- A file of 1 to 65471 bytes that is sent over the tunnel, and arrives before the first
    -- rotation of the keys at either end, is stored: the sender succeeds, both of its datagrams
    -- are handled without an error, and the file stands under its name with its content, over an
    -- AEAD and HKDF with their documented behaviour, a socket that takes datagrams of at most
    -- 65507 bytes, reads that fill the buffer, a file that can be created and written, addresses
    -- that can be read, and a limiter that admits both datagrams.
    pub small_file_arrives :
        (filename content : List ℕ) (sent_at t1 t2 : x.timing.Instant)
        → IsSmallFile sha256 dir filename content
        → Admits x (RateLimiter.new x.timing 1000 2000 now) (t1 ∷ t2 ∷ [])
        → let (result, sent) =
            Upload.handle_send_file x read sha256 parse_socket true sent_at peer_addr
              (source_file filename content) in
          (t : Tunnel x) × (result ≡ ok tt)
          × (Download.handle_receive_file x true true now listen_addr dir
                (arrivals x from (t1 ∷ t2 ∷ []) sent)
              ≡ ok (ok tt ∷ ok tt ∷ [], t))
          × (t.files ≡ (FileTransfer.join dir filename, content) ∷ [])
    unfolding Download.receive_loop
    small_file_arrives filename content sent_at t1 t2 file admits =
        let (keys, master, created) = create_tunnel-test x kdf in
        let meta : FileMetadata = record {
          filename = filename;
          size = length content;
          hash = sha256 content;
        } in
        let (b1, b2, sends, sealed1, sealed2) =
          handle_send_file-small x laws read fills addr takes keys master sha256 parse_socket
            sent_at peer_addr ip filename content port (created sent_at none) parsed reads
            file.filename_short file.hash_32 file.nonempty file.one_datagram in
        let run =
          receive_loop-file x keys now dir meta from t1 t2 master content b1 b2 sealed1 sealed2
            (described-IsMetadata filename content file) file.can_create file.writes refl
            (omega (arith, file.one_datagram)) admits [] in
        (
          finished x keys now dir meta from t1 t2 master content,
          ap (λ r. r.0) sends,
          rw sends (handle_receive_file-loop keys master _ (created now (some dir)) ∙ ap ok run),
          refl,
        )

    -- A second file of 1 to 65471 bytes is refused at a receiver that has got one, where all
    -- datagrams come before the first rotation of the keys at either end: the second sender
    -- succeeds, but both of its datagrams are refused as replays, and the first file is the only
    -- one, under the conditions under which the first file arrives and with a limiter that admits
    -- all four datagrams.
    pub second_file_refused :
        (filename content filename' content' : List ℕ)
        (sent_at sent_at' t1 t2 t3 t4 : x.timing.Instant)
        → IsSmallFile sha256 dir filename content
        → IsSmallFile sha256 dir filename' content'
        → Admits x (RateLimiter.new x.timing 1000 2000 now) (t1 ∷ t2 ∷ t3 ∷ t4 ∷ [])
        → let (result, sent) =
            Upload.handle_send_file x read sha256 parse_socket true sent_at peer_addr
              (source_file filename content) in
          let (result', sent') =
            Upload.handle_send_file x read sha256 parse_socket true sent_at' peer_addr
              (source_file filename' content') in
          (t : Tunnel x) × (result ≡ ok tt)
          × (result' ≡ ok tt)
          × (Download.handle_receive_file x true true now listen_addr dir
                (arrivals x from (t1 ∷ t2 ∷ t3 ∷ t4 ∷ []) (sent ++ sent'))
              ≡ ok (ok tt ∷ ok tt ∷ err replay_detected ∷ err replay_detected ∷ [], t))
          × (t.files ≡ (FileTransfer.join dir filename, content) ∷ [])
    second_file_refused filename content filename' content' sent_at sent_at' t1 t2 t3 t4 file file'
          admits =
        let (keys, master, created) = create_tunnel-test x kdf in
        let meta : FileMetadata = record {
          filename = filename;
          size = length content;
          hash = sha256 content;
        } in
        let (b1, b2, sends, sealed1, sealed2) =
          handle_send_file-small x laws read fills addr takes keys master sha256 parse_socket
            sent_at peer_addr ip filename content port (created sent_at none) parsed reads
            file.filename_short file.hash_32 file.nonempty file.one_datagram in
        let (c1, c2, sends', again1, again2) =
          handle_send_file-small x laws read fills addr takes keys master sha256 parse_socket
            sent_at' peer_addr ip filename' content' port (created sent_at' none) parsed reads
            file'.filename_short file'.hash_32 file'.nonempty file'.one_datagram in
        let (t, refuses, files) =
          receive_loop-again x keys now dir meta from t1 t2 master content b1 b2 sealed1 sealed2 t3
            t4 _ content' c1 c2 again1 again2 admits in
        let run =
          receive_loop-file x keys now dir meta from t1 t2 master content b1 b2 sealed1 sealed2
            (described-IsMetadata filename content file) file.can_create file.writes refl
            (omega (arith, file.one_datagram)) (admits.0, (admits.1.0, tt))
            (Download.arrives t3 (some (c1, from)) ∷ Download.arrives t4 (some (c2, from)) ∷ []) in
        (
          t,
          ap (λ r. r.0) sends,
          ap (λ r. r.0) sends',
          rw (sends, sends')
              (handle_receive_file-loop keys master _ (created now (some dir))
                ∙ ap ok (run ∙ ap (λ r. (ok tt ∷ ok tt ∷ r.0, r.1)) refuses)),
          files,
        )
