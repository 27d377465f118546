-- ===== src/Node/FileTransfer/Manager.antt =====
-- What the chunks of a transfer leave in its file.
use cryprq.Base.{ℕ, zero, suc, ◌+◌, ◌%◌, ◌≤◌, ◌<◌, ◌^◌, ◌≡◌, refl, sym, ap, ◌∙◌, arith}
use cryprq.Base.{List, [], ◌∷◌, ◌++◌, length, get_or, set, length-append, length-set, get_or-append}
use cryprq.Base.{true, none, some, ok}
use cryprq.Base.Maps.{lookup, insert, lookup-insert}
use cryprq.Node.FileTransfer

-- A transfer whose file is open at a handle, with its content.
pub record IsReceiving (m : FileTransfer.FileTransferManager) (files : FileTransfer.Files)
    (stream_id handle size : ℕ) (content : List ℕ) : Type 0 where
  pub transfer : FileTransfer.IncomingTransfer
  pub found : lookup m.incoming stream_id ≡ some transfer
  pub is_open : transfer.file ≡ some handle
  pub announced : transfer.metadata.size ≡ size
  pub counted : transfer.bytes_received ≡ length content
  pub in_files : handle < length files
  pub written : (get_or files handle ([], [])).1 ≡ content

get_or-set :
    {A : Type 0} (xs : List A) (i : ℕ) (v d : A) → i < length xs → get_or (set xs i v) i d ≡ v
get_or-set [] i v d h = absurd (omega arith)
get_or-set (x ∷ xs) zero v d h = refl
get_or-set (x ∷ xs) (suc i) v d h = get_or-set xs i v d (omega arith)

module _ (fs : FileTransfer.FileSystem) where
  -- Starting a transfer whose file can be created opens an empty file for the stream.
  pub start_incoming_transfer-IsReceiving :
      (m : FileTransfer.FileTransferManager) (files : FileTransfer.Files) (stream_id : ℕ)
      (metadata : FileTransfer.FileMetadata)
      → fs.can_create (FileTransfer.join m.output_dir metadata.filename) ≡ true
      → let (r, (m', files')) =
          FileTransfer.start_incoming_transfer fs m files stream_id metadata in
        (r ≡ ok tt) × IsReceiving m' files' stream_id (length files) metadata.size []
  unfolding FileTransfer.start_incoming_transfer
  start_incoming_transfer-IsReceiving m files sid metadata can = (
    ground (arith, can),
    rw can (record {
      transfer = _;
      found = lookup-insert m.incoming sid _;
      is_open = refl;
      announced = refl;
      counted = refl;
      in_files = omega (
        arith,
        length-append files ((FileTransfer.join m.output_dir metadata.filename, []) ∷ []),
      );
      written = ap (λ f. f.1) (get_or-append files [] (length files) _ ([], []) refl);
    }),
  )

  write_chunk_accepted :
      (m : FileTransfer.FileTransferManager) (files : FileTransfer.Files) (sid handle : ℕ)
      (chunk : List ℕ) (t : FileTransfer.IncomingTransfer)
      → lookup m.incoming sid ≡ some t
      → t.file ≡ some handle
      → length chunk ≤ fs.accepts handle chunk
      → FileTransfer.write_chunk fs m files sid chunk ≡ (
        ok tt,
        (
          record m { incoming = insert m.incoming sid (FileTransfer.count_chunk t (length chunk)) },
          FileTransfer.append_to files handle chunk,
        ),
      )
  unfolding FileTransfer.write_chunk
  write_chunk_accepted m files sid handle chunk t found is_open takes = ground arith

  append_to-content :
      (files : FileTransfer.Files) (handle : ℕ) (content chunk : List ℕ)
      → handle < length files
      → (get_or files handle ([], [])).1 ≡ content
      → (get_or (FileTransfer.append_to files handle chunk) handle ([], [])).1 ≡ content ++ chunk
  unfolding FileTransfer.append_to
  append_to-content files handle content chunk h e =
      ap (λ f. f.1) (get_or-set files handle _ ([], []) h) ∙ ap (λ c. c ++ chunk) e

  length-append_to :
      (files : FileTransfer.Files) (handle : ℕ) (chunk : List ℕ)
      → length (FileTransfer.append_to files handle chunk) ≡ length files
  unfolding FileTransfer.append_to
  length-append_to files handle chunk = length-set files handle _

  -- A chunk that the file system takes whole is appended to the file of its transfer, if the
  -- length of the content stays below 2 ^ 64: below the announced size the transfer goes on with
  -- the longer content, and from that size on the file is closed.
  pub write_chunk-IsReceiving :
      (m : FileTransfer.FileTransferManager) (files : FileTransfer.Files) (sid handle size : ℕ)
      (content chunk : List ℕ)
      → IsReceiving m files sid handle size content
      → length chunk ≤ fs.accepts handle chunk
      → length content + length chunk < 2 ^ 64
      → let (r, (m', files')) = FileTransfer.write_chunk fs m files sid chunk in
        (r ≡ ok tt)
        × ((get_or files' handle ([], [])).1 ≡ content ++ chunk)
        × (length content + length chunk < size
            → IsReceiving m' files' sid handle size (content ++ chunk))
        × (size ≤ length content + length chunk
            → (t : FileTransfer.IncomingTransfer) × (lookup m'.incoming sid ≡ some t)
              × (t.file ≡ none))
  unfolding FileTransfer.count_chunk
  write_chunk-IsReceiving m files sid handle size content chunk recv takes fits =
      let t = recv.transfer in
      let t' = FileTransfer.count_chunk t (length chunk) in
      let total : (t.bytes_received + length chunk) % 2 ^ 64 ≡ length content + length chunk =
        omega (arith, recv.counted) in
      let stored = append_to-content files handle content chunk recv.in_files recv.written in
      rw (write_chunk_accepted m files sid handle chunk t recv.found recv.is_open takes) (
        refl,
        stored,
        (λ below. record {
          transfer = t';
          found = lookup-insert m.incoming sid t';
          is_open = ground (arith, recv.is_open, recv.announced);
          announced = recv.announced;
          counted = total ∙ sym (length-append content chunk);
          in_files = omega (arith, length-append_to files handle chunk, recv.in_files);
          written = stored;
        }),
        λ full. (t', lookup-insert m.incoming sid t', ground (arith, recv.announced)),
      )
