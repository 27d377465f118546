-- ===== src/Cli/Receive/Chunks.antt =====
-- The chunks that arrive, and what the end packet writes of them.
use cryprq.Base.{ℕ, suc, ◌+◌, ◌<◌, ◌≤◌, List, [], ◌∷◌, ◌++◌, length}
use cryprq.Base.{◌≡◌, refl, sym, ap, ◌∙◌, arith, some, ok, le→ltb}
use mathlib.Core.List.{append_assoc, append-nil}
use cryprq.Base.Maps.{Map, lookup, insert, lookup-insert, lookup-insert_other}
use cryprq.P2p.Files.Cutting.{concat}
use cryprq.Cli.Receive

-- The map after the chunks that start at an index.
abbrev pub insert_all : Map (List ℕ) → ℕ → List (List ℕ) → Map (List ℕ)
insert_all chunks chunk_id [] = chunks
insert_all chunks chunk_id (piece ∷ pieces) =
    insert_all (insert chunks chunk_id piece) (chunk_id + 1) pieces

insert_all-earlier :
    (chunks : Map (List ℕ)) (chunk_id j : ℕ) (pieces : List (List ℕ))
    → j < chunk_id
    → lookup (insert_all chunks chunk_id pieces) j ≡ lookup chunks j
insert_all-earlier chunks chunk_id j [] h = refl
insert_all-earlier chunks chunk_id j (piece ∷ pieces) h =
    insert_all-earlier (insert chunks chunk_id piece) (chunk_id + 1) j pieces (omega arith)
    ∙ lookup-insert_other chunks chunk_id j piece (λ e. omega arith)

module _ (storage : Receive.Storage) (path : List ℕ)
    (takes : (bytes : List ℕ) → length bytes ≤ storage.accepts path bytes) where
  write_chunks-turn :
      (chunks : Map (List ℕ)) (chunk_id n : ℕ) (written piece : List ℕ)
      → lookup chunks chunk_id ≡ some piece
      → Receive.write_chunks storage path chunks chunk_id (suc n) written
        ≡ Receive.write_chunks storage path chunks (chunk_id + 1) n (written ++ piece)
  unfolding Receive.write_chunks
  write_chunks-turn chunks chunk_id n written piece e =
      let full = le→ltb (storage.accepts path piece) (length piece) (takes piece) in
      ground (arith, e, full)

  pub write_chunks-insert_all :
      (pieces : List (List ℕ)) (chunks : Map (List ℕ)) (chunk_id : ℕ) (written : List ℕ)
      → Receive.write_chunks storage path
          (insert_all chunks chunk_id pieces)
          chunk_id
          (length pieces)
          written
        ≡ (ok tt, written ++ concat pieces)
  unfolding Receive.write_chunks
  write_chunks-insert_all [] chunks chunk_id written =
      ap (λ w. (ok tt, w)) (sym (append-nil written))
  write_chunks-insert_all (piece ∷ pieces) chunks chunk_id written =
      let first : lookup (insert_all chunks chunk_id (piece ∷ pieces)) chunk_id ≡ some piece =
        insert_all-earlier (insert chunks chunk_id piece) (chunk_id + 1) chunk_id pieces
          (omega arith)
        ∙ lookup-insert chunks chunk_id piece in
      write_chunks-turn _ chunk_id (length pieces) written piece first
      ∙ write_chunks-insert_all pieces (insert chunks chunk_id piece) (chunk_id + 1) _
      ∙ ap (λ w. (ok tt, w)) (append_assoc written piece _)
