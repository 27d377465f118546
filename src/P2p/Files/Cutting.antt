-- ===== src/P2p/Files/Cutting.antt =====
-- Where each read fills the buffer, the file is sent in pieces of the chunk size.
use cryprq.Base.{
  ℕ, zero, suc, ◌+◌, ◌/◌, ◌%◌, ◌^◌, ◌<◌, ◌≤◌, min, List, [], ◌∷◌, ◌++◌, length, take, drop, ◌==◌,
}
use cryprq.Base.{◌≡◌, refl, sym, ap, ◌∙◌, arith, Bool-cases, true, false, leb}
use cryprq.Base.{length-take, length-drop, take-append-drop, take-length, drop-length, take-nil}
use cryprq.Base.{Option, some, inl, inr, ok}
use mathlib.Core.List.{append_assoc, append-nil}
use cryprq.Base.{All}
use cryprq.Node.FileTransfer.{serialize}
use cryprq.P2p.Packets.{serialize_chunk, create_end_packet}
use cryprq.P2p.Files
use cryprq.P2p.Files.Reading.{send_chunks-turn, hash_loop-turn}

-- Each read returns all that is left, or at least as much as the buffer takes.
abbrev pub Fills : (List ℕ → Option ℕ) → Type 0
Fills read =
    (rest : List ℕ) → (n : ℕ) × (read rest ≡ some n) × (min Files.chunk_size (length rest) ≤ n)

-- The pieces of a file; the fuel is more than its length.
abbrev pub cut : ℕ → ℕ → List ℕ → List (List ℕ)
cut c zero rest = []
cut c (suc fuel) [] = []
cut c (suc fuel) (x ∷ xs) = take c (x ∷ xs) ∷ cut c fuel (drop c (x ∷ xs))

-- The packets of the pieces, numbered from an index on.
abbrev pub chunk_packets : ℕ → List (List ℕ) → List (List ℕ)
chunk_packets chunk_id [] = []
chunk_packets chunk_id (piece ∷ pieces) =
    serialize_chunk (record { chunk_id = chunk_id; data' = piece })
    ∷ chunk_packets (chunk_id + 1) pieces

abbrev pub concat : List (List ℕ) → List ℕ
concat [] = []
concat (piece ∷ pieces) = piece ++ concat pieces

-- A read that fills the buffer takes a whole piece.
full_take :
    (n c : ℕ) (xs : List ℕ)
    → min c (length xs) ≤ n
    → (take (min n c) xs ≡ take c xs) × (drop (min n c) xs ≡ drop c xs)
full_take n c xs h = elim (Bool-cases (leb c n)) [
  | inl more ↦
      let e : min n c ≡ c = ground arith in
      (ap (λ (k : ℕ). take k xs) e, ap (λ (k : ℕ). drop k xs) e)
  | inr less ↦
      let e : min n c ≡ n = ground arith in
      let short : length xs ≤ n = ground arith in
      let short' : length xs ≤ c = ground arith in
      (
        ap (λ (k : ℕ). take k xs) e ∙ take-length n xs short ∙ sym (take-length c xs short'),
        ap (λ (k : ℕ). drop k xs) e ∙ drop-length n xs short ∙ sym (drop-length c xs short'),
      )
]

nonempty : (c : ℕ) (x : ℕ) (xs : List ℕ) → 0 < c → (length (take c (x ∷ xs)) == 0) ≡ false
nonempty c x xs h = let e = length-take c (x ∷ xs) in ground arith

pub concat-cut :
    (c fuel : ℕ) (rest : List ℕ) → 0 < c → length rest < fuel → concat (cut c fuel rest) ≡ rest
concat-cut c zero rest pos h = absurd (omega arith)
concat-cut c (suc fuel) [] pos h = refl
concat-cut c (suc fuel) (x ∷ xs) pos h =
    ap (λ t. take c (x ∷ xs) ++ t)
      (concat-cut c fuel (drop c (x ∷ xs)) pos (omega (arith, length-drop c (x ∷ xs))))
    ∙ take-append-drop c (x ∷ xs)

-- How many pieces there are: `div_ceil`.
pub length-cut :
    (fuel : ℕ) (rest : List ℕ)
    → length rest < fuel
    → length (cut Files.chunk_size fuel rest) ≡ (length rest + 65535) / 65536
length-cut zero rest h = absurd (omega arith)
length-cut (suc fuel) [] h = omega arith
length-cut (suc fuel) (x ∷ xs) h =
    let left = length-drop Files.chunk_size (x ∷ xs) in
    let ih = length-cut fuel (drop Files.chunk_size (x ∷ xs)) (omega arith) in omega arith

pub cut-short :
    (c fuel : ℕ) (rest : List ℕ) → All (λ (piece : List ℕ). length piece ≤ c) (cut c fuel rest)
cut-short c zero rest = tt
cut-short c (suc fuel) [] = tt
cut-short c (suc fuel) (x ∷ xs) =
    (omega (arith, length-take c (x ∷ xs)), cut-short c fuel (drop c (x ∷ xs)))

module _ (read : List ℕ → Option ℕ) (fills : Fills read) where
  send_chunks-cut :
      (fuel chunk_id : ℕ) (rest : List ℕ)
      → length rest < fuel
      → chunk_id + length (cut Files.chunk_size fuel rest) < 2 ^ 32
      → Files.send_chunks read fuel chunk_id rest
        ≡ (chunk_packets chunk_id (cut Files.chunk_size fuel rest), ok tt)
  send_chunks-cut zero chunk_id rest h few = absurd (omega arith)
  send_chunks-cut (suc fuel) chunk_id [] h few =
      let (n, e, full) = fills [] in
      send_chunks-turn read fuel chunk_id n [] e ∙ rw (take-nil (min n Files.chunk_size)) refl
  send_chunks-cut (suc fuel) chunk_id (x ∷ xs) h few =
      let (n, e, full) = fills (x ∷ xs) in
      let (taken, left) = full_take n Files.chunk_size (x ∷ xs) full in
      let short : length (drop Files.chunk_size (x ∷ xs)) < fuel =
        omega (arith, length-drop Files.chunk_size (x ∷ xs)) in
      let next : (chunk_id + 1) % 2 ^ 32 ≡ chunk_id + 1 = omega arith in
      send_chunks-turn read fuel chunk_id n (x ∷ xs) e
      ∙ rw
          (
            taken,
            left,
            next,
            nonempty Files.chunk_size x xs (omega arith),
            send_chunks-cut fuel (chunk_id + 1) (drop Files.chunk_size (x ∷ xs)) short
                (omega arith),
          )
          refl

  hash_loop-cut :
      (fuel : ℕ) (hashed rest : List ℕ)
      → length rest < fuel
      → Files.hash_loop read fuel hashed rest
        ≡ ok (hashed ++ concat (cut Files.chunk_size fuel rest))
  hash_loop-cut zero hashed rest h = absurd (omega arith)
  hash_loop-cut (suc fuel) hashed [] h =
      let (n, e, full) = fills [] in
      hash_loop-turn read fuel n hashed [] e
      ∙ rw (take-nil (min n Files.chunk_size)) (ap ok (sym (append-nil hashed)))
  hash_loop-cut (suc fuel) hashed (x ∷ xs) h =
      let (n, e, full) = fills (x ∷ xs) in
      let (taken, left) = full_take n Files.chunk_size (x ∷ xs) full in
      let short : length (drop Files.chunk_size (x ∷ xs)) < fuel =
        omega (arith, length-drop Files.chunk_size (x ∷ xs)) in
      hash_loop-turn read fuel n hashed (x ∷ xs) e
      ∙ rw (taken, left, nonempty Files.chunk_size x xs (omega arith))
          (hash_loop-cut fuel _ (drop Files.chunk_size (x ∷ xs)) short
            ∙ ap ok (append_assoc hashed _ _))

  -- The hash is taken of the whole file.
  pub hash_loop-whole :
      (content : List ℕ) → Files.hash_loop read (suc (length content)) [] content ≡ ok content
  hash_loop-whole content =
      hash_loop-cut (suc (length content)) [] content (omega arith)
      ∙ ap ok
          (concat-cut Files.chunk_size (suc (length content)) content (omega arith) (omega arith))

  pub calculate_file_hash_lem :
      (sha256 : List ℕ → List ℕ) (content : List ℕ)
      → Files.calculate_file_hash sha256 read true content ≡ ok (sha256 content)
  unfolding Files.calculate_file_hash
  calculate_file_hash_lem sha256 content = rw (hash_loop-whole content) refl

  -- The packets of a file with a name, and fewer than 2 ^ 32 pieces.
  pub send_file_to_peer-cut :
      (sha256 : List ℕ → List ℕ) (filename content : List ℕ)
      → length (cut Files.chunk_size (suc (length content)) content) < 2 ^ 32
      → Files.send_file_to_peer sha256 read (record {
        file_name = some filename;
        content = content;
        can_open = true;
        can_stat = true;
      })
        ≡ (
          serialize (record { filename = filename; size = length content; hash = sha256 content })
              ∷ (chunk_packets 0 (cut Files.chunk_size (suc (length content)) content)
                  ++ (create_end_packet ∷ [])),
          ok tt,
        )
  unfolding Files.send_file_to_peer Files.describe Files.send_content
  send_file_to_peer-cut sha256 filename content few =
      let hashed = calculate_file_hash_lem sha256 content in
      let sent = send_chunks-cut (suc (length content)) 0 content (omega arith) (omega arith) in
      ground (arith, hashed, sent)
