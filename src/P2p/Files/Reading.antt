-- ===== src/P2p/Files/Reading.antt =====
-- The loops over a file end, however much each read returns.
use cryprq.Base.{
  ℕ, zero, suc, ◌+◌, ◌%◌, ◌^◌, ◌<◌, min, List, [], ◌∷◌, ◌++◌, length, take, drop, ◌==◌,
}
use cryprq.Base.{◌≡◌, ◌≢◌, arith, Bool-cases, true, false}
use cryprq.Base.{length-take, length-drop}
use cryprq.Base.{Option, none, some, Option-cases, inl, inr, ok, err, panicked, Bool}
use cryprq.Base.{if◌then◌else◌}
use cryprq.P2p.Packets.{serialize_chunk}
use cryprq.P2p.Files

module _ (read : List ℕ → Option ℕ) where
  -- A read that returns something leaves less.
  shorter :
      (n : ℕ) (rest : List ℕ)
      → (length (take n rest) == 0) ≡ false
      → length (drop n rest) < length rest
  shorter n rest some_read =
      let cut = length-take n rest in let left = length-drop n rest in ground arith

  -- One turn of each loop.
  send_chunks-failed :
      (fuel chunk_id : ℕ) (rest : List ℕ)
      → read rest ≡ none
      → Files.send_chunks read (suc fuel) chunk_id rest ≡ ([], err Files.read_failed)
  unfolding Files.send_chunks
  send_chunks-failed fuel chunk_id rest e = ground (arith, e)

  pub send_chunks-turn :
      (fuel chunk_id n : ℕ) (rest : List ℕ)
      → read rest ≡ some n
      → Files.send_chunks read (suc fuel) chunk_id rest ≡ (
          let buffer = take (min n Files.chunk_size) rest in
          let (packets, result) =
            Files.send_chunks read fuel
              ((chunk_id + 1) % 2 ^ 32)
              (drop (min n Files.chunk_size) rest) in
          if length buffer == 0
          then ([], ok tt)
          else (serialize_chunk (record { chunk_id = chunk_id; data' = buffer }) ∷ packets, result))
  unfolding Files.send_chunks
  send_chunks-turn fuel chunk_id n rest e = ground (arith, e)

  pub hash_loop-failed :
      (fuel : ℕ) (hashed rest : List ℕ)
      → read rest ≡ none
      → Files.hash_loop read (suc fuel) hashed rest ≡ err Files.read_failed
  unfolding Files.hash_loop
  hash_loop-failed fuel hashed rest e = ground (arith, e)

  pub hash_loop-turn :
      (fuel n : ℕ) (hashed rest : List ℕ)
      → read rest ≡ some n
      → Files.hash_loop read (suc fuel) hashed rest ≡ (
          let buffer = take (min n Files.chunk_size) rest in
          if length buffer == 0
          then ok hashed
          else Files.hash_loop read fuel (hashed ++ buffer) (drop (min n Files.chunk_size) rest))
  unfolding Files.hash_loop
  hash_loop-turn fuel n hashed rest e = ground (arith, e)

  -- The loop over the chunks ends by itself, with more fuel than the bytes that are left, however
  -- many bytes each read returns.
  send_chunks-ends :
      (fuel chunk_id : ℕ) (rest : List ℕ)
      → length rest < fuel
      → (Files.send_chunks read fuel chunk_id rest).1 ≢ err Files.unfinished
  unfolding Files.send_chunks
  send_chunks-ends zero chunk_id rest h = absurd (omega arith)
  send_chunks-ends (suc fuel) chunk_id rest h = elim (Option-cases (read rest)) [
    | inl e ↦ rw (send_chunks-failed fuel chunk_id rest e) (λ x. cc)
    | inr (n, e) ↦ elim (Bool-cases (length (take (min n Files.chunk_size) rest) == 0)) [
      | inl done ↦ rw (send_chunks-turn fuel chunk_id n rest e, done) (λ x. cc)
      | inr goes_on ↦
          let less = shorter (min n Files.chunk_size) rest goes_on in
          rw (send_chunks-turn fuel chunk_id n rest e, goes_on)
            (send_chunks-ends fuel ((chunk_id + 1) % 2 ^ 32) (drop (min n Files.chunk_size) rest)
              (omega arith))
    ]
  ]

  hash_loop-ends :
      (fuel : ℕ) (hashed rest : List ℕ)
      → length rest < fuel
      → Files.hash_loop read fuel hashed rest ≢ err Files.unfinished
  unfolding Files.hash_loop
  hash_loop-ends zero hashed rest h = absurd (omega arith)
  hash_loop-ends (suc fuel) hashed rest h = elim (Option-cases (read rest)) [
    | inl e ↦ rw (hash_loop-failed fuel hashed rest e) (λ x. cc)
    | inr (n, e) ↦ elim (Bool-cases (length (take (min n Files.chunk_size) rest) == 0)) [
      | inl done ↦ rw (hash_loop-turn fuel n hashed rest e, done) (λ x. cc)
      | inr goes_on ↦
          let less = shorter (min n Files.chunk_size) rest goes_on in
          rw (hash_loop-turn fuel n hashed rest e, goes_on)
            (hash_loop-ends fuel _ (drop (min n Files.chunk_size) rest) (omega arith))
    ]
  ]

  hash_loop-not-panicked :
      (fuel : ℕ) (hashed rest : List ℕ) → Files.hash_loop read fuel hashed rest ≢ panicked
  unfolding Files.hash_loop
  hash_loop-not-panicked zero hashed rest = λ x. cc
  hash_loop-not-panicked (suc fuel) hashed rest = elim (Option-cases (read rest)) [
    | inl e ↦ rw (hash_loop-failed fuel hashed rest e) (λ x. cc)
    | inr (n, e) ↦ elim (Bool-cases (length (take (min n Files.chunk_size) rest) == 0)) [
      | inl done ↦ rw (hash_loop-turn fuel n hashed rest e, done) (λ x. cc)
      | inr goes_on ↦
          rw (hash_loop-turn fuel n hashed rest e, goes_on)
            (hash_loop-not-panicked fuel _ (drop (min n Files.chunk_size) rest))
    ]
  ]

  pub calculate_file_hash-not-panicked :
      (sha256 : List ℕ → List ℕ) (can_open : Bool) (content : List ℕ)
      → Files.calculate_file_hash sha256 read can_open content ≢ panicked
  unfolding Files.calculate_file_hash
  calculate_file_hash-not-panicked sha256 false content x = cc
  calculate_file_hash-not-panicked sha256 true content x =
      let safe = hash_loop-not-panicked (suc (length content)) [] content in ground (arith, safe)
