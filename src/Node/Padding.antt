-- ===== src/Node/Padding.antt =====
-- node/src/padding.rs: padding of packets.
use cryprq.Base.{ℕ, zero, suc, ◌+◌, ◌-◌, ◌≤◌, ◌≡◌, refl, ap, arith, max}
use cryprq.Base.{
  List, [], ◌∷◌, ◌++◌, length, take, take-append, take-length, length-append, ltb, leb,
  if◌then◌else◌,
}

pub record PaddingConfig : Type 0 where
  pub min_packet_size : ℕ
  pub max_packet_size : ℕ
  pub target_packet_size : ℕ

-- The bytes that the random generator gives next: the `i`-th is `rng i`.
unfoldable pub random_bytes : (ℕ → ℕ) → ℕ → List ℕ
random_bytes rng zero = []
random_bytes rng (suc n) = rng 0 ∷ random_bytes (λ i. rng (i + 1)) n

unfoldable pub pad_packet : (ℕ → ℕ) → List ℕ → PaddingConfig → List ℕ
pad_packet rng data' config =
    let current_size = length data' in
    if leb config.target_packet_size current_size
    then if ltb config.max_packet_size current_size
      then take config.max_packet_size data'
      else data'
    else data' ++ random_bytes rng (config.target_packet_size - current_size)

unfoldable pub unpad_packet : List ℕ → ℕ → List ℕ
unpad_packet padded original_len =
    if ltb (length padded) original_len then padded else take original_len padded

length-random_bytes : (rng : ℕ → ℕ) (n : ℕ) → length (random_bytes rng n) ≡ n
unfolding random_bytes
length-random_bytes rng zero = refl
length-random_bytes rng (suc n) = ap suc (length-random_bytes (λ i. rng (i + 1)) n)

-- A packet within the maximum is padded to the target size at least, and its length gives it
-- back.
unpad_packet-pad_packet :
    (rng : ℕ → ℕ) (packet : List ℕ) (config : PaddingConfig)
    → length packet ≤ config.max_packet_size
    → (length (pad_packet rng packet config) ≡ max (length packet) config.target_packet_size)
      × (unpad_packet (pad_packet rng packet config) (length packet) ≡ packet)
unfolding pad_packet unpad_packet
unpad_packet-pad_packet rng packet config fits =
    let missing = config.target_packet_size - length packet in
    let whole = length-append packet (random_bytes rng missing) in
    let added = length-random_bytes rng missing in
    let front = take-append (length packet) packet (random_bytes rng missing) refl in
    let all = take-length (length packet) packet (omega arith) in (ground arith, ground arith)
