-- ===== src/Crypto/Ppk.antt =====
-- crypto/src/ppk.rs: post-quantum pre-shared keys and their store.
pub mod Store
use cryprq.Base.{ℕ, ◌+◌, ◌-◌, ◌%◌, ◌^◌, List, [], ◌∷◌, ◌++◌, take, leb, bytes_eq, not, ◌&&◌}
use cryprq.Base.{Bool, Option, none, some, if◌then◌else◌}

pub record PostQuantumPsk : Type 0 where
  pub key : List ℕ
  pub peer_id : List ℕ
  pub created_at : ℕ
  pub expires_at : ℕ

-- `derive` over the hash BLAKE3 of the crate blake3. The sum of the two times is of type u64, which
-- wraps in a release build.
unfoldable pub derive : (List ℕ → List ℕ) → List ℕ → List ℕ → List ℕ → ℕ → ℕ → PostQuantumPsk
derive blake3 kyber_shared peer_id salt rotation_interval_secs current_timestamp_secs = record {
  key = take 32 (blake3 ((kyber_shared ++ peer_id) ++ salt));
  peer_id = peer_id;
  created_at = current_timestamp_secs;
  expires_at = (current_timestamp_secs + rotation_interval_secs) % 2 ^ 64;
}

unfoldable pub is_expired_at : PostQuantumPsk → ℕ → Bool
is_expired_at p current_timestamp_secs = leb p.expires_at current_timestamp_secs

unfoldable pub expires_in_at : PostQuantumPsk → ℕ → ℕ
expires_in_at p current_timestamp_secs =
    if leb p.expires_at current_timestamp_secs then 0 else p.expires_at - current_timestamp_secs

-- `Vec::retain`
unfoldable pub retain {ℓ} : {A : Type ℓ} → (A → Bool) → List A → List A
retain keep [] = []
retain keep (x ∷ xs) = if keep x then x ∷ retain keep xs else retain keep xs

-- `Iterator::find`
unfoldable pub find {ℓ} : {A : Type ℓ} → (A → Bool) → List A → Option A
find test [] = none
find test (x ∷ xs) = if test x then some x else find test xs

-- `PPKStore`: the vector `ppks`.
abbrev pub PpkStore : Type 0
PpkStore = List PostQuantumPsk

unfoldable pub store : PpkStore → PostQuantumPsk → PpkStore
store ppks ppk = retain (λ p. not (bytes_eq p.peer_id ppk.peer_id)) ppks ++ (ppk ∷ [])

unfoldable pub get : PpkStore → List ℕ → ℕ → Option PostQuantumPsk
get ppks peer_id current_timestamp_secs =
    find (λ p. bytes_eq p.peer_id peer_id && not (is_expired_at p current_timestamp_secs)) ppks

unfoldable pub cleanup_expired : PpkStore → ℕ → PpkStore
cleanup_expired ppks current_timestamp_secs =
    retain (λ p. not (is_expired_at p current_timestamp_secs)) ppks

unfoldable pub remove_peer : PpkStore → List ℕ → PpkStore
remove_peer ppks peer_id = retain (λ p. not (bytes_eq p.peer_id peer_id)) ppks
