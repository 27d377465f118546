-- ===== src/Crypto/Zkp.antt =====
-- crypto/src/zkp.rs: a commitment to a secret, and what its verification compares.
use cryprq.Base.{ℕ, List, ◌++◌, length, take, take-append, Bool, true, bytes_eq}
use cryprq.Base.{bytes_eq→eq, bytes_eq_self, ◌≡◌, ◌↔◌, sym, ap, ◌∙◌, subst}

pub record ZkProof : Type 0 where
  pub commitment : List ℕ
  pub response : List ℕ

-- `blake3` is the hash of the crate blake3 over all bytes of its updates.
unfoldable pub generate_proof : (List ℕ → List ℕ) → List ℕ → List ℕ → ZkProof
generate_proof blake3 secret challenge =
    let commitment = blake3 (secret ++ challenge) in
    record { commitment = commitment; response = blake3 (commitment ++ secret) }

unfoldable pub verify_proof : (List ℕ → List ℕ) → ZkProof → List ℕ → List ℕ → Bool
verify_proof blake3 proof challenge public_info =
    bytes_eq proof.commitment (blake3 (public_info ++ challenge))

-- A proof of a secret of 32 bytes is accepted for public information of 32 bytes just if the two
-- are equal, where the hash tells the two inputs apart.
pub verify_proof-generate_proof :
    (blake3 : List ℕ → List ℕ) (secret challenge public_info : List ℕ)
    → length secret ≡ 32
    → length public_info ≡ 32
    → (blake3 (secret ++ challenge) ≡ blake3 (public_info ++ challenge)
        → secret ++ challenge ≡ public_info ++ challenge)
    → (verify_proof blake3 (generate_proof blake3 secret challenge) challenge public_info ≡ true)
      ↔ (secret ≡ public_info)
unfolding verify_proof generate_proof
verify_proof-generate_proof blake3 secret challenge public_info h k apart = (
  λ e.
      sym (take-append 32 secret challenge h)
      ∙ ap (take 32) (apart (bytes_eq→eq _ _ e))
      ∙ take-append 32 public_info challenge k,
  λ e.
      subst
        (λ (p : List ℕ). bytes_eq (blake3 (secret ++ challenge)) (blake3 (p ++ challenge)) ≡ true) e
        (bytes_eq_self (blake3 (secret ++ challenge))),
)
