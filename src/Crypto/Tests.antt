-- ===== src/Crypto/Tests.antt =====
-- The theorems on keys and their store at concrete inputs.
use cryprq.Base.{replicate, true, ◌↔◌}
use cryprq.Crypto.Zkp.{verify_proof, generate_proof, verify_proof-generate_proof}
use cryprq.Base.{ℕ, ◌≡◌, ◌≢◌, refl, ap, arith, List, [], ◌∷◌, replicate, get_or}
use cryprq.Base.{some}
use cryprq.Crypto.Ppk.{PostQuantumPsk, get, find, is_expired_at}

abbrev alice : List ℕ
alice = 2 ∷ 2 ∷ []

abbrev bob : List ℕ
bob = 3 ∷ 3 ∷ []

abbrev alice_key : PostQuantumPsk
alice_key = record { key = 5 ∷ []; peer_id = alice; created_at = 10; expires_at = 40 }

abbrev blake3 : List ℕ → List ℕ
blake3 = λ input. input

alice-bob : alice ≢ bob
alice-bob e =
    let differs : get_or alice 0 0 ≡ get_or bob 0 0 = ap (λ l. get_or l 0 0) e in omega arith

found : get (alice_key ∷ []) alice 20 ≡ some alice_key
unfolding get find is_expired_at
found = refl

abbrev ones : List ℕ
ones = replicate 32 1

abbrev threes : List ℕ
threes = replicate 32 3

verify_proof-generate_proof_example :
    (verify_proof (λ bytes. bytes) (generate_proof (λ bytes. bytes) ones (2 ∷ [])) (2 ∷ []) threes
      ≡ true)
    ↔ (ones ≡ threes)
verify_proof-generate_proof_example =
    verify_proof-generate_proof (λ bytes. bytes) ones (2 ∷ []) threes refl refl (λ same. same)
