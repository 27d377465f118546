-- ===== src/Node/CryptoUtils.antt =====
-- node/src/crypto_utils.rs: the epoch and the nonce of a record.
use cryprq.Base.{ℕ, zero, suc, ◌+◌, ◌%◌, ◌<◌, ◌≡◌, refl, arith, List}
use cryprq.Base.Bytes.{to_be_bytes}
use cryprq.Core.Nonce.{xor_loop, record_nonce}

-- `Epoch`: its byte.
pub record Epoch : Type 0 where
  pub value : ℕ

abbrev pub initial : Epoch
initial = record { value = 0 }

unfoldable pub next : Epoch → Epoch
next e = record { value = (e.value + 1) % 256 }

unfoldable pub make_nonce : List ℕ → ℕ → List ℕ
make_nonce static_iv seq = let seq_be = to_be_bytes 8 seq in xor_loop 8 0 seq_be static_iv

-- The node and the record layer build the same nonce.
pub make_nonce-eq-record_nonce : make_nonce ≡ record_nonce
unfolding make_nonce record_nonce
make_nonce-eq-record_nonce = refl

-- `next` repeated.
unfoldable pub next_times : ℕ → Epoch → Epoch
next_times zero e = e
next_times (suc n) e = next (next_times n e)

-- After a number of rotations an epoch of one byte is as many further on, modulo 256.
pub value-next_times :
    (n : ℕ) (e : Epoch) → e.value < 256 → (next_times n e).value ≡ (e.value + n) % 256
unfolding next_times next
value-next_times zero e h = omega arith
value-next_times (suc n) e h = omega (arith, value-next_times n e h)
