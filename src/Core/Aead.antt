-- ===== src/Core/Aead.antt =====
-- The AEAD that the record layer calls, `ChaCha20Poly1305` of the crate chacha20poly1305: an
-- interface of two operations, with the documented behaviour that the sources rely on.
use cryprq.Base.{ℕ, ◌+◌, ◌≤◌, ◌≡◌, List, length, Option, some}
use cryprq.Base.Bytes.{IsBytes}

-- Each takes the key, the nonce, the associated data and the text; `none` is the crate's error.
pub record Aead : Type 0 where
  pub seal : List ℕ → List ℕ → List ℕ → List ℕ → Option (List ℕ)
  pub unseal : List ℕ → List ℕ → List ℕ → List ℕ → Option (List ℕ)

abbrev pub tag_size : ℕ
tag_size = 16

-- The longest plaintext of ChaCha20-Poly1305 (RFC 8439): 2 ^ 32 - 1 blocks of 64 bytes.
abbrev pub plaintext_limit : ℕ
plaintext_limit = 274877906880

-- Every plaintext within the limit is sealed. What was sealed is unsealed under the same key, nonce and associated data; the ciphertext is the
-- plaintext's length and a tag of 16 bytes, and it consists of bytes.
pub record IsAead (a : Aead) : Type 0 where
  pub seal-some :
      (key nonce aad msg : List ℕ)
      → length msg ≤ plaintext_limit
      → (ct : List ℕ) × (a.seal key nonce aad msg ≡ some ct)
  pub unseal-seal :
      (key nonce aad msg ct : List ℕ)
      → a.seal key nonce aad msg ≡ some ct
      → a.unseal key nonce aad ct ≡ some msg
  pub length-seal :
      (key nonce aad msg ct : List ℕ)
      → a.seal key nonce aad msg ≡ some ct
      → length ct ≡ length msg + tag_size
  pub seal-IsBytes :
      (key nonce aad msg ct : List ℕ)
      → IsBytes msg
      → a.seal key nonce aad msg ≡ some ct
      → IsBytes ct
