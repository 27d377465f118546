-- ===== src/Crypto/Suite.antt =====
-- crypto/src/pqc_suite.rs: the suites of algorithms.
use cryprq.Base.{List, ℕ, Bool, true, false}
use cryprq.Base.Bytes.{bytes_of}

pub data PqcKeyExchange : Type 0 where
  ml_kem_768 ml_kem_1024 x25519_only : PqcKeyExchange

pub data PqcSignature : Type 0 where
  ed25519 dilithium3 sphincs_plus : PqcSignature

pub record PqcSuite : Type 0 where
  pub kex : PqcKeyExchange
  pub sig : PqcSignature

abbrev pub standard : PqcSuite
standard = record { kex = ml_kem_768; sig = ed25519 }

abbrev pub high_security : PqcSuite
high_security = record { kex = ml_kem_1024; sig = dilithium3 }

abbrev pub legacy : PqcSuite
legacy = record { kex = x25519_only; sig = ed25519 }

abbrev pub default_suite : PqcSuite
default_suite = record { kex = ml_kem_768; sig = ed25519 }

unfoldable pub is_post_quantum : PqcSuite → Bool
is_post_quantum suite = elim suite.kex [
  | ml_kem_768 ↦ true
  | ml_kem_1024 ↦ true
  | x25519_only ↦ false
]

abbrev pub kex_name : PqcKeyExchange → List ℕ
kex_name ml_kem_768 = bytes_of "ML-KEM 768"
kex_name ml_kem_1024 = bytes_of "ML-KEM 1024"
kex_name x25519_only = bytes_of "X25519"

abbrev pub sig_name : PqcSignature → List ℕ
sig_name ed25519 = bytes_of "Ed25519"
sig_name dilithium3 = bytes_of "Dilithium3"
sig_name sphincs_plus = bytes_of "SPHINCS+"

unfoldable pub algorithm_names : PqcSuite → List ℕ × List ℕ
algorithm_names suite = (kex_name suite.kex, sig_name suite.sig)
