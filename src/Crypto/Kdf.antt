-- ===== src/Crypto/Kdf.antt =====
-- crypto/src/kdf.rs: the key schedule over HKDF-SHA256.
pub mod Lengths
use cryprq.Base.{ℕ, List, [], ◌∷◌, ◌++◌, Option, none, some, Outcome, ok, panicked, ◌>>=◌}
use cryprq.Base.Bytes.{bytes_of}

-- `Hkdf::<Sha256>` of the crate hkdf: `extract` with an optional salt gives the pseudorandom key,
-- and `expand` fills a buffer of the given length, or is refused.
pub record Hkdf : Type 0 where
  pub extract : Option (List ℕ) → List ℕ → List ℕ
  pub expand : List ℕ → List ℕ → ℕ → Option (List ℕ)

abbrev pub salt_hs : List ℕ
salt_hs = bytes_of "cryp-rq v1.0 hs"

abbrev pub label_hs_auth : List ℕ
label_hs_auth = bytes_of "cryp-rq hs auth"

abbrev pub label_master_secret : List ℕ
label_master_secret = bytes_of "cryp-rq master secret"

abbrev pub label_ir_key : List ℕ
label_ir_key = bytes_of "cryp-rq ir key"

abbrev pub label_ir_iv : List ℕ
label_ir_iv = bytes_of "cryp-rq ir iv"

abbrev pub label_ri_key : List ℕ
label_ri_key = bytes_of "cryp-rq ri key"

abbrev pub label_ri_iv : List ℕ
label_ri_iv = bytes_of "cryp-rq ri iv"

-- `(key_ir, iv_ir, key_ri, iv_ri)`
pub record TrafficKeys : Type 0 where
  pub key_ir : List ℕ
  pub iv_ir : List ℕ
  pub key_ri : List ℕ
  pub iv_ri : List ℕ

-- A label, `b" epoch="` and the epoch's byte.
unfoldable pub epoch_label : List ℕ → ℕ → List ℕ
epoch_label label epoch = (label ++ bytes_of " epoch=") ++ (epoch ∷ [])

module _ (hkdf : Hkdf) where
  -- `hk.expand(…).expect(…)`
  abbrev pub expand_expect : {E : Type 0} → List ℕ → List ℕ → ℕ → Outcome E (List ℕ)
  expand_expect prk info len = elim (hkdf.expand prk info len) [
    | none ↦ panicked
    | some okm ↦ ok okm
  ]

  -- `derive_handshake_keys`: `(hs_auth_key, master_secret)`.
  unfoldable pub derive_handshake_keys :
      {E : Type 0} → List ℕ → List ℕ → Outcome E (List ℕ × List ℕ)
  derive_handshake_keys ss_kem ss_x = do
    let prk = hkdf.extract (some salt_hs) (ss_kem ++ ss_x)
    hs_auth_key ← expand_expect prk label_hs_auth 32
    master_secret ← expand_expect prk label_master_secret 32
    ok (hs_auth_key, master_secret)

  -- The four expansions under the four labels.
  unfoldable pub expand_four :
      {E : Type 0} → List ℕ → List ℕ → List ℕ → List ℕ → List ℕ → ℕ → ℕ → Outcome E TrafficKeys
  expand_four prk ir_key ir_iv ri_key ri_iv key_len iv_len = do
    key_ir ← expand_expect prk ir_key key_len
    iv_ir ← expand_expect prk ir_iv iv_len
    key_ri ← expand_expect prk ri_key key_len
    iv_ri ← expand_expect prk ri_iv iv_len
    ok (record { key_ir = key_ir; iv_ir = iv_ir; key_ri = key_ri; iv_ri = iv_ri })

  unfoldable pub derive_traffic_keys : {E : Type 0} → List ℕ → ℕ → ℕ → Outcome E TrafficKeys
  derive_traffic_keys master_secret key_len iv_len =
      expand_four (hkdf.extract none master_secret) label_ir_key label_ir_iv label_ri_key
        label_ri_iv key_len iv_len

  unfoldable pub derive_epoch_keys : {E : Type 0} → List ℕ → ℕ → ℕ → ℕ → Outcome E TrafficKeys
  derive_epoch_keys master_secret epoch key_len iv_len =
      expand_four (hkdf.extract none master_secret) (epoch_label label_ir_key epoch)
        (epoch_label label_ir_iv epoch) (epoch_label label_ri_key epoch)
        (epoch_label label_ri_iv epoch) key_len iv_len
