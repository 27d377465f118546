-- ===== src/Crypto/Kdf/Lengths.antt =====
-- The derivations give keys of the lengths asked for, and do not panic.
use cryprq.Base.{ℕ, ◌≤◌, ◌*◌, ◌≡◌, arith, List, ◌++◌, length, some, ok}
use cryprq.Crypto.Kdf.{
  Hkdf, TrafficKeys, derive_epoch_keys, derive_traffic_keys, expand_four, derive_handshake_keys,
}
use cryprq.Crypto.Kdf.{salt_hs, label_hs_auth, label_master_secret}

-- HKDF-SHA256 gives any output of at most 255 blocks of 32 bytes, of the length asked for.
pub record IsHkdf (h : Hkdf) : Type 0 where
  pub expands :
      (prk info : List ℕ) (len : ℕ)
      → len ≤ 255 * 32
      → (okm : List ℕ) × (h.expand prk info len ≡ some okm) × (length okm ≡ len)

-- Four outputs of the two lengths.
abbrev pub HasLengths : ℕ → ℕ → TrafficKeys → Type 0
HasLengths key_len iv_len t =
    (length t.key_ir ≡ key_len)
    × ((length t.iv_ir ≡ iv_len) × ((length t.key_ri ≡ key_len) × (length t.iv_ri ≡ iv_len)))

module _ (h : Hkdf) (laws : IsHkdf h) where
  -- For lengths within the limit of HKDF the `expect`s never fail.
  expand_four_ok :
      {E : Type 0} (prk a b c d : List ℕ) (key_len iv_len : ℕ)
      → key_len ≤ 255 * 32
      → iv_len ≤ 255 * 32
      → (t : TrafficKeys) × (expand_four h {E = E} prk a b c d key_len iv_len ≡ ok t)
        × HasLengths key_len iv_len t
  unfolding expand_four
  expand_four_ok prk a b c d key_len iv_len hk hv =
      let (ka, ea, la) = laws.expands prk a key_len hk in
      let (vb, eb, lb) = laws.expands prk b iv_len hv in
      let (kc, ec, lc) = laws.expands prk c key_len hk in
      let (vd, ed, ld) = laws.expands prk d iv_len hv in
      (
        record { key_ir = ka; iv_ir = vb; key_ri = kc; iv_ri = vd },
        ground (arith, ea, eb, ec, ed),
        (la, (lb, (lc, ld))),
      )

  -- Over HKDF with its documented behaviour the four keys of an epoch are derived without a panic
  -- and have the lengths asked for, up to 8160 bytes.
  pub derive_epoch_keys_lem :
      {E : Type 0} (master_secret : List ℕ) (epoch key_len iv_len : ℕ)
      → key_len ≤ 255 * 32
      → iv_len ≤ 255 * 32
      → (t : TrafficKeys) × (derive_epoch_keys h {E = E} master_secret epoch key_len iv_len ≡ ok t)
        × HasLengths key_len iv_len t
  unfolding derive_epoch_keys
  derive_epoch_keys_lem ms epoch key_len iv_len hk hv = expand_four_ok _ _ _ _ _ _ _ hk hv

  derive_traffic_keys_lem :
      {E : Type 0} (master_secret : List ℕ) (key_len iv_len : ℕ)
      → key_len ≤ 255 * 32
      → iv_len ≤ 255 * 32
      → (t : TrafficKeys) × (derive_traffic_keys h {E = E} master_secret key_len iv_len ≡ ok t)
        × HasLengths key_len iv_len t
  unfolding derive_traffic_keys
  derive_traffic_keys_lem ms key_len iv_len hk hv = expand_four_ok _ _ _ _ _ _ _ hk hv

  -- Over HKDF with its documented behaviour the two handshake keys are derived without a panic
  -- and have 32 bytes each.
  pub derive_handshake_keys_lem :
      {E : Type 0} (ss_kem ss_x : List ℕ)
      → (auth master : List ℕ) × (derive_handshake_keys h {E = E} ss_kem ss_x ≡ ok (auth, master))
        × (length auth ≡ 32)
        × (length master ≡ 32)
  unfolding derive_handshake_keys
  derive_handshake_keys_lem ss_kem ss_x =
      let (a, ea, la) =
        laws.expands (h.extract (some salt_hs) (ss_kem ++ ss_x)) label_hs_auth 32 (omega arith) in
      let (b, eb, lb) =
        laws.expands (h.extract (some salt_hs) (ss_kem ++ ss_x)) label_master_secret 32
          (omega arith) in
      (a, b, ground (arith, ea, eb), la, lb)
