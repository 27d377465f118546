-- ===== src/Node/Tunnel/Keys.antt =====
-- Who gets a tunnel, and what a key rotation changes.
use cryprq.Base.{ℕ, ◌+◌, ◌-◌, ◌%◌, ◌<◌, ◌^◌, ◌≡◌, ◌≢◌, ◌⊎◌, inl, inr, refl, ap₂, ◌∙◌, subst, arith}
use cryprq.Base.{List, length, take, take-length, get_or, Bool, true, ◌&&◌, not, >>=-eq-ok}
use cryprq.Base.{Option, some, Option-cases, ok, reject_if, Bool-cases}
use mathlib.Core.List.{append-nil}
use cryprq.Crypto.Kdf.{TrafficKeys, derive_epoch_keys}
use cryprq.Crypto.Kdf.Lengths.{IsHkdf, HasLengths, derive_epoch_keys_lem}
use cryprq.Node.Error.{TunnelError}
use cryprq.Node.Externals.{Externals}
use cryprq.Node.CryptoUtils.{next}
use cryprq.Node.SeqCounters
use cryprq.Node.RecordLayer.{DirectionKeys}
use cryprq.Node.Replay.{ReplayWindow, check_and_update, replay_window_size}
use cryprq.Node.Tunnel.{Tunnel, recv_record}
use cryprq.Node.Tunnel.Receive.{datagram_seq, recv_record-WindowEffect}
use cryprq.Node.Tunnel.Setup.{
  create_tunnel, verify_peer_identity, rotate, fit, keys_ir, keys_ri, all_same, is_test_byte,
}

fit_same : (n : ℕ) (xs : List ℕ) → length xs ≡ n → fit n xs ≡ xs
unfolding fit
fit_same n xs h =
    let none_left : n - length xs ≡ 0 = omega arith in
    rw none_left (append-nil (take n xs) ∙ take-length n xs (omega arith))

abbrev pub AreEpochKeys : DirectionKeys → DirectionKeys → TrafficKeys → Type 0
AreEpochKeys outbound inbound k =
    (outbound ≡ record { key = k.key_ir; iv = k.iv_ir })
    × (inbound ≡ record { key = k.key_ri; iv = k.iv_ri })

pub fit_keys : (k : TrafficKeys) → HasLengths 32 12 k → AreEpochKeys (keys_ir k) (keys_ri k) k
fit_keys k (lk, (lv, (lk', lv'))) = (
  ap₂ (λ (a b : List ℕ). let d : DirectionKeys = record { key = a; iv = b } in d)
      (fit_same 32 k.key_ir lk) (fit_same 12 k.iv_ir lv),
  ap₂ (λ (a b : List ℕ). let d : DirectionKeys = record { key = a; iv = b } in d)
      (fit_same 32 k.key_ri lk') (fit_same 12 k.iv_ri lv'),
)

module _ (x : Externals) where
  -- The keys of a test are three byte strings of one repeated byte each, the first of them one of 1 to 4.
  abbrev pub IsTestKey : List ℕ → List ℕ → List ℕ → Type 0
  IsTestKey pk id sig =
      ((all_same pk && all_same id) && all_same sig) && is_test_byte (get_or pk 0 0) ≡ true

  -- The signature on the peer's key verifies under its identity key.
  abbrev pub IsSigned : List ℕ → List ℕ → List ℕ → Type 0
  IsSigned pk id sig = (k : x.VerifyingKey) × (x.parse_key id ≡ some k) × (x.verify k pk sig ≡ true)

  verify_peer_identity-eq-ok :
      (pk id sig : List ℕ)
      → verify_peer_identity x pk id sig ≡ ok tt
      → IsTestKey pk id sig ⊎ IsSigned pk id sig
  unfolding verify_peer_identity
  verify_peer_identity-eq-ok pk id sig e =
      elim (Bool-cases
        (((all_same pk && all_same id) && all_same sig) && is_test_byte (get_or pk 0 0))) [
          | inl test ↦ inl test
          | inr real ↦ elim (Option-cases (x.parse_key id)) [
            | inl bad ↦ absurd (ground arith)
            | inr (k, parsed) ↦ inr (k, parsed, ground arith)
          ]
        ]

  -- A tunnel is created only for a peer whose key carries a signature that verifies under its
  -- identity key, or for a test key.
  pub create_tunnel-verified :
      (bound : Bool) (pk id sig : List ℕ) (now : x.timing.Instant) (dir : Option (List ℕ))
      (t : Tunnel x) (master : List ℕ)
      → create_tunnel x bound pk id sig now dir ≡ ok (t, master)
      → IsTestKey pk id sig ⊎ IsSigned pk id sig
  unfolding create_tunnel
  create_tunnel-verified bound pk id sig now dir t master e =
      let (_, _, rest) = >>=-eq-ok (reject_if (not bound) _) _ e in
      let (_, verified, _) = >>=-eq-ok (verify_peer_identity x pk id sig) _ rest in
      verify_peer_identity-eq-ok pk id sig verified

  -- The keys that a direction has for an epoch.
  abbrev pub HasEpochKeys : Tunnel x → TrafficKeys → Type 0
  HasEpochKeys t k = AreEpochKeys t.keys_outbound t.keys_inbound k

  -- Over HKDF with its documented behaviour a rotation succeeds: the epoch goes on by one modulo
  -- 256, both directions get the keys of 32 and IVs of 12 bytes derived for it, the sequence
  -- numbers start over, and the replay window stays.
  pub rotate_lem :
      IsHkdf x.hkdf
      → (master : List ℕ) (t : Tunnel x)
      → let (r, t') = rotate x master t in
        (r ≡ ok tt)
        × (t'.epoch.value ≡ (t.epoch.value + 1) % 256)
        × (t'.seq_counters ≡ SeqCounters.new)
        × (t'.replay_window ≡ t.replay_window)
        × ((k : TrafficKeys) × (derive_epoch_keys x.hkdf {E = TunnelError} master t'.epoch.value 32
                12
              ≡ ok k)
            × HasLengths 32 12 k
            × HasEpochKeys t' k)
  unfolding rotate next SeqCounters.reset
  rotate_lem laws master t =
      let (k, derived, (lk, (lv, (lk', lv')))) =
        derive_epoch_keys_lem x.hkdf laws {E = TunnelError} master (next t.epoch).value 32 12
          (omega arith) (omega arith) in
      rw (derived, rotate)
        (
          refl,
          refl,
          refl,
          refl,
          (k, derived, (lk, (lv, (lk', lv'))), fit_keys k (lk, (lv, (lk', lv')))),
        )

  old_refused :
      (w : ReplayWindow) (n : ℕ)
      → n + replay_window_size < w.max_nonce
      → w.max_nonce < 2 ^ 64
      → (check_and_update w n).0 ≢ ok tt
  unfolding check_and_update
  old_refused w n old fits e =
      let sum : (n + replay_window_size) % 2 ^ 64 ≡ n + replay_window_size = omega arith in
      ground arith

  -- After a rotation, over HKDF with its documented behaviour, the sequence numbers start over,
  -- but a datagram whose number lies more than a window below the highest number of the old
  -- epoch, of 64 bits, is not accepted.
  pub recv_record-rotate :
      IsHkdf x.hkdf
      → (master : List ℕ) (t : Tunnel x) (now : x.timing.Instant) (d : List ℕ) (addr : x.Address)
        (p : ℕ × (ℕ × List ℕ))
      → datagram_seq d + replay_window_size < t.replay_window.max_nonce
      → t.replay_window.max_nonce < 2 ^ 64
      → let t' = (rotate x master t).1 in
        (t'.seq_counters ≡ SeqCounters.new) × ((recv_record x t' now (some (d, addr))).0 ≢ ok p)
  recv_record-rotate laws master t now d addr p old fits =
      let (_, _, counters, window, _) = rotate_lem laws master t in
      (
        counters,
        λ e. elim (recv_record-WindowEffect x (rotate x master t).1 now d addr) [
          | inl (_, fails) ↦ fails p e
          | inr (_, passes) ↦ old_refused t.replay_window (datagram_seq d) old fits (
              subst (λ (w : ReplayWindow). (check_and_update w (datagram_seq d)).0 ≡ ok tt) window
                (passes p e))
        ],
      )
