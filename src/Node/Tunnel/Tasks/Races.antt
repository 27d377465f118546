-- ===== src/Node/Tunnel/Tasks/Races.antt =====
-- A packet whose keys are read before a rotation and whose number is drawn after it.
use cryprq.Base.{ℕ, ◌≡◌, refl, arith, List, [], ◌∷◌}
use cryprq.Crypto.Kdf.{Hkdf}
use cryprq.Crypto.Kdf.Lengths.{IsHkdf, derive_epoch_keys_lem}
use cryprq.Node.CryptoUtils.{next}
use cryprq.Node.Error.{TunnelError}
use cryprq.Node.SeqCounters.{reset}
use cryprq.Node.Tunnel.Tasks

-- A packet that is sealed under the first keys with the number 0, after so many resets.
abbrev pub first_packet : Tasks.Cells → ℕ → Tasks.Sealing
first_packet c resets = record {
  epoch = c.epoch;
  keys = c.keys_outbound;
  number = 0;
  resets = resets;
}

module _ (hkdf : Hkdf) (laws : IsHkdf hkdf) (master : List ℕ) (c : Tasks.Cells) where
  -- Two tasks that send and one rotation can be interleaved such that two packets are sealed in
  -- one epoch under the same keys with the same number, if the counter starts at 0, over HKDF
  -- with its documented behaviour.
  pub number_reused :
      c.seq_counters.vpn ≡ 0
      → (s : Tasks.System) × Tasks.Reach hkdf master (Tasks.start c 2) s
        × (s.sealed ≡ first_packet c 1 ∷ first_packet c 0 ∷ [])
  unfolding reset
  number_reused zero =
      let (k, derived, _) =
        derive_epoch_keys_lem hkdf laws {E = TunnelError} master (next c.epoch).value 32 12
          (omega arith) (omega arith) in
      let s0 : Tasks.Reach hkdf master (Tasks.start c 2) (Tasks.start c 2) = Tasks.here in
      let s1 = Tasks.later s0 (Tasks.read_epoch 0 refl) in
      let s2 = Tasks.later s1 (Tasks.read_keys 0 _ refl) in
      let s3 = Tasks.later s2 (Tasks.load_counter 0 _ _ refl (omega arith)) in
      let s4 = Tasks.later s3 (Tasks.draw_number 0 _ _ refl) in
      let s5 = Tasks.later s4 (Tasks.read_epoch 1 refl) in
      let s6 = Tasks.later s5 (Tasks.read_keys 1 _ refl) in
      let s7 = Tasks.later s6 (Tasks.store_epoch k refl derived) in
      let s8 = Tasks.later s7 (Tasks.store_outbound k refl) in
      let s9 = Tasks.later s8 (Tasks.store_inbound k refl) in
      let s10 = Tasks.later s9 (Tasks.reset_counters refl) in
      let s11 = Tasks.later s10 (Tasks.load_counter 1 _ _ refl (omega arith)) in
      let s12 = Tasks.later s11 (Tasks.draw_number 1 _ _ refl) in (_, s12, ground (arith, zero))
