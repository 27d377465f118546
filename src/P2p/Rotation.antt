-- ===== src/P2p/Rotation.antt =====
-- Key rotation in p2p/src/lib.rs: `start_key_rotation` and `get_current_pk`.
use cryprq.Base.{ℕ, ◌+◌, ◌%◌, ◌^◌, List, [], ◌∷◌, length, none, some}
use cryprq.Base.{Outcome, ok, err, ◌≡◌, refl, arith}
use cryprq.P2p.Metrics.{set_rotation_interval, record_rotation_success}
use cryprq.P2p.Peers.{rotate_once}
use cryprq.P2p.Swarm.{Node, with_metrics}

-- What a rotation gets from outside: the new key pair, the time in seconds, and how long it takes.
pub record Rotation : Type 0 where
  pub key_pair : List ℕ × List ℕ
  pub now : ℕ
  pub elapsed : ℕ

pub data NotInitialized : Type 0 where
  not_initialized : NotInitialized

abbrev pub last_rotation : Rotation → List Rotation → Rotation
last_rotation rotation [] = rotation
last_rotation rotation (next ∷ rest) = last_rotation next rest

module _ {S : Type 0} where
  unfoldable pub get_current_pk : Node S → Outcome NotInitialized (List ℕ)
  get_current_pk s = elim s.peers.keys [ none ↦ err not_initialized | some (pk, sk) ↦ ok pk ]

  -- `rotate_once` with its metrics: the epoch that is recorded is the one before the rotation.
  unfoldable pub rotate_with_metrics : Node S → Rotation → Node S
  rotate_with_metrics s rotation = record s {
    peers = rotate_once s.peers rotation.key_pair rotation.now;
    metrics = (record_rotation_success s.metrics rotation.elapsed s.peers.local_epoch).1;
  }

  abbrev pub rotate_all : Node S → List Rotation → Node S
  rotate_all s [] = s
  rotate_all s (rotation ∷ rotations) = rotate_all (rotate_with_metrics s rotation) rotations

  -- `start_key_rotation` until now: one rotation at once, and one for each tick.
  unfoldable pub start_key_rotation : Node S → ℕ → Rotation → List Rotation → Node S
  start_key_rotation s interval first ticks =
      rotate_all
        (rotate_with_metrics (with_metrics s (set_rotation_interval s.metrics interval)) first)
        ticks

  rotate_all_lem :
      (s : Node S) (first : Rotation) (ticks : List Rotation)
      → let s' = rotate_all (rotate_with_metrics s first) ticks in
        (get_current_pk s' ≡ ok (last_rotation first ticks).key_pair.0)
        × (s'.peers.local_epoch ≡ (s.peers.local_epoch + (1 + length ticks)) % 256)
        × (s'.metrics.rotations_total ≡ (s.metrics.rotations_total + (1 + length ticks)) % 2 ^ 64)
        × (s'.metrics.rotation_epoch % 256 ≡ (s.peers.local_epoch + length ticks) % 256)
        × (s'.peers.allowed_peers ≡ s.peers.allowed_peers)
  unfolding get_current_pk rotate_with_metrics rotate_once record_rotation_success
  rotate_all_lem s first [] = (refl, omega arith, omega arith, omega arith, refl)
  rotate_all_lem s first (next ∷ ticks) =
      let (k, e, t, m, a) = rotate_all_lem (rotate_with_metrics s first) next ticks in
      (k, omega arith, omega arith, omega arith, a)

  pub start_key_rotation_lem :
      (s : Node S) (interval : ℕ) (first : Rotation) (ticks : List Rotation)
      → let s' = start_key_rotation s interval first ticks in
        (get_current_pk s' ≡ ok (last_rotation first ticks).key_pair.0)
        × (s'.peers.local_epoch ≡ (s.peers.local_epoch + (1 + length ticks)) % 256)
        × (s'.metrics.rotations_total ≡ (s.metrics.rotations_total + (1 + length ticks)) % 2 ^ 64)
        × (s'.metrics.rotation_epoch % 256 ≡ (s.peers.local_epoch + length ticks) % 256)
        × (s'.peers.allowed_peers ≡ s.peers.allowed_peers)
  unfolding start_key_rotation
  start_key_rotation_lem s interval first ticks =
      rotate_all_lem (with_metrics s (set_rotation_interval s.metrics interval)) first ticks
