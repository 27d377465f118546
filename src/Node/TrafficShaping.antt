-- ===== src/Node/TrafficShaping.antt =====
-- `TrafficShaper` of node/src/traffic_shaping.rs. Instants and durations are in nanoseconds.
pub mod Slots
mod Tests
use cryprq.Base.{ℕ, ◌*◌, ◌-◌, Bool, true, leb, List, [], ◌∷◌, Option, none, some}
use cryprq.Base.{Outcome, ok, err, panicked, ◌>>=◌}
use cryprq.Node.Error.{TunnelError}

-- The arithmetic of `f64` that the shaper uses: `to_u64` is the cast, which saturates, and
-- `duration_secs` is `Duration::from_secs_f64`, which panics on what is no duration.
pub record Rates : Type 1 where
  pub Real : Type 0
  pub from_u32 : ℕ → Real
  pub quotient : Real → Real → Real
  pub to_u64 : Real → ℕ
  pub duration_secs : Real → Outcome TunnelError ℕ

-- `tokio::time::Interval`: made with its period at an instant, and waited for with `tick` from an
-- instant on, which gives the instant at which the wait is over.
pub record Timers : Type 1 where
  pub Interval : Type 0
  pub interval : ℕ → ℕ → Outcome TunnelError Interval
  pub delay_missed_ticks : Interval → Interval
  pub tick : Interval → ℕ → ℕ × Interval

pub record TrafficShaper (r : Rates) (t : Timers) : Type 0 where
  pub pps : r.Real
  pub last_packet : Option ℕ
  pub interval : t.Interval

module _ (r : Rates) (t : Timers) where
  abbrev pub interval_ms : r.Real → ℕ
  interval_ms packets_per_second = r.to_u64 (r.quotient (r.from_u32 1000) packets_per_second)

  unfoldable pub new : r.Real → ℕ → Outcome TunnelError (TrafficShaper r t)
  new packets_per_second now = do
    interval ← t.interval (interval_ms packets_per_second * 1000000) now
    ok (record {
      pps = packets_per_second;
      last_packet = none;
      interval = t.delay_missed_ticks interval;
    })

  -- `wait_for_slot`, called at an instant; the clock is read when the tick is over.
  unfoldable pub wait_for_slot : TrafficShaper r t → ℕ → TrafficShaper r t
  wait_for_slot s now =
      let (instant, interval) = t.tick s.interval now in
      record s { last_packet = some instant; interval = interval }

  unfoldable pub should_send : TrafficShaper r t → ℕ → Outcome TunnelError Bool
  should_send s now = elim s.last_packet [
    | none ↦ ok true
    | some last ↦ do
      target_interval ← r.duration_secs (r.quotient (r.from_u32 1) s.pps)
      ok (leb target_interval (now - last))
  ]

  -- `jitter_delay`; `gen_range` draws from 0 to its argument, this included.
  unfoldable pub jitter_delay : (ℕ → ℕ) → ℕ → ℕ
  jitter_delay gen_range max_jitter_ms = gen_range max_jitter_ms * 1000000

  -- The slots of a caller that waits from each of these instants on.
  abbrev pub slots : TrafficShaper r t → List ℕ → List (Option ℕ)
  slots s [] = []
  slots s (now ∷ nows) = let s' = wait_for_slot s now in s'.last_packet ∷ slots s' nows
