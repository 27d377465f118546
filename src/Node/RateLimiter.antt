-- ===== src/Node/RateLimiter.antt =====
-- `RateLimiter` of node/src/lib.rs: a token bucket.
pub mod Bucket
use cryprq.Base.{ℕ, Bool, Outcome, ok, err, if◌then◌else◌}
use cryprq.Node.Error.{TunnelError, rate_limit_exceeded}

-- The arithmetic of `f64` and the clock, as far as the limiter uses them: `at_least a b` is `a >= b`,
-- and `secs_between now last` is `now.duration_since(last).as_secs_f64()`.
pub record Timing : Type 1 where
  pub Real : Type 0
  pub Instant : Type 0
  pub plus : Real → Real → Real
  pub minus : Real → Real → Real
  pub times : Real → Real → Real
  pub minimum : Real → Real → Real
  pub at_least : Real → Real → Bool
  pub from_u32 : ℕ → Real
  pub secs_between : Instant → Instant → Real

pub record RateLimiter (t : Timing) : Type 0 where
  pub capacity : ℕ
  pub tokens : t.Real
  pub refill_rate : t.Real
  pub last_refill : t.Instant

module _ (t : Timing) where
  unfoldable pub new : ℕ → ℕ → t.Instant → RateLimiter t
  new packets_per_second burst_size now = record {
    capacity = burst_size;
    tokens = t.from_u32 burst_size;
    refill_rate = t.from_u32 packets_per_second;
    last_refill = now;
  }

  unfoldable pub check_and_consume :
      RateLimiter t → t.Instant → Outcome TunnelError (Unit {0}) × RateLimiter t
  check_and_consume l now =
      let elapsed = t.secs_between now l.last_refill in
      let refilled = t.plus l.tokens (t.times elapsed l.refill_rate) in
      let tokens = t.minimum refilled (t.from_u32 l.capacity) in
      if t.at_least tokens (t.from_u32 1)
      then (ok tt, record l { tokens = t.minus tokens (t.from_u32 1); last_refill = now })
      else (err rate_limit_exceeded, record l { tokens = tokens; last_refill = now })
