-- ===== src/P2p/Backoff/Delay.antt =====
-- How long an address has to wait.
use cryprq.Base.{ℕ, suc, ◌+◌, ◌-◌, ◌*◌, ◌≤◌, ◌<◌, ◌^◌, ◌≡◌, ◌≢◌, ap, ◌∙◌, arith, List, leb, min}
use cryprq.Base.{true, bytes_eq→eq, bytes_eq_self}
use native.Mathlib.Nat.{pow-le-pow_right, mul-le-mul_left}
use cryprq.P2p.Backoff.{
  BackoffConfig, Backoff, compute_backoff_duration, allow_incoming, failures_of, record_failure,
  clear_backoff_for,
}

-- The delay doubles with each failure from the base on, up to a maximum that is above 0 and fits
-- 64 bits, for up to 31 failures.
pub compute_backoff_duration_lem :
    (base_ms max_ms n : ℕ)
    → 0 < max_ms
    → max_ms < 2 ^ 64
    → n ≤ 30
    → compute_backoff_duration base_ms max_ms (suc n) ≡ min (base_ms * 2 ^ n) max_ms
unfolding compute_backoff_duration
compute_backoff_duration_lem base full n pos fits small =
    let exponent : min (suc n - 1) 30 ≡ n = omega arith in
    let nothing : base ≡ 0 → base * 2 ^ n ≡ 0 = λ e. ap (λ (b : ℕ). b * 2 ^ n) e ∙ omega arith in
    rw exponent (ground (arith, nothing))

-- More failures never shorten the delay.
pub compute_backoff_duration_monotone :
    (base_ms max_ms m n : ℕ)
    → m ≤ n
    → compute_backoff_duration base_ms max_ms m ≤ compute_backoff_duration base_ms max_ms n
unfolding compute_backoff_duration
compute_backoff_duration_monotone base full m n le =
    let exponents : min (m - 1) 30 ≤ min (n - 1) 30 = omega arith in
    let powers = pow-le-pow_right {n = 2} (omega arith) exponents in
    let products = mul-le-mul_left base powers in ground arith

compute_backoff_duration_bounded :
    (base_ms max_ms n : ℕ) → 0 < max_ms → compute_backoff_duration base_ms max_ms n ≤ max_ms
unfolding compute_backoff_duration
compute_backoff_duration_bounded base full n pos = ground arith

module _ (config : BackoffConfig) (guard : Backoff) (key : List ℕ) (now : ℕ) where
  -- The delay after the failure that is recorded now, in nanoseconds.
  abbrev pub delay_after : ℕ
  delay_after =
      compute_backoff_duration config.base_ms config.max_ms (min (failures_of guard key + 1) 16)
      * 10 ^ 6

  -- After a failure an address is refused until its delay has passed, and is then allowed with
  -- its failures forgotten.
  pub allow_incoming-record_failure :
      (later : ℕ)
      → ((allow_incoming (record_failure config guard key now) key later).0
          ≡ leb (now + delay_after) later)
        × (now + delay_after ≤ later
            → failures_of (allow_incoming (record_failure config guard key now) key later).1 key
              ≡ 0)
  unfolding allow_incoming record_failure failures_of
  allow_incoming-record_failure later =
      (ground (arith, bytes_eq_self key), ground (arith, bytes_eq_self key))

  -- The other addresses are not touched.
  pub record_failure_other :
      (other : List ℕ)
      → key ≢ other
      → (record_failure config guard key now other ≡ guard other)
        × (clear_backoff_for guard key other ≡ guard other)
  unfolding record_failure clear_backoff_for
  record_failure_other other apart =
      (ground (arith, bytes_eq→eq key other), ground (arith, bytes_eq→eq key other))

  -- An address that is cleared is allowed at once.
  allow_incoming-clear_backoff_for : (allow_incoming (clear_backoff_for guard key) key now).0 ≡ true
  unfolding allow_incoming clear_backoff_for
  allow_incoming-clear_backoff_for = ground (arith, bytes_eq_self key)
