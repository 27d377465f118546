-- ===== src/P2p/Settings.antt =====
-- The settings that p2p/src/lib.rs reads from the environment.
use cryprq.Base.{
  ℕ, ◌+◌, ◌*◌, ◌%◌, ◌-◌, ◌^◌, ◌≤◌, ◌<◌, ◌≡◌, arith, List, ltb, min, Option, none, some,
}
use cryprq.Base.{if◌then◌else◌, leb, ap, suc}
use cryprq.Base.Text.{parse_decimal}
use cryprq.P2p.Backoff.{
  BackoffConfig, Backoff, compute_backoff_duration, allow_incoming, record_failure, failures_of,
}
use cryprq.P2p.Backoff.Delay.{delay_after, allow_incoming-record_failure}
use native.Mathlib.Nat.{mul-pos}
use cryprq.Base.{pow_pos}

-- `read_env_u64`, for the value of the variable, if it is set to a text.
unfoldable pub read_env_u64 : Option (List ℕ) → Option ℕ
read_env_u64 none = none
read_env_u64 (some text) = elim (parse_decimal (2 ^ 64 - 1) text) [
  | none ↦ none
  | some v ↦ if ltb 0 v then some v else none
]

abbrev pub unwrap_or : Option ℕ → ℕ → ℕ
unwrap_or none default = default
unwrap_or (some v) default = v

-- `BACKOFF_CONFIG`
unfoldable pub backoff_config : Option (List ℕ) → Option (List ℕ) → BackoffConfig
backoff_config base_text max_text = record {
  base_ms = unwrap_or (read_env_u64 base_text) 500;
  max_ms = unwrap_or (read_env_u64 max_text) 30000;
}

-- The limit of `connection_limits_config`, for pending and for established connections.
unfoldable pub max_inbound : Option (List ℕ) → ℕ
max_inbound text = min (unwrap_or (read_env_u64 text) 64) (2 ^ 32 - 1) % 2 ^ 32

read_env_u64-pos :
    (text : Option (List ℕ)) (default : ℕ) → 0 < default → 0 < unwrap_or (read_env_u64 text) default
unfolding read_env_u64
read_env_u64-pos none default pos = pos
read_env_u64-pos (some text) default pos = ground arith

-- Whatever the environment says, at least one incoming connection is admitted.
max_inbound-pos : (text : Option (List ℕ)) → 0 < max_inbound text
unfolding max_inbound
max_inbound-pos text = omega (arith, read_env_u64-pos text 64 (omega arith))

-- Whatever the environment says, an address waits after each failure: at least a millisecond and at
-- most the maximum.
backoff_config-delay :
    (base_text max_text : Option (List ℕ)) (failures : ℕ)
    → let config = backoff_config base_text max_text in
      let delay = compute_backoff_duration config.base_ms config.max_ms (suc failures) in
      (1 ≤ delay) × (delay ≤ config.max_ms)
unfolding backoff_config compute_backoff_duration
backoff_config-delay base_text max_text failures =
    let base = read_env_u64-pos base_text 500 (omega arith) in
    let full = read_env_u64-pos max_text 30000 (omega arith) in
    let power = pow_pos (min (suc failures - 1) 30) in
    let product = mul-pos base power in ground (arith, base, full, product)

-- Whatever the environment says, an address that has failed is refused until a delay has passed,
-- of at least a millisecond and at most the maximum, and is then allowed.
pub record_failure-delay :
    (base_text max_text : Option (List ℕ)) (guard : Backoff) (key : List ℕ) (now : ℕ)
    → let config = backoff_config base_text max_text in
      (delay : ℕ) × (10 ^ 6 ≤ delay)
      × (delay ≤ config.max_ms * 10 ^ 6)
      × ((later : ℕ)
          → (allow_incoming (record_failure config guard key now) key later).0
            ≡ leb (now + delay) later)
record_failure-delay base_text max_text guard key now =
    let config = backoff_config base_text max_text in
    let failures = min (failures_of guard key + 1) 16 in
    let some_failure : suc (failures - 1) ≡ failures = omega arith in
    let (least, most) = backoff_config-delay base_text max_text (failures - 1) in
    let same =
      ap (λ (n : ℕ). compute_backoff_duration config.base_ms config.max_ms n) some_failure in
    (
      delay_after config guard key now,
      omega (arith, least, same),
      omega (arith, most, same),
      λ later. (allow_incoming-record_failure config guard key now later).0,
    )
