-- ===== src/P2p/Backoff.antt =====
-- The back-off of addresses in p2p/src/lib.rs.
pub mod Delay
use cryprq.Base.{ℕ, ◌+◌, ◌-◌, ◌*◌, ◌^◌, List, ltb, ◌==◌, ◌||◌, min, Bool, true, false, bytes_eq}
use cryprq.Base.{Option, none, some, if◌then◌else◌}

pub record BackoffConfig : Type 0 where
  pub base_ms : ℕ
  pub max_ms : ℕ

-- An `Instant` is a number of nanoseconds.
pub record BackoffState : Type 0 where
  pub failures : ℕ
  pub next_allowed : ℕ
  pub last_warn : Option ℕ

-- The map `BACKOFF`, from the text of an address.
abbrev pub Backoff : Type 0
Backoff = List ℕ → Option BackoffState

abbrev pub put : Backoff → List ℕ → Option BackoffState → Backoff
put guard key state = λ k. if bytes_eq key k then state else guard k

-- `compute_backoff_duration`, in milliseconds: the product saturates at 128 bits.
unfoldable pub compute_backoff_duration : ℕ → ℕ → ℕ → ℕ
compute_backoff_duration base_ms max_ms failures =
    if failures == 0 || base_ms == 0
    then 0
    else let exponent = min (failures - 1) 30 in
      let multiplier = 2 ^ exponent in
      let ms = min (base_ms * multiplier) (2 ^ 128 - 1) in
      let capped = if ltb 0 max_ms then min ms max_ms else ms in min capped (2 ^ 64 - 1)

-- Whether a denial is worth a warning: 60 seconds after the last one.
unfoldable pub should_warn : BackoffState → ℕ → Bool
should_warn state now = elim state.last_warn [
  | none ↦ true
  | some last ↦ ltb (60 * 10 ^ 9) (now - last)
]

unfoldable pub allow_incoming : Backoff → List ℕ → ℕ → Bool × Backoff
allow_incoming guard key now = elim (guard key) [
  | none ↦ (true, guard)
  | some state ↦
      if ltb now state.next_allowed
      then (
        false,
        if should_warn state now
            then put guard key (some (record state { last_warn = some now }))
            else guard,
      )
      else (true, put guard key none)
]

-- `entry(key).or_insert(…)`
unfoldable pub failures_of : Backoff → List ℕ → ℕ
failures_of guard key = elim (guard key) [ none ↦ 0 | some state ↦ state.failures ]

unfoldable pub record_failure : BackoffConfig → Backoff → List ℕ → ℕ → Backoff
record_failure config guard key now =
    let failures = min (failures_of guard key + 1) 16 in
    let backoff = compute_backoff_duration config.base_ms config.max_ms failures in
    put guard key (
      some
        (record { failures = failures; next_allowed = now + backoff * 10 ^ 6; last_warn = none }))

unfoldable pub clear_backoff_for : Backoff → List ℕ → Backoff
clear_backoff_for guard key = put guard key none
