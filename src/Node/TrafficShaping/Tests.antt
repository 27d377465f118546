-- ===== src/Node/TrafficShaping/Tests.antt =====
-- The theorem on slots at concrete inputs: numbers for `f64`, and timers that are late only when the
-- caller is.
use cryprq.Base.{
  ℕ, zero, suc, ◌+◌, ◌*◌, ◌/◌, ◌≤◌, ◌<◌, ◌≡◌, refl, arith, leb, if◌then◌else◌, [], ◌∷◌, none, some,
}
use cryprq.Base.{Outcome, ok, panicked, get_elem?}
use cryprq.Node.Error.{TunnelError}
use cryprq.Node.TrafficShaping
use cryprq.Node.TrafficShaping.{Rates, Timers}
use cryprq.Node.TrafficShaping.Slots.{IsTimers, slots-new}

abbrev rates : Rates
rates = record {
  Real = ℕ;
  from_u32 = λ n. n;
  quotient = λ a b. a / b;
  to_u64 = λ a. a;
  duration_secs = λ a. ok (a * 1000000000);
}

record Ticks : Type 0 where
  due : ℕ
  every : ℕ

abbrev interval : ℕ → ℕ → Outcome TunnelError Ticks
interval zero now = panicked
interval (suc p) now = ok (record { due = now; every = suc p })

abbrev over : Ticks → ℕ → ℕ
over i now = if leb i.due now then now else i.due

abbrev timers : Timers
timers = record {
  Interval = Ticks;
  interval = interval;
  delay_missed_ticks = λ i. i;
  tick = λ i now. (over i now, record i { due = over i now + i.every });
}

over-late : (i : Ticks) (now : ℕ) → i.due ≤ over i now
over-late i now = ground arith

made_positive :
    (p now : ℕ) → 0 < p → (i : Ticks) × ((interval p now ≡ ok i) × ((i.due ≡ now) × (i.every ≡ p)))
made_positive zero now positive = absurd (omega arith)
made_positive (suc p) now positive = (record { due = now; every = suc p }, (refl, (refl, refl)))

timers-IsTimers : IsTimers timers
timers-IsTimers = record {
  deadline = λ i. i.due;
  period = λ i. i.every;
  interval_zero = λ now. refl;
  interval_suc = made_positive;
  delay_deadline = λ i. refl;
  delay_period = λ i. refl;
  tick_waits = over-late;
  tick_deadline = λ i now. omega (arith, over-late i now);
  tick_period = λ i now. refl;
}

-- 100 packets per second, from 5 on.
abbrev shaper : TrafficShaping.TrafficShaper rates timers
shaper = record { pps = 100; last_packet = none; interval = record { due = 5; every = 10000000 } }

made : TrafficShaping.new rates timers 100 5 ≡ ok shaper
unfolding TrafficShaping.new
made = refl

third_slot :
    get_elem? (TrafficShaping.slots rates timers shaper (6 ∷ 7 ∷ 30000000 ∷ [])) 2
    ≡ some (some 30000000)
unfolding TrafficShaping.wait_for_slot
third_slot = refl

slots-new_example : 5 + 2 * (TrafficShaping.interval_ms rates timers 100 * 1000000) ≤ 30000000
slots-new_example =
    slots-new rates timers timers-IsTimers 100 5 (6 ∷ 7 ∷ 30000000 ∷ []) 2 30000000 made third_slot
