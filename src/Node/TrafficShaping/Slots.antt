-- ===== src/Node/TrafficShaping/Slots.antt =====
-- The slots of a shaper do not run ahead of its interval.
use cryprq.Base.{
  ℕ, zero, suc, ◌+◌, ◌*◌, ◌≤◌, ◌<◌, ◌≡◌, ap, sym, ◌∙◌, arith, List, [], ◌∷◌, some, get_elem?,
  >>=-eq-ok,
}
use cryprq.Base.{ok, panicked}
use cryprq.Node.TrafficShaping.{
  Rates, Timers, TrafficShaper, interval_ms, new, wait_for_slot, slots,
}

-- The documentation of tokio: a period of zero panics; a tick is over at its deadline at the
-- earliest, the first at once, and the next deadline is a period later, or more if a tick is missed.
pub record IsTimers (t : Timers) : Type 0 where
  pub deadline : t.Interval → ℕ
  pub period : t.Interval → ℕ
  pub interval_zero : (now : ℕ) → t.interval 0 now ≡ panicked
  pub interval_suc :
      (p now : ℕ)
      → 0 < p
      → (i : t.Interval) × ((t.interval p now ≡ ok i) × ((deadline i ≡ now) × (period i ≡ p)))
  pub delay_deadline : (i : t.Interval) → deadline (t.delay_missed_ticks i) ≡ deadline i
  pub delay_period : (i : t.Interval) → period (t.delay_missed_ticks i) ≡ period i
  pub tick_waits : (i : t.Interval) (now : ℕ) → deadline i ≤ (t.tick i now).0
  pub tick_deadline : (i : t.Interval) (now : ℕ) → deadline i + period i ≤ deadline (t.tick i now).1
  pub tick_period : (i : t.Interval) (now : ℕ) → period (t.tick i now).1 ≡ period i

module _ (r : Rates) (t : Timers) (laws : IsTimers t) where
  slots_lem :
      (s : TrafficShaper r t) (nows : List ℕ) (k instant : ℕ)
      → get_elem? (slots r t s nows) k ≡ some (some instant)
      → laws.deadline s.interval + k * laws.period s.interval ≤ instant
  unfolding wait_for_slot
  slots_lem s [] k instant e = absurd (cc)
  slots_lem s (now ∷ nows) zero instant e =
      let same : (t.tick s.interval now).0 ≡ instant = cc in
      omega (arith, same, laws.tick_waits s.interval now)
  slots_lem s (now ∷ nows) (suc k) instant e =
      let rest = slots_lem (wait_for_slot r t s now) nows k instant e in
      let next = t.tick s.interval now in
      let period = ap (λ (p : ℕ). k * p) (laws.tick_period s.interval now) in
      omega (arith, rest, period, laws.tick_deadline s.interval now)

  interval-ok :
      (p now : ℕ) {i : t.Interval}
      → t.interval p now ≡ ok i
      → (laws.deadline i ≡ now) × (laws.period i ≡ p)
  interval-ok zero now e = absurd (let h = laws.interval_zero now in cc)
  interval-ok (suc p) now {i} e =
      let (j, (made, (at, every))) = laws.interval_suc (suc p) now (omega arith) in
      let same : j ≡ i = cc in (cc, cc)

  new-interval :
      (rate : r.Real) (start : ℕ) {s : TrafficShaper r t}
      → new r t rate start ≡ ok s
      → (laws.deadline s.interval ≡ start)
        × (laws.period s.interval ≡ interval_ms r t rate * 1000000)
  unfolding new
  new-interval rate start {s} e =
      let (i, made, returned) = >>=-eq-ok (t.interval (interval_ms r t rate * 1000000) start) _ e in
      let (at, every) = interval-ok _ start made in
      let same : t.delay_missed_ticks i ≡ s.interval = cc in
      (
        ap laws.deadline (sym same) ∙ laws.delay_deadline i ∙ at,
        ap laws.period (sym same) ∙ laws.delay_period i ∙ every,
      )

  -- The slots of a caller of a traffic shaper are never ahead of the interval: whenever it waits,
  -- the slot after k others comes k intervals, of whole milliseconds, after the creation of the
  -- shaper, or later, over timers with their documented behaviour.
  pub slots-new :
      (rate : r.Real) (start : ℕ) (nows : List ℕ) (k instant : ℕ) {s : TrafficShaper r t}
      → new r t rate start ≡ ok s
      → get_elem? (slots r t s nows) k ≡ some (some instant)
      → start + k * (interval_ms r t rate * 1000000) ≤ instant
  slots-new rate start nows k instant {s} e at =
      let (from, every) = new-interval rate start e in
      let late = slots_lem s nows k instant at in
      let periods = ap (λ (p : ℕ). k * p) every in omega (arith, from, periods, late)
