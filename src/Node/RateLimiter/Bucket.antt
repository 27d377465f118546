-- ===== src/Node/RateLimiter/Bucket.antt =====
-- The bucket never holds more than its capacity, and a burst empties it.
use cryprq.Base.{ℕ, zero, suc, ◌+◌, ◌≤◌, ◌<◌, ◌^◌, ◌≡◌, refl, ap, ◌∙◌, arith, leb}
use cryprq.Base.{true, Outcome, ok, err, List, [], ◌∷◌, ◌++◌, replicate}
use cryprq.Node.Error.{TunnelError, rate_limit_exceeded}
use cryprq.Node.RateLimiter.{Timing, RateLimiter, new, check_and_consume}

-- `f64` on the numbers of a `u32`, which it represents exactly, and on its comparisons.
pub record IsTiming (t : Timing) : Type 0 where
  pub minimum_le :
      (a : t.Real) (c : ℕ) → t.at_least (t.from_u32 c) (t.minimum a (t.from_u32 c)) ≡ true
  pub minus_le :
      (a : t.Real) (c : ℕ)
      → t.at_least (t.from_u32 c) a ≡ true
      → t.at_least (t.from_u32 c) (t.minus a (t.from_u32 1)) ≡ true
  pub same_instant : (i : t.Instant) → t.secs_between i i ≡ t.from_u32 0
  pub times_zero : (c : ℕ) → c < 2 ^ 32 → t.times (t.from_u32 0) (t.from_u32 c) ≡ t.from_u32 0
  pub plus_zero : (c : ℕ) → c < 2 ^ 32 → t.plus (t.from_u32 c) (t.from_u32 0) ≡ t.from_u32 c
  pub minimum_u32 :
      (a b : ℕ) → a ≤ b → b < 2 ^ 32 → t.minimum (t.from_u32 a) (t.from_u32 b) ≡ t.from_u32 a
  pub minus_one :
      (c : ℕ) → suc c < 2 ^ 32 → t.minus (t.from_u32 (suc c)) (t.from_u32 1) ≡ t.from_u32 c
  pub at_least_one : (c : ℕ) → c < 2 ^ 32 → t.at_least (t.from_u32 c) (t.from_u32 1) ≡ leb 1 c

module _ (t : Timing) (laws : IsTiming t) where
  -- Whatever the time and the tokens were, a check leaves at most as many tokens as the capacity,
  -- if the minimum and the subtraction of 1 are those of f64.
  pub check_and_consume-bounded :
      (l : RateLimiter t) (now : t.Instant)
      → let l' = (check_and_consume t l now).1 in
        t.at_least (t.from_u32 l'.capacity) l'.tokens ≡ true
  unfolding check_and_consume
  check_and_consume-bounded l now =
      let refilled = t.plus l.tokens (t.times (t.secs_between now l.last_refill) l.refill_rate) in
      let full = laws.minimum_le refilled l.capacity in
      ground (arith, full, laws.minus_le _ l.capacity full)

  -- The answers to a number of checks at one instant.
  pub burst : ℕ → RateLimiter t → t.Instant → List (Outcome TunnelError (Unit {0}))
  burst zero l now = []
  burst (suc n) l now = let (r, l') = check_and_consume t l now in r ∷ burst n l' now

  -- A limiter that was refilled at this instant and holds a whole number of tokens.
  holding : ℕ → ℕ → ℕ → t.Instant → RateLimiter t
  holding size rate c now = record {
    capacity = size;
    tokens = t.from_u32 c;
    refill_rate = t.from_u32 rate;
    last_refill = now;
  }

  refill_none :
      (size rate c : ℕ) (now : t.Instant)
      → size < 2 ^ 32
      → rate < 2 ^ 32
      → c ≤ size
      → t.minimum
          (t.plus (t.from_u32 c) (t.times (t.secs_between now now) (t.from_u32 rate)))
          (t.from_u32 size)
        ≡ t.from_u32 c
  refill_none size rate c now hc hr le =
      rw (laws.same_instant now, laws.times_zero rate hr, laws.plus_zero c (omega arith))
        (laws.minimum_u32 c size le hc)

  check_full :
      (size rate c : ℕ) (now : t.Instant)
      → size < 2 ^ 32
      → rate < 2 ^ 32
      → suc c ≤ size
      → check_and_consume t (holding size rate (suc c) now) now ≡ (ok tt, holding size rate c now)
  unfolding check_and_consume holding
  check_full size rate c now hc hr le = ground (
    arith,
    refill_none size rate (suc c) now hc hr le,
    laws.at_least_one (suc c) (omega arith),
    laws.minus_one c (omega arith),
  )

  check_empty :
      (size rate : ℕ) (now : t.Instant)
      → size < 2 ^ 32
      → rate < 2 ^ 32
      → check_and_consume t (holding size rate 0 now) now
        ≡ (err rate_limit_exceeded, holding size rate 0 now)
  unfolding check_and_consume holding
  check_empty size rate now hc hr =
      ground
        (arith, refill_none size rate 0 now hc hr (omega arith), laws.at_least_one 0 (omega arith))

  burst-empty :
      (n size rate : ℕ) (now : t.Instant)
      → size < 2 ^ 32
      → rate < 2 ^ 32
      → burst n (holding size rate 0 now) now ≡ replicate n (err rate_limit_exceeded)
  unfolding burst
  burst-empty zero size rate now hc hr = refl
  burst-empty (suc n) size rate now hc hr =
      rw (check_empty size rate now hc hr)
        (ap (λ rs. err rate_limit_exceeded ∷ rs) (burst-empty n size rate now hc hr))

  burst-holding :
      (c n size rate : ℕ) (now : t.Instant)
      → size < 2 ^ 32
      → rate < 2 ^ 32
      → c ≤ size
      → burst (c + n) (holding size rate c now) now
        ≡ replicate c (ok tt) ++ replicate n (err rate_limit_exceeded)
  unfolding burst
  burst-holding zero n size rate now hc hr le =
      let e : 0 + n ≡ n = omega arith in
      ap (λ (k : ℕ). burst k (holding size rate 0 now) now) e ∙ burst-empty n size rate now hc hr
  burst-holding (suc c) n size rate now hc hr le =
      let e : suc c + n ≡ suc (c + n) = omega arith in
      ap (λ (k : ℕ). burst k (holding size rate (suc c) now) now) e
      ∙ rw (check_full size rate c now hc hr le)
          (ap (λ rs. ok tt ∷ rs) (burst-holding c n size rate now hc hr (omega arith)))

  -- Of the checks at the instant of its creation a rate limiter passes exactly the first, as many
  -- as its burst size, for a rate and a burst size of 32 bits, over a clock and an f64 that are
  -- exact on such numbers.
  pub burst-new :
      (packets_per_second burst_size n : ℕ) (now : t.Instant)
      → packets_per_second < 2 ^ 32
      → burst_size < 2 ^ 32
      → burst (burst_size + n) (new t packets_per_second burst_size now) now
        ≡ replicate burst_size (ok tt) ++ replicate n (err rate_limit_exceeded)
  unfolding new holding
  burst-new rate size n now hr hc = burst-holding size n size rate now hc hr (omega arith)
