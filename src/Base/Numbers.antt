-- ===== src/Base/Numbers.antt =====
-- Powers and well-founded recursion on the native numbers.
use Prim.Native.Nat.{ℕ, zero, suc, ◌+◌, ◌-◌, ◌*◌, ◌/◌, ◌%◌, ◌^◌, ◌≤◌, ◌<◌}
use mathlib.Core.Path.{◌≡◌, ap, ◌∙◌, sym}
use mathlib.Core.WellFounded.{Acc, WellFounded}
use native.Mathlib.Nat.{
  pow-zero, pow-suc, one-le-pow, mul_assoc, add-zero, mul-one, div-add-mod, mod-lt, mod-eq_of_lt,
  mul-add-mod_self_right, mul-add-div_right, div-eq_of_lt,
}
use native.Mathlib.Omega.{arith}

Acc-below : (k n : ℕ) → n < k → Acc ◌<◌ n
Acc-below zero n h = elim h [ ]
Acc-below (suc k) n h = Acc.intro n (λ m hm. Acc-below k m (omega arith))

lt_wf : WellFounded ◌<◌
lt_wf = record { apply = λ n. Acc-below (suc n) n (omega arith) }

pub pow-add : (b m n : ℕ) → b ^ (m + n) ≡ b ^ m * b ^ n
pow-add b m zero = rw (add-zero, pow-zero) (sym (mul-one (b ^ m)))
pow-add b m (suc n) =
    let e : m + suc n ≡ suc (m + n) = omega arith in
    rw (e, pow-suc b (m + n), pow-suc b n, pow-add b m n) (mul_assoc (b ^ m) (b ^ n) b)

pub pow_split : (b m n : ℕ) → n ≤ m → b ^ m ≡ b ^ (m - n) * b ^ n
pow_split b m n h =
    let e : m ≡ (m - n) + n = omega arith in ap (λ (t : ℕ). b ^ t) e ∙ pow-add b (m - n) n

pub pow_pos : (k : ℕ) → 0 < 2 ^ k
pow_pos k = one-le-pow k 2 (omega arith)

-- `x` is the remainder of `q * d + x` by `d`, and `q` the quotient.
pub mod_of_sum : (n q x d : ℕ) → n ≡ q * d + x → x < d → n % d ≡ x
mod_of_sum n q x d e h = rw e (mul-add-mod_self_right q d x ∙ mod-eq_of_lt h)

pub div_of_sum : (n q x d : ℕ) → n ≡ q * d + x → x < d → n / d ≡ q
div_of_sum n q x d e h =
    let pos : 0 < d = omega arith in rw (e, mul-add-div_right pos q x, div-eq_of_lt h) (add-zero q)

-- A number below `a`, scaled by `b`, and one below `b`.
pub two_digits-lt : (x y a b : ℕ) → x < a → y < b → x * b + y < a * b
two_digits-lt x y a b hx hy = grind arith

-- The remainder by a product, in two digits.
pub mod-mul : (n a b : ℕ) → 0 < a → 0 < b → n % (a * b) ≡ n / b % a * b + n % b
mod-mul n a b ha hb =
    mod_of_sum n (n / b / a) (n / b % a * b + n % b) (a * b) split
      (two_digits-lt (n / b % a) (n % b) a b (mod-lt (n / b) ha) (mod-lt n hb))
  where
    split : n ≡ n / b / a * (a * b) + (n / b % a * b + n % b)
    split = omega (arith, div-add-mod n b, ap (λ (t : ℕ). t * b) (div-add-mod (n / b) a))

-- A remainder scaled by `c` is a remainder by the scaled modulus.
pub mod_scaled : (n a c : ℕ) → 0 < a → 0 < c → n * c % (a * c) ≡ n % a * c
mod_scaled n a c ha hc =
    mod_of_sum (n * c) (n / a) (n % a * c) (a * c)
      (omega (arith, ap (λ (t : ℕ). t * c) (div-add-mod n a)))
      (omega (arith, two_digits-lt (n % a) 0 a c (mod-lt n ha) hc))

-- A remainder may be taken before a product too.
pub mod-mul-mod : (n c m : ℕ) → n % m * c % m ≡ n * c % m
mod-mul-mod n c m =
    let split : n * c ≡ n / m * c * m + n % m * c =
      omega (arith, ap (λ (t : ℕ). t * c) (div-add-mod n m)) in
    sym (ap (λ (t : ℕ). t % m) split ∙ mul-add-mod_self_right (n / m * c) m (n % m * c))
