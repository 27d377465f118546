-- ===== src/Base/Bits.antt =====
-- Bit operations on machine words at variables, and the bit of a number at a position.
mod Digits
use Digits.{bit_and_digit, bit_or_digit, bit_xor_digit}
use Prim.Native.Nat.{
  ℕ, zero, suc, ◌+◌, ◌*◌, ◌/◌, ◌%◌, ◌^◌, ◌≤◌, ◌<◌, bit_and, bit_or, bit_xor, differ,
  bit_and-bitwise, bit_or-bitwise, bit_xor-bitwise,
}
use mathlib.Core.Path.{◌≡◌, refl, ap, ◌∙◌, sym}
use native.Mathlib.Omega.{arith}
use native.Mathlib.Nat.{pow-suc, div-div-eq-div-mul}

-- The bit of `n` at position `k`.
abbrev pub bit_at : ℕ → ℕ → ℕ
bit_at n k = n / 2 ^ k % 2

pub bit_at-suc : (n k : ℕ) → bit_at n (suc k) ≡ bit_at (n / 2) k
bit_at-suc n k =
    let e : 2 ^ suc k ≡ 2 * 2 ^ k = omega (arith, pow-suc 2 k) in
    rw (e, div-div-eq-div-mul n 2 (2 ^ k))

differ-lt : (a b : ℕ) → a < 2 → b < 2 → differ a b < 2
differ-lt zero b ha hb = hb
differ-lt (suc zero) zero ha hb = omega arith
differ-lt (suc zero) (suc zero) ha hb = omega arith
differ-lt (suc zero) (suc (suc b)) ha hb = absurd (omega arith)
differ-lt (suc (suc a)) b ha hb = absurd (omega arith)

differ_cancel : (a b : ℕ) → a < 2 → b < 2 → differ a (differ a b) ≡ b
differ_cancel zero b ha hb = refl
differ_cancel (suc zero) zero ha hb = refl
differ_cancel (suc zero) (suc zero) ha hb = refl
differ_cancel (suc zero) (suc (suc b)) ha hb = absurd (omega arith)
differ_cancel (suc (suc a)) b ha hb = absurd (omega arith)

-- `k` counts the steps of the induction on `x / 2`.
bit_xor_cancel_count : (k x y : ℕ) → x ≤ k → bit_xor x (bit_xor x y) ≡ y
bit_xor_cancel_count k zero y h = simp bit_xor-bitwise
bit_xor_cancel_count zero (suc x) y h = absurd (omega arith)
bit_xor_cancel_count (suc k) (suc x) y h =
    let a : ℕ = suc x % 2 in
    let b : ℕ = y % 2 in
    let low : differ a b < 2 = differ-lt a b (omega arith) (omega arith) in
    let whole : bit_xor (suc x) y ≡ bit_xor (suc x / 2) (y / 2) * 2 + differ a b =
      bit_xor_digit (suc x) y in
    let half : bit_xor (suc x) y / 2 ≡ bit_xor (suc x / 2) (y / 2) = omega arith in
    let last : bit_xor (suc x) y % 2 ≡ differ a b = omega arith in
    bit_xor_digit (suc x) (bit_xor (suc x) y)
    ∙ rw
        (
          half,
          last,
          bit_xor_cancel_count k (suc x / 2) (y / 2) (omega arith),
          differ_cancel a b (omega arith) (omega arith),
        )
        (omega arith)

-- `x ^ (x ^ y)` is `y`.
pub bit_xor_cancel : (x y : ℕ) → bit_xor x (bit_xor x y) ≡ y
bit_xor_cancel x y = bit_xor_cancel_count x x y (omega arith)

bit_xor-lt : (k x y : ℕ) → x < 2 ^ k → y < 2 ^ k → bit_xor x y < 2 ^ k
bit_xor-lt zero zero y hx hy = simp bit_xor-bitwise hy
bit_xor-lt zero (suc x) y hx hy = absurd (omega arith)
bit_xor-lt (suc k) x y hx hy = omega (
  arith,
  pow-suc 2 k,
  bit_xor_digit x y,
  differ-lt (x % 2) (y % 2) (omega arith) (omega arith),
  bit_xor-lt k (x / 2) (y / 2) (omega (arith, pow-suc 2 k)) (omega (arith, pow-suc 2 k)),
)

bit_and-zero_count : (k x : ℕ) → x ≤ k → bit_and x 0 ≡ 0
bit_and-zero_count k zero h = simp bit_and-bitwise
bit_and-zero_count zero (suc x) h = absurd (omega arith)
bit_and-zero_count (suc k) (suc x) h =
    omega (arith, bit_and_digit (suc x) 0, bit_and-zero_count k (suc x / 2) (omega arith))

bit_or-zero_count : (k x : ℕ) → x ≤ k → bit_or x 0 ≡ x
bit_or-zero_count k zero h = simp bit_or-bitwise
bit_or-zero_count zero (suc x) h = absurd (omega arith)
bit_or-zero_count (suc k) (suc x) h =
    omega (arith, bit_or_digit (suc x) 0, bit_or-zero_count k (suc x / 2) (omega arith))

bit_and-zero : (x : ℕ) → bit_and x 0 ≡ 0
bit_and-zero x = bit_and-zero_count x x (omega arith)

bit_or-zero : (x : ℕ) → bit_or x 0 ≡ x
bit_or-zero x = bit_or-zero_count x x (omega arith)

-- `x & (1 << k)`
pub bit_and_power : (k x : ℕ) → bit_and x (2 ^ k) ≡ bit_at x k * 2 ^ k
bit_and_power zero x = omega (arith, bit_and_digit x 1, bit_and-zero (x / 2))
bit_and_power (suc k) x =
    let double : 2 ^ suc k ≡ 2 ^ k * 2 = pow-suc 2 k in
    let half : 2 ^ suc k / 2 ≡ 2 ^ k = omega arith in
    bit_and_digit x (2 ^ suc k)
    ∙ rw (half, bit_and_power k (x / 2), bit_at-suc x k)
        (omega (arith, ap (λ (t : ℕ). bit_at (x / 2) k * t) double))

-- `x | (1 << k)`, where the bit is clear.
pub bit_or_power : (k x : ℕ) → bit_at x k ≡ 0 → bit_or x (2 ^ k) ≡ x + 2 ^ k
bit_or_power zero x c = omega (arith, bit_or_digit x 1, bit_or-zero (x / 2))
bit_or_power (suc k) x c =
    let double : 2 ^ suc k ≡ 2 ^ k * 2 = pow-suc 2 k in
    let half : 2 ^ suc k / 2 ≡ 2 ^ k = omega arith in
    bit_or_digit x (2 ^ suc k)
    ∙ rw (half, bit_or_power k (x / 2) (sym (bit_at-suc x k) ∙ c)) (omega arith)

-- `(q << k) | r`, where `r` fits below.
pub bit_or_fields : (k q r : ℕ) → r < 2 ^ k → bit_or (q * 2 ^ k) r ≡ q * 2 ^ k + r
bit_or_fields zero q r hr = let e : r ≡ 0 = omega arith in rw e (bit_or-zero (q * 1) ∙ omega arith)
bit_or_fields (suc k) q r hr =
    let double : q * 2 ^ suc k ≡ q * 2 ^ k * 2 =
      omega (arith, ap (λ (t : ℕ). q * t) (pow-suc 2 k)) in
    let half : q * 2 ^ suc k / 2 ≡ q * 2 ^ k = omega arith in
    bit_or_digit (q * 2 ^ suc k) r
    ∙ rw (half, bit_or_fields k q (r / 2) (omega (arith, pow-suc 2 k))) (omega arith)
