-- ===== src/Base/Bits/Digits.antt =====
-- One binary digit of `bit_and`, `bit_or` and `bit_xor`: the recursion that they stand for, with
-- its count of digits taken away.
use Prim.Native.Nat.{ℕ, zero, suc, ◌+◌, ◌*◌, ◌/◌, ◌%◌, ◌≤◌, min, max, bit_and, bit_or, bit_xor}
use Prim.Native.Nat.{digits, differ, bitwise, bit_and-bitwise, bit_or-bitwise, bit_xor-bitwise}
use mathlib.Core.Path.{◌≡◌, refl}
use native.Mathlib.Omega.{arith}

module _ (out : ℕ → ℕ) (op : ℕ → ℕ → ℕ) where
  -- Any count that is at least the first number gives the same digits.
  enough : (k x y : ℕ) → x ≤ k → digits out op k x y ≡ bitwise out op x y
  enough k x y h = by_count k x x y h (omega arith)
    where
      by_count : (k l x y : ℕ) → x ≤ k → x ≤ l → digits out op k x y ≡ digits out op l x y
      by_count zero zero x y hk hl = refl
      by_count zero (suc l) zero y hk hl = refl
      by_count zero (suc l) (suc x) y hk hl = absurd (omega arith)
      by_count (suc k) zero zero y hk hl = refl
      by_count (suc k) zero (suc x) y hk hl = absurd (omega arith)
      by_count (suc k) (suc l) zero y hk hl = refl
      by_count (suc k) (suc l) (suc x) y hk hl =
          rw (by_count k l (suc x / 2) (y / 2) (omega arith) (omega arith))

  last_digit :
      (x y : ℕ)
      → bitwise out op (suc x) y ≡ bitwise out op (suc x / 2) (y / 2) * 2 + op (suc x % 2) (y % 2)
  last_digit x y = rw (enough x (suc x / 2) (y / 2) (omega arith))

pub bit_and_digit : (x y : ℕ) → bit_and x y ≡ bit_and (x / 2) (y / 2) * 2 + min (x % 2) (y % 2)
bit_and_digit zero y = simp bit_and-bitwise (omega arith)
bit_and_digit (suc x) y = simp bit_and-bitwise (last_digit (λ b. 0) min x y)

pub bit_or_digit : (x y : ℕ) → bit_or x y ≡ bit_or (x / 2) (y / 2) * 2 + max (x % 2) (y % 2)
bit_or_digit zero y = simp bit_or-bitwise (omega arith)
bit_or_digit (suc x) y = simp bit_or-bitwise (last_digit (λ b. b) max x y)

pub bit_xor_digit : (x y : ℕ) → bit_xor x y ≡ bit_xor (x / 2) (y / 2) * 2 + differ (x % 2) (y % 2)
bit_xor_digit zero y = simp bit_xor-bitwise (omega arith)
bit_xor_digit (suc x) y = simp bit_xor-bitwise (last_digit (λ b. b) differ x y)
