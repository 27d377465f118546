-- ===== src/Node/Replay/Value.antt =====
-- The bitmap as one number, with the word at index `i` at bits `64 * i` and up.
use cryprq.Base.{
  ℕ, zero, suc, ◌+◌, ◌-◌, ◌*◌, ◌/◌, ◌%◌, ◌^◌, ◌≤◌, ◌<◌, ◌≡◌, refl, sym, ap, ◌∙◌, arith,
}
use cryprq.Base.{List, [], ◌∷◌, length, get_or, set, All}
use cryprq.Base.{pow-add, two_digits-lt}
use cryprq.Base.Bits.{bit_at, bit_at-suc}
use native.Mathlib.Decide.{dec_lt}
use native.Mathlib.Nat.{pow-suc}

abbrev pub IsWord : ℕ → Type 0
IsWord w = w < 2 ^ 64

unfoldable pub value : List ℕ → ℕ
value [] = 0
value (w ∷ ws) = value ws * 2 ^ 64 + w

pub value-lt : (ws : List ℕ) → All IsWord ws → value ws < 2 ^ (64 * length ws)
unfolding value
value-lt [] h = omega arith
value-lt (w ∷ ws) h =
    let width : 64 * suc (length ws) ≡ 64 * length ws + 64 = omega arith in
    rw (width, pow-add 2 (64 * length ws) 64)
      (two_digits-lt (value ws) w (2 ^ (64 * length ws)) (2 ^ 64) (value-lt ws h.1) h.0)

-- A scaled number halves to the same number, scaled once less.
half_scaled : (k v w : ℕ) → (v * 2 ^ suc k + w) / 2 ≡ v * 2 ^ k + w / 2
half_scaled k v w =
    let double : v * 2 ^ suc k ≡ v * 2 ^ k * 2 =
      omega (arith, ap (λ (t : ℕ). v * t) (pow-suc 2 k)) in
    omega arith

-- A lower bit of a sum does not see what is added above it.
pub bit_at-low : (k d v w : ℕ) → d < k → bit_at (v * 2 ^ k + w) d ≡ bit_at w d
bit_at-low zero d v w h = absurd (omega arith)
bit_at-low (suc k) zero v w h =
    let double : v * 2 ^ suc k ≡ v * 2 ^ k * 2 =
      omega (arith, ap (λ (t : ℕ). v * t) (pow-suc 2 k)) in
    omega arith
bit_at-low (suc k) (suc d) v w h =
    bit_at-suc (v * 2 ^ suc k + w) d
    ∙ rw (half_scaled k v w) (bit_at-low k d v (w / 2) (omega arith))
    ∙ sym (bit_at-suc w d)

-- A higher bit sees nothing of what is below.
pub bit_at-high : (k d v w : ℕ) → k ≤ d → w < 2 ^ k → bit_at (v * 2 ^ k + w) d ≡ bit_at v (d - k)
bit_at-high zero d v w h hw =
    let e : v * 2 ^ 0 + w ≡ v = omega arith in let e' : d - 0 ≡ d = omega arith in rw (e, e')
bit_at-high (suc k) zero v w h hw = absurd (omega arith)
bit_at-high (suc k) (suc d) v w h hw =
    let e : suc d - suc k ≡ d - k = omega arith in
    bit_at-suc (v * 2 ^ suc k + w) d
    ∙ rw (half_scaled k v w, e)
        (bit_at-high k d v (w / 2) (omega arith) (omega (arith, pow-suc 2 k)))

pub bit_at-zero : (d : ℕ) → bit_at 0 d ≡ 0
bit_at-zero zero = refl
bit_at-zero (suc d) = bit_at-suc 0 d ∙ bit_at-zero d

-- A bit of the bitmap is a bit of its number.
pub bit_at-value :
    (ws : List ℕ) (d : ℕ)
    → All IsWord ws
    → bit_at (value ws) d ≡ bit_at (get_or ws (d / 64) 0) (d % 64)
unfolding value
bit_at-value [] d h = bit_at-zero d ∙ sym (bit_at-zero (d % 64))
bit_at-value (w ∷ ws) d h = elim (dec_lt d 64) [
  | yes below ↦
      let index : d / 64 ≡ 0 = omega arith in
      let bit : d % 64 ≡ d = omega arith in rw (index, bit) (bit_at-low 64 d (value ws) w below)
  | no above ↦
      let index : d / 64 ≡ suc ((d - 64) / 64) = omega arith in
      let bit : d % 64 ≡ (d - 64) % 64 = omega arith in
      rw (index, bit)
        (bit_at-high 64 d (value ws) w (omega arith) h.0 ∙ bit_at-value ws (d - 64) h.1)
]

-- A word that grows by `t` adds `t` at its place.
pub value-set :
    (ws : List ℕ) (i t : ℕ)
    → i < length ws
    → value (set ws i (get_or ws i 0 + t)) ≡ value ws + t * 2 ^ (64 * i)
unfolding value
value-set [] i t h = absurd (omega arith)
value-set (w ∷ ws) zero t h = omega arith
value-set (w ∷ ws) (suc i) t h =
    let width : 64 * suc i ≡ 64 * i + 64 = omega arith in
    let scaled : 2 ^ (64 * suc i) ≡ 2 ^ (64 * i) * 2 ^ 64 =
      ap (λ (k : ℕ). 2 ^ k) width ∙ pow-add 2 (64 * i) 64 in
    omega (arith, value-set ws i t (omega arith), ap (λ (s : ℕ). t * s) scaled)
