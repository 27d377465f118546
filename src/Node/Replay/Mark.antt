-- ===== src/Node/Replay/Mark.antt =====
-- Testing and marking a bit of the bitmap, and the bits after a slide.
use Prim.Native.Nat.{bit_or}
use cryprq.Base.{ℕ, zero, suc, ◌+◌, ◌-◌, ◌*◌, ◌/◌, ◌%◌, ◌^◌, ◌<◌, ◌≡◌, ◌↔◌, sym, ap, ◌∙◌, arith}
use cryprq.Base.{
  List, [], ◌∷◌, length, get_or, set, All, true, length-set, pow-add, pow_pos, ltb, if◌then◌else◌,
  ◌==◌,
}
use cryprq.Base.Bits.{bit_at, bit_at-suc, bit_and_power, bit_or_power}
use native.Mathlib.Nat.{pow-suc, mul_comm, div-add-mod}
use cryprq.Node.Replay.{mark, is_marked, slide}
use cryprq.Node.Replay.Value.{
  IsWord, value, bit_at-value, value-set, bit_at-low, bit_at-high, bit_at-zero,
}
use cryprq.Node.Replay.Slide.{IsBitmap, slide-value}

-- The test reads the bit of the number.
pub is_marked-bit_at :
    (d : ℕ) (ws : List ℕ)
    → All IsWord ws
    → (is_marked (d / 64) (d % 64) ws ≡ true) ↔ (bit_at (value ws) d ≡ 1)
unfolding is_marked
is_marked-bit_at d ws h =
    ground
      (arith, bit_and_power (d % 64) (get_or ws (d / 64) 0), bit_at-value ws d h, pow_pos (d % 64))

same_parity : (x d : ℕ) → bit_at (x + 2 ^ suc d) 0 ≡ bit_at x 0
same_parity x d = omega (arith, pow-suc 2 d)

-- A bit added where there was none.
pub bit_at-add :
    (x d j : ℕ) → bit_at x d ≡ 0 → bit_at (x + 2 ^ d) j ≡ (if j == d then 1 else bit_at x j)
bit_at-add x zero zero c = omega arith
bit_at-add x zero (suc j) c =
    let half : (x + 1) / 2 ≡ x / 2 = omega arith in
    ground (arith, bit_at-suc (x + 1) j ∙ ap (λ (t : ℕ). bit_at t j) half, bit_at-suc x j)
bit_at-add x (suc d) zero c = ground (arith, same_parity x d)
bit_at-add x (suc d) (suc j) c =
    let half : (x + 2 ^ suc d) / 2 ≡ x / 2 + 2 ^ d = omega (arith, pow-suc 2 d) in
    ground (
      arith,
      bit_at-suc (x + 2 ^ suc d) j ∙ ap (λ (t : ℕ). bit_at t j) half,
      bit_at-suc x j,
      bit_at-add (x / 2) d j (sym (bit_at-suc x d) ∙ c),
    )

module _ (index bit : ℕ) (ws : List ℕ) (words : All IsWord ws) (inside : index < length ws)
    (small : bit < 64) (clear : bit_at (get_or ws index 0) bit ≡ 0) where
  grown : bit_or (get_or ws index 0) (2 ^ bit) ≡ get_or ws index 0 + 2 ^ bit
  grown = bit_or_power bit (get_or ws index 0) clear

  -- Marking a clear bit adds it to the number.
  pub mark-value : value (mark index bit ws) ≡ value ws + 2 ^ (64 * index + bit)
  unfolding mark
  mark-value =
      rw (grown, value-set ws index (2 ^ bit) inside)
        (ap (λ (t : ℕ). value ws + t)
          (mul_comm (2 ^ bit) (2 ^ (64 * index)) ∙ sym (pow-add 2 (64 * index) bit)))

length-mark : (index bit : ℕ) (ws : List ℕ) → length (mark index bit ws) ≡ length ws
unfolding mark
length-mark index bit ws = length-set ws index _

All-set : (ws : List ℕ) (i v : ℕ) → All IsWord ws → IsWord v → All IsWord (set ws i v)
All-set [] i v h hv = tt
All-set (w ∷ ws) zero v h hv = (hv, h.1)
All-set (w ∷ ws) (suc i) v h hv = (h.0, All-set ws i v h.1 hv)

-- A clear bit of a word leaves room for it.
bit_at-room : (k b w : ℕ) → b < k → w < 2 ^ k → bit_at w b ≡ 0 → w + 2 ^ b < 2 ^ k
bit_at-room zero b w hb hw c = absurd (omega arith)
bit_at-room (suc k) zero w hb hw c = omega (arith, pow-suc 2 k)
bit_at-room (suc k) (suc b) w hb hw c = omega (
  arith,
  pow-suc 2 k,
  pow-suc 2 b,
  bit_at-room k b (w / 2) (omega arith) (omega (arith, pow-suc 2 k)) (sym (bit_at-suc w b) ∙ c),
)

get_or-IsWord : (ws : List ℕ) (i : ℕ) → All IsWord ws → IsWord (get_or ws i 0)
get_or-IsWord [] i h = omega arith
get_or-IsWord (w ∷ ws) zero h = h.0
get_or-IsWord (w ∷ ws) (suc i) h = get_or-IsWord ws i h.1

pub mark-IsBitmap :
    (index bit : ℕ) (ws : List ℕ)
    → IsBitmap ws
    → bit < 64
    → bit_at (get_or ws index 0) bit ≡ 0
    → IsBitmap (mark index bit ws)
unfolding mark
mark-IsBitmap index bit ws v small clear =
    let w : ℕ = get_or ws index 0 in
    record {
      words = All-set ws index (bit_or w (2 ^ bit)) v.words (
          rw (bit_or_power bit w clear)
            (bit_at-room 64 bit w small (get_or-IsWord ws index v.words) clear));
      count = length-set ws index (bit_or w (2 ^ bit)) ∙ v.count;
    }

-- A remainder by `2 ^ n` keeps the lowest `n` bits.
bit_at-mod : (n x j : ℕ) → j < n → bit_at (x % 2 ^ n) j ≡ bit_at x j
bit_at-mod n x j h =
    let split : x / 2 ^ n * 2 ^ n + x % 2 ^ n ≡ x = omega (arith, div-add-mod x (2 ^ n)) in
    sym (bit_at-low n j (x / 2 ^ n) (x % 2 ^ n) h) ∙ ap (λ (t : ℕ). bit_at t j) split

bit_at-scaled : (x k j : ℕ) → bit_at (x * 2 ^ k) j ≡ (if ltb j k then 0 else bit_at x (j - k))
bit_at-scaled x k j =
    let plain : x * 2 ^ k + 0 ≡ x * 2 ^ k = omega arith in
    ground (
      arith,
      ap (λ (t : ℕ). bit_at t j) plain,
      bit_at-low k j x 0,
      bit_at-zero j,
      bit_at-high k j x 0,
      pow_pos k,
    )

-- Bit `j` after a slide by `diff` is bit `j - diff` before it; the lowest `diff` bits are clear.
pub bit_at-slide :
    (diff j : ℕ) (ws : List ℕ)
    → IsBitmap ws
    → j < 2048
    → bit_at (value (slide diff ws)) j ≡ (if ltb j diff then 0 else bit_at (value ws) (j - diff))
bit_at-slide diff j ws v h =
    ap (λ (t : ℕ). bit_at t j) (slide-value diff ws v)
    ∙ bit_at-mod (64 * length ws) (value ws * 2 ^ diff) j (omega (arith, v.count))
    ∙ bit_at-scaled (value ws) diff j
