-- ===== src/Base/Bytes.antt =====
-- `to_be_bytes` and `from_be_bytes` of the unsigned integers, at every width; byte literals.
use Prim.Native.Char.{code}
use Prim.Native.String.{String}
use Prim.Native.Nat.{ℕ, zero, suc, ◌+◌, ◌*◌, ◌/◌, ◌%◌, ◌^◌, ◌<◌, ◌≤◌}
use mathlib.Core.Path.{◌≡◌, refl, ap, ap₂, sym, ◌∙◌}
use mathlib.Core.List.{List, [], ◌∷◌}
use native.Mathlib.Nat.{pow-succ', one-le-pow, mod-eq_of_lt, mul-add-div_right, pow-le-pow_right}
use native.Mathlib.Omega.{arith}
use cryprq.Base.Lists.{length, get_or, All, take, length-take, All-take}
use cryprq.Base.Numbers.{mod-mul, div_of_sum, two_digits-lt}

-- The bytes of a literal.
abbrev pub bytes_of : String → List ℕ
bytes_of String.[] = []
bytes_of (String.◌∷◌ c s) = code c ∷ bytes_of s

abbrev pub IsByte : ℕ → Type 0
IsByte b = b < 256

abbrev pub IsBytes : List ℕ → Type 0
IsBytes = All IsByte

-- The lowest `w` bytes of `n`, highest first.
abbrev pub to_be_bytes : ℕ → ℕ → List ℕ
to_be_bytes zero n = []
to_be_bytes (suc w) n = (n / 256 ^ w % 256) ∷ to_be_bytes w n

abbrev pub from_be : ℕ → List ℕ → ℕ
from_be acc [] = acc
from_be acc (b ∷ bs) = from_be (acc * 256 + b) bs

abbrev pub from_be_bytes : List ℕ → ℕ
from_be_bytes bs = from_be 0 bs

pub length-to_be_bytes : (w n : ℕ) → length (to_be_bytes w n) ≡ w
length-to_be_bytes zero n = refl
length-to_be_bytes (suc w) n = ap suc (length-to_be_bytes w n)

to_be_bytes-IsBytes : (w n : ℕ) → IsBytes (to_be_bytes w n)
to_be_bytes-IsBytes zero n = tt
to_be_bytes-IsBytes (suc w) n = (omega arith, to_be_bytes-IsBytes w n)

from_be-to_be_bytes : (w acc n : ℕ) → from_be acc (to_be_bytes w n) ≡ acc * 256 ^ w + n % 256 ^ w
from_be-to_be_bytes zero acc n = omega arith
from_be-to_be_bytes (suc w) acc n = omega (
  arith,
  from_be-to_be_bytes w (acc * 256 + n / 256 ^ w % 256) n,
  pow-succ' 256 w,
  ap (λ (t : ℕ). acc * t) (pow-succ' 256 w),
  ap (λ (t : ℕ). n % t) (pow-succ' 256 w),
  mod-mul n 256 (256 ^ w) (omega arith) (one-le-pow w 256 (omega arith)),
)

-- Reading back what was written: the value itself, where it fits the width.
pub from-to_be_bytes : (w n : ℕ) → n < 256 ^ w → from_be_bytes (to_be_bytes w n) ≡ n
from-to_be_bytes w n h = omega (arith, from_be-to_be_bytes w 0 n, mod-eq_of_lt h)

from_be-lt : (bs : List ℕ) (acc m : ℕ) → IsBytes bs → acc < m → from_be acc bs < m * 256 ^ length bs
from_be-lt [] acc m h lt = omega arith
from_be-lt (b ∷ bs) acc m h lt = omega (
  arith,
  from_be-lt bs (acc * 256 + b) (m * 256) h.1 (two_digits-lt acc b m 256 lt h.0),
  ap (λ (t : ℕ). m * t) (pow-succ' 256 (length bs)),
)

from_be_head : (b : ℕ) (bs : List ℕ) → from_be (0 * 256 + b) bs ≡ from_be b bs
from_be_head b bs = ap (λ (t : ℕ). from_be t bs) (omega arith)

-- The value that the bytes behind an accumulator add to it.
from_be-split : (bs : List ℕ) (acc : ℕ) → from_be acc bs ≡ acc * 256 ^ length bs + from_be_bytes bs
from_be-split [] acc = omega arith
from_be-split (b ∷ bs) acc = omega (
  arith,
  from_be-split bs (acc * 256 + b),
  from_be-split bs b,
  from_be_head b bs,
  ap (λ (t : ℕ). acc * t) (pow-succ' 256 (length bs)),
)

-- Only the low bytes of a number matter.
to_be_bytes-add : (w n q : ℕ) → to_be_bytes w (q * 256 ^ w + n) ≡ to_be_bytes w n
to_be_bytes-add zero n q = refl
to_be_bytes-add (suc w) n q =
    let e : q * 256 ^ suc w ≡ q * 256 * 256 ^ w =
      omega (arith, ap (λ (t : ℕ). q * t) (pow-succ' 256 w)) in
    let pos : 0 < 256 ^ w = one-le-pow w 256 (omega arith) in
    let digit : (q * 256 * 256 ^ w + n) / 256 ^ w % 256 ≡ n / 256 ^ w % 256 =
      omega (arith, mul-add-div_right pos (q * 256) n) in
    rw e (ap₂ ◌∷◌ digit (to_be_bytes-add w n (q * 256)))

-- Bytes that are read and written back are the same bytes.
to-from_be_bytes : (bs : List ℕ) → IsBytes bs → to_be_bytes (length bs) (from_be_bytes bs) ≡ bs
to-from_be_bytes [] h = refl
to-from_be_bytes (b ∷ bs) h =
    rw (from_be_head b bs, from_be-split bs b)
      (ap₂ ◌∷◌ digit (to_be_bytes-add (length bs) (from_be_bytes bs) b ∙ to-from_be_bytes bs h.1))
  where
    rest : from_be_bytes bs < 256 ^ length bs
    rest = omega (arith, from_be-lt bs 0 1 h.1 (omega arith))

    digit : (b * 256 ^ length bs + from_be_bytes bs) / 256 ^ length bs % 256 ≡ b
    digit = omega (arith, div_of_sum _ b (from_be_bytes bs) (256 ^ length bs) refl rest, h.0)

-- A field of a longer string, read and written back.
pub to-from_be_bytes-take :
    (w : ℕ) (xs : List ℕ)
    → IsBytes xs
    → w ≤ length xs
    → to_be_bytes w (from_be_bytes (take w xs)) ≡ take w xs
to-from_be_bytes-take w xs h long =
    let e : length (take w xs) ≡ w = omega (arith, length-take w xs) in
    ap (λ (k : ℕ). to_be_bytes k (from_be_bytes (take w xs))) (sym e)
    ∙ to-from_be_bytes (take w xs) (All-take IsByte w xs h)

-- The value of at most `w` bytes fits `w` bytes.
pub from_be_bytes-take-lt : (w : ℕ) (xs : List ℕ) → IsBytes xs → from_be_bytes (take w xs) < 256 ^ w
from_be_bytes-take-lt w xs h =
    let short : length (take w xs) ≤ w = omega (arith, length-take w xs) in
    let whole = from_be-lt (take w xs) 0 1 (All-take IsByte w xs h) (omega arith) in
    omega (arith, whole, pow-le-pow_right {n = 256} (omega arith) short)

pub IsBytes-get_or : (xs : List ℕ) (i : ℕ) → IsBytes xs → get_or xs i 0 < 256
IsBytes-get_or [] i h = omega arith
IsBytes-get_or (x ∷ xs) zero h = h.0
IsBytes-get_or (x ∷ xs) (suc i) h = IsBytes-get_or xs i h.1
