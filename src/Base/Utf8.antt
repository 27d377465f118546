-- ===== src/Base/Utf8.antt =====
-- `String::from_utf8`: a string is its bytes, which have to be well-formed UTF-8 (Unicode, Table 3-7).
use Prim.Native.Nat.{ℕ, zero, suc}
use mathlib.Core.Bool.{Bool, true, false, ◌&&◌}
use mathlib.Core.Option.{Option, none, some}
use mathlib.Core.List.{List, [], ◌∷◌}
use cryprq.Base.Tests.{leb, if◌then◌else◌}

abbrev pub in_range : ℕ → ℕ → ℕ → Bool
in_range lo hi b = leb lo b && leb b hi

-- Of a first byte: how many bytes follow it, and the range of the next one.
abbrev pub continuation : ℕ → Option (ℕ × (ℕ × ℕ))
continuation b =
    if leb b 0x7f
    then some (0, (0, 0))
    else if in_range 0xc2 0xdf b
    then some (1, (0x80, 0xbf))
    else if leb b 0xe0 && leb 0xe0 b
    then some (2, (0xa0, 0xbf))
    else if leb b 0xed && leb 0xed b
    then some (2, (0x80, 0x9f))
    else if in_range 0xe1 0xef b
    then some (2, (0x80, 0xbf))
    else if leb b 0xf0 && leb 0xf0 b
    then some (3, (0x90, 0xbf))
    else if in_range 0xf1 0xf3 b
    then some (3, (0x80, 0xbf))
    else if leb b 0xf4 && leb 0xf4 b
    then some (3, (0x80, 0x8f))
    else none

-- The bytes still owed to the current character, the range of the next of them, and the input.
abbrev pub scan : ℕ → ℕ → ℕ → List ℕ → Bool
scan zero lo hi [] = true
scan (suc n) lo hi [] = false
scan zero lo hi (b ∷ bs) = elim (continuation b) [
  | none ↦ false
  | some (n, (lo', hi')) ↦ scan n lo' hi' bs
]
scan (suc n) lo hi (b ∷ bs) = in_range lo hi b && scan n 0x80 0xbf bs

unfoldable pub is_utf8 : List ℕ → Bool
is_utf8 bs = scan 0 0 0 bs
