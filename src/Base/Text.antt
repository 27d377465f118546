-- ===== src/Base/Text.antt =====
-- Texts as bytes: `str::split` and the `parse` of the unsigned integers.
use Prim.Native.Nat.{ℕ, zero, suc, ◌+◌, ◌-◌, ◌*◌, ◌/◌, ◌%◌}
use mathlib.Core.Bool.{◌&&◌}
use mathlib.Core.List.{List, [], ◌∷◌, ◌++◌}
use mathlib.Core.Option.{Option, none, some}
use cryprq.Base.Tests.{leb, ◌==◌, if◌then◌else◌}

abbrev pub prepend : ℕ → List (List ℕ) → List (List ℕ)
prepend c [] = (c ∷ []) ∷ []
prepend c (part ∷ parts) = (c ∷ part) ∷ parts

-- The parts between the separators.
abbrev pub split : ℕ → List ℕ → List (List ℕ)
split separator [] = [] ∷ []
split separator (c ∷ cs) =
    let parts = split separator cs in if c == separator then [] ∷ parts else prepend c parts

-- Decimal digits behind a value, up to a largest value.
abbrev pub digits : ℕ → ℕ → List ℕ → Option ℕ
digits largest value [] = some value
digits largest value (c ∷ cs) =
    let value' = value * 10 + (c - 0x30) in
    let rest = digits largest value' cs in
    if leb 0x30 c && leb c 0x39 && leb value' largest then rest else none

abbrev pub number : ℕ → List ℕ → Option ℕ
number largest [] = none
number largest (c ∷ cs) = digits largest 0 (c ∷ cs)

-- `parse` of an unsigned integer with this largest value: a sign `+` may stand in front.
unfoldable pub parse_decimal : ℕ → List ℕ → Option ℕ
parse_decimal largest [] = none
parse_decimal largest (c ∷ cs) = if c == 0x2b then number largest cs else number largest (c ∷ cs)

-- The digits of a number, with fuel: as many digits as it may have.
unfoldable pub decimal_digits : ℕ → ℕ → List ℕ
decimal_digits zero n = []
decimal_digits (suc fuel) n =
    let rest = decimal_digits fuel (n / 10) in
    if leb n 9 then (0x30 + n) ∷ [] else rest ++ ((0x30 + n % 10) ∷ [])

-- `to_string` of an unsigned integer of at most 64 bits, which has at most 20 digits.
abbrev pub decimal : ℕ → List ℕ
decimal n = decimal_digits 20 n
