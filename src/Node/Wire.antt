-- ===== src/Node/Wire.antt =====
-- node/src/wire.rs: packets of one outer length.
use cryprq.Base.{ℕ, suc, ◌-◌, ◌<◌, min, List, [], ◌∷◌, ◌++◌, length, take, replicate, All, ◌==◌}
use cryprq.Base.{◌≡◌, refl, ap, ◌∙◌, arith, Option, none, some, if◌then◌else◌, false}
use cryprq.Base.{take-length, take-append}

abbrev pub outer_len : ℕ
outer_len = 1480

unfoldable pub pad_to_1480 : List ℕ → List ℕ
pad_to_1480 plain =
    let len = min (length plain) outer_len in take len plain ++ replicate (outer_len - len) 0

-- `position` of the first zero.
abbrev pub first_zero : List ℕ → Option ℕ
first_zero [] = none
first_zero (b ∷ bs) =
    let later : Option ℕ = elim (first_zero bs) [ none ↦ none | some i ↦ some (suc i) ] in
    if b == 0 then some 0 else later

unfoldable pub unpad : List ℕ → Option (List ℕ)
unpad buf =
    let end : ℕ = elim (first_zero buf) [ none ↦ outer_len | some i ↦ i ] in
    if end == 0 then none else some (take end buf)

-- Where the first zero is behind bytes that are none.
position_lem :
    (bytes : List ℕ) (n : ℕ)
    → All (λ (b : ℕ). (b == 0) ≡ false) bytes
    → first_zero (bytes ++ replicate (suc n) 0) ≡ some (length bytes)
position_lem [] n h = refl
position_lem (b ∷ bs) n h = rw (h.0, position_lem bs n h.1) refl

pad_lem :
    (plain : List ℕ)
    → length plain < outer_len
    → pad_to_1480 plain ≡ plain ++ replicate (suc (outer_len - suc (length plain))) 0
unfolding pad_to_1480
pad_lem plain short =
    let len : min (length plain) outer_len ≡ length plain = omega arith in
    let rest : outer_len - length plain ≡ suc (outer_len - suc (length plain)) = omega arith in
    rw (len, rest, take-length (length plain) plain (omega arith)) refl

unpad_lem :
    (b : ℕ) (bytes : List ℕ) (n : ℕ)
    → All (λ (c : ℕ). (c == 0) ≡ false) (b ∷ bytes)
    → unpad ((b ∷ bytes) ++ replicate (suc n) 0) ≡ some (b ∷ bytes)
unfolding unpad
unpad_lem b bytes n h =
    let here = position_lem (b ∷ bytes) n h in
    let front = take-append (length (b ∷ bytes)) (b ∷ bytes) (replicate (suc n) 0) refl in
    ground (arith, here, front)

-- Bytes that are not zero, fewer than the outer length, come back from their packet.
unpad-pad_to_1480 :
    (b : ℕ) (bytes : List ℕ)
    → All (λ (c : ℕ). (c == 0) ≡ false) (b ∷ bytes)
    → length (b ∷ bytes) < outer_len
    → unpad (pad_to_1480 (b ∷ bytes)) ≡ some (b ∷ bytes)
unpad-pad_to_1480 b bytes h short =
    ap unpad (pad_lem (b ∷ bytes) short)
    ∙ unpad_lem b bytes (outer_len - suc (length (b ∷ bytes))) h
