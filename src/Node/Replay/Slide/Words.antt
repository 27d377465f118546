-- ===== src/Node/Replay/Slide/Words.antt =====
-- Moving the bitmap up by whole words scales its number.
use cryprq.Base.{
  ℕ, zero, suc, ◌+◌, ◌-◌, ◌*◌, ◌%◌, ◌^◌, ◌≤◌, ◌<◌, ◌≡◌, refl, sym, ap, ◌∙◌, subst, arith,
}
use cryprq.Base.{List, [], ◌∷◌, ◌++◌, length, get_or, set, take, drop, replicate, All}
use cryprq.Base.{
  length-append, length-take, length-set, length-replicate, take-append-drop, take-length,
}
use cryprq.Base.{
  take-set, drop-set, take-suc, set-append, All-take, All-append, drop-length, lt→ltb,
}
use cryprq.Base.{pow-add, pow_pos, mod_of_sum, mod_scaled}
use mathlib.Core.List.{append_assoc, append-nil}
use cryprq.Node.Replay.{copy_up, clear_low, shift_words}
use cryprq.Node.Replay.Value.{IsWord, value, value-lt}

-- The `rounds` lowest words are copied up by `words` places, the lowest `words` stay.
copy_up_lem :
    (rounds words : ℕ) (ws : List ℕ)
    → words + rounds ≤ length ws
    → copy_up rounds words ws ≡ take words ws ++ (take rounds ws ++ drop (words + rounds) ws)
unfolding copy_up
copy_up_lem zero words ws h =
    let e : words + 0 ≡ words = omega arith in rw e (sym (take-append-drop words ws))
copy_up_lem (suc rounds) words ws h =
    copy_up_lem rounds words ws' (omega (arith, length-set ws (words + rounds) v))
    ∙ rw
        (
          take-set words ws (words + rounds) v (omega arith),
          take-set rounds ws (words + rounds) v (omega arith),
          drop-set ws (words + rounds) v (omega arith),
        )
        (ap (λ t. take words ws ++ t) regroup)
  where
    v : ℕ
    v = get_or ws rounds 0

    ws' : List ℕ
    ws' = set ws (words + rounds) v

    next : words + suc rounds ≡ suc (words + rounds)
    next = omega arith

    regroup :
        take rounds ws ++ (v ∷ drop (suc (words + rounds)) ws)
        ≡ take (suc rounds) ws ++ drop (words + suc rounds) ws
    regroup =
        rw (next, take-suc rounds ws 0 (omega arith))
          (sym (append_assoc (take rounds ws) (v ∷ []) (drop (suc (words + rounds)) ws)))

-- The words from index `i` on are cleared, those before and behind stay.
clear_low_lem :
    (xs ys passed : List ℕ) (i : ℕ)
    → length passed ≡ i
    → clear_low (length xs) i (passed ++ (xs ++ ys)) ≡ passed ++ (replicate (length xs) 0 ++ ys)
unfolding clear_low
clear_low_lem [] ys passed i h = refl
clear_low_lem (x ∷ xs) ys passed i h =
    ap (clear_low (length xs) (i + 1))
      (set-append passed (xs ++ ys) i x 0 h ∙ sym (append_assoc passed (0 ∷ []) (xs ++ ys)))
    ∙ clear_low_lem xs ys (passed ++ (0 ∷ [])) (i + 1)
        (omega (arith, length-append passed (0 ∷ [])))
    ∙ append_assoc passed (0 ∷ []) (replicate (length xs) 0 ++ ys)

-- The words move up by `words` places; zeros come in below, and the highest words fall out.
shift_words_lem :
    (words : ℕ) (ws : List ℕ)
    → words ≤ length ws
    → shift_words words ws ≡ replicate words 0 ++ take (length ws - words) ws
unfolding shift_words
shift_words_lem zero ws h =
    let e : length ws - 0 ≡ length ws = omega arith in
    rw e (sym (take-length (length ws) ws (omega arith)))
shift_words_lem (suc words) ws h =
    let n : ℕ = length ws - suc words in
    let e : suc words + n ≡ length ws = omega arith in
    let whole : length (take (suc words) ws) ≡ suc words =
      omega (arith, length-take (suc words) ws) in
    let shifts : shift_words (suc words) ws ≡ clear_low (suc words) 0 (copy_up n (suc words) ws) =
      rw (lt→ltb 0 (suc words) (omega arith)) in
    shifts
    ∙ ap (clear_low (suc words) 0) (copy_up_lem n (suc words) ws (omega arith))
    ∙ ap (λ (k : ℕ). clear_low k 0 (take (suc words) ws ++ (take n ws ++ drop (suc words + n) ws)))
        (sym whole)
    ∙ clear_low_lem (take (suc words) ws) (take n ws ++ drop (suc words + n) ws) [] 0 refl
    ∙ rw (whole, e, drop-length (length ws) ws (omega arith), append-nil) refl

pub value-append : (xs ys : List ℕ) → value (xs ++ ys) ≡ value ys * 2 ^ (64 * length xs) + value xs
unfolding value
value-append [] ys = omega arith
value-append (x ∷ xs) ys =
    let width : 64 * suc (length xs) ≡ 64 * length xs + 64 = omega arith in
    let scaled : 2 ^ (64 * suc (length xs)) ≡ 2 ^ (64 * length xs) * 2 ^ 64 =
      ap (λ (k : ℕ). 2 ^ k) width ∙ pow-add 2 (64 * length xs) 64 in
    omega (arith, value-append xs ys, ap (λ (s : ℕ). value ys * s) scaled)

pub value-replicate : (n : ℕ) → value (replicate n 0) ≡ 0
unfolding value
value-replicate zero = refl
value-replicate (suc n) = omega (arith, value-replicate n)

value-take :
    (n : ℕ) (ws : List ℕ)
    → All IsWord ws
    → n ≤ length ws
    → value (take n ws) ≡ value ws % 2 ^ (64 * n)
value-take n ws h le =
    let short : length (take n ws) ≡ n = omega (arith, length-take n ws) in
    sym (
      mod_of_sum (value ws) (value (drop n ws)) (value (take n ws)) (2 ^ (64 * n))
        (ap value (sym (take-append-drop n ws))
          ∙ value-append (take n ws) (drop n ws)
          ∙ ap (λ (k : ℕ). value (drop n ws) * 2 ^ (64 * k) + value (take n ws)) short)
        (subst (λ (k : ℕ). value (take n ws) < 2 ^ (64 * k)) short
          (value-lt (take n ws) (All-take IsWord n ws h))))

-- Shifting by whole words scales the number, within the bitmap's width.
pub shift_words-value :
    (words : ℕ) (ws : List ℕ)
    → All IsWord ws
    → words ≤ length ws
    → value (shift_words words ws) ≡ value ws * 2 ^ (64 * words) % 2 ^ (64 * length ws)
shift_words-value words ws h le =
    let n : ℕ = length ws - words in
    let width : 64 * length ws ≡ 64 * n + 64 * words = omega arith in
    ap value (shift_words_lem words ws le)
    ∙ value-append (replicate words 0) (take n ws)
    ∙ rw
        (
          value-replicate words,
          length-replicate {A = ℕ} words 0,
          value-take n ws h (omega arith),
          width,
          pow-add 2 (64 * n) (64 * words),
          mod_scaled (value ws) (2 ^ (64 * n)) (2 ^ (64 * words)) (pow_pos (64 * n))
              (pow_pos (64 * words)),
        )
        (omega arith)

pub length-shift_words :
    (words : ℕ) (ws : List ℕ) → words ≤ length ws → length (shift_words words ws) ≡ length ws
length-shift_words words ws le = omega (
  arith,
  ap length (shift_words_lem words ws le),
  length-append (replicate words 0) (take (length ws - words) ws),
  length-replicate {A = ℕ} words 0,
  length-take (length ws - words) ws,
)

pub All-replicate : (n : ℕ) → All IsWord (replicate n 0)
All-replicate zero = tt
All-replicate (suc n) = (omega arith, All-replicate n)

pub shift_words-IsWord :
    (words : ℕ) (ws : List ℕ)
    → All IsWord ws
    → words ≤ length ws
    → All IsWord (shift_words words ws)
shift_words-IsWord words ws h le = subst (All IsWord) (sym (shift_words_lem words ws le)) (
    All-append IsWord (replicate words 0) (take (length ws - words) ws) (All-replicate words)
      (All-take IsWord (length ws - words) ws h))
