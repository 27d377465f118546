-- ===== src/Node/Replay/Slide.antt =====
-- Sliding the bitmap is a shift of its number.
mod Words
use cryprq.Base.{
  ℕ, zero, suc, ◌+◌, ◌-◌, ◌*◌, ◌/◌, ◌%◌, ◌^◌, ◌≤◌, ◌<◌, ◌≡◌, refl, sym, ap, ◌∙◌, subst, arith,
}
use cryprq.Base.{List, [], ◌∷◌, ◌++◌, length, get_or, set, take, drop, replicate, All, ltb}
use cryprq.Base.{
  length-append, length-take, length-set, length-replicate, take-append-drop, take-length,
}
use cryprq.Base.{
  take-set, drop-set, take-suc, set-append, All-take, All-append, drop-length, lt→ltb, ltb→lt,
  ltb→le, Bool-cases, inl, inr,
}
use Prim.Native.Nat.{bit_or}
use cryprq.Base.{
  pow-add, pow_split, pow_pos, mod_of_sum, div_of_sum, two_digits-lt, mod-mul, mod_scaled,
  mod-mul-mod,
}
use cryprq.Base.Bits.{bit_or_fields}
use mathlib.Core.List.{append_assoc, append-nil}
use native.Mathlib.Nat.{
  mul_assoc, mul-mod_left, mod-lt, div-lt_iff_lt-mul, mul_comm, div-add-mod, mod-eq_of_lt,
  mod-eq_of_lt,
}
use cryprq.Node.Replay.{
  copy_up, clear_low, shift_words, shift_loop, shift_bits, slide, word_count, replay_window_size,
}
use cryprq.Node.Replay.Value.{IsWord, value, value-lt}
pub use Words.{value-replicate}
use cryprq.Node.Replay.Slide.Words.{
  shift_words-value, length-shift_words, shift_words-IsWord, All-replicate, value-append,
}

-- One word of the loop: what stays in the word, with the carry put below.
shift_word :
    (b c w : ℕ) → b < 64 → c < 2 ^ b → bit_or (w * 2 ^ b % 2 ^ 64) c ≡ w % 2 ^ (64 - b) * 2 ^ b + c
shift_word b c w small hc =
    let kept : w * 2 ^ b % 2 ^ 64 ≡ w % 2 ^ (64 - b) * 2 ^ b =
      ap (λ (m : ℕ). w * 2 ^ b % m) (pow_split 2 64 b (omega arith))
      ∙ mod_scaled w (2 ^ (64 - b)) (2 ^ b) (pow_pos (64 - b)) (pow_pos b) in
    rw kept (bit_or_fields b (w % 2 ^ (64 - b)) c hc)

module _ (b c w : ℕ) (small : b < 64) (hc : c < 2 ^ b) (hw : IsWord w) where
  carry-lt : w / 2 ^ (64 - b) < 2 ^ b
  carry-lt =
      (div-lt_iff_lt-mul (pow_pos (64 - b))).1
        (omega (arith, pow_split 2 64 b (omega arith), mul_comm (2 ^ (64 - b)) (2 ^ b)))

  word-lt : w % 2 ^ (64 - b) * 2 ^ b + c < 2 ^ 64
  word-lt =
      subst (λ (m : ℕ). w % 2 ^ (64 - b) * 2 ^ b + c < m) (sym (pow_split 2 64 b (omega arith)))
        (two_digits-lt (w % 2 ^ (64 - b)) c (2 ^ (64 - b)) (2 ^ b) (mod-lt w (pow_pos (64 - b))) hc)

  -- A word and the number above it, shifted together.
  word_split :
      (v : ℕ)
      → (v * 2 ^ 64 + w) * 2 ^ b + c
        ≡ (v * 2 ^ b + w / 2 ^ (64 - b)) * 2 ^ 64 + (w % 2 ^ (64 - b) * 2 ^ b + c)
  word_split v = omega (
    arith,
    ap (λ (t : ℕ). t * 2 ^ b) (div-add-mod w (2 ^ (64 - b))),
    ap (λ (t : ℕ). w / 2 ^ (64 - b) * t) (pow_split 2 64 b (omega arith)),
  )

-- The loop with its carry scales the number by `2 ^ b`, within the bitmap's width.
shift_loop-value :
    (b c : ℕ) (ws : List ℕ)
    → b < 64
    → c < 2 ^ b
    → All IsWord ws
    → value (shift_loop b c ws) ≡ (value ws * 2 ^ b + c) % 2 ^ (64 * length ws)
unfolding shift_loop value
shift_loop-value b c [] small hc h = omega arith
shift_loop-value b c (w ∷ ws) small hc h =
    let carry : ℕ = w / 2 ^ (64 - b) in
    let out : ℕ = w % 2 ^ (64 - b) * 2 ^ b + c in
    let m : ℕ = 2 ^ (64 * length ws) in
    let x : ℕ = (value ws * 2 ^ 64 + w) * 2 ^ b + c in
    let split = word_split b c w small hc h.0 (value ws) in
    let fits = word-lt b c w small hc h.0 in
    let width : 2 ^ (64 * suc (length ws)) ≡ m * 2 ^ 64 =
      ap (λ (k : ℕ). 2 ^ k) (omega arith) ∙ pow-add 2 (64 * length ws) 64 in
    rw
      (
        shift_loop-value b carry ws small (carry-lt b c w small hc h.0) h.1,
        shift_word b c w small hc,
        width,
        mod-mul x m (2 ^ 64) (pow_pos (64 * length ws)) (pow_pos 64),
        div_of_sum x (value ws * 2 ^ b + carry) out (2 ^ 64) split fits,
        mod_of_sum x (value ws * 2 ^ b + carry) out (2 ^ 64) split fits,
      )
      refl

-- A bitmap: words, as many as the window has.
pub record IsBitmap (ws : List ℕ) : Type 0 where
  pub words : All IsWord ws
  pub count : length ws ≡ word_count

length-shift_loop : (b c : ℕ) (ws : List ℕ) → length (shift_loop b c ws) ≡ length ws
unfolding shift_loop
length-shift_loop b c [] = refl
length-shift_loop b c (w ∷ ws) = ap suc (length-shift_loop b (w / 2 ^ (64 - b)) ws)

shift_loop-IsWord :
    (b c : ℕ) (ws : List ℕ) → b < 64 → c < 2 ^ b → All IsWord ws → All IsWord (shift_loop b c ws)
unfolding shift_loop
shift_loop-IsWord b c [] small hc h = tt
shift_loop-IsWord b c (w ∷ ws) small hc h = (
  rw (shift_word b c w small hc) (word-lt b c w small hc h.0),
  shift_loop-IsWord b (w / 2 ^ (64 - b)) ws small (carry-lt b c w small hc h.0) h.1,
)

shift_bits-value :
    (b : ℕ) (ws : List ℕ)
    → b < 64
    → All IsWord ws
    → value (shift_bits b ws) ≡ value ws * 2 ^ b % 2 ^ (64 * length ws)
unfolding shift_bits
shift_bits-value zero ws small h =
    let e : value ws * 2 ^ 0 ≡ value ws = omega arith in rw e (sym (mod-eq_of_lt (value-lt ws h)))
shift_bits-value (suc b) ws small h =
    let e : value ws * 2 ^ suc b + 0 ≡ value ws * 2 ^ suc b = omega arith in
    rw (lt→ltb 0 (suc b) (omega arith)) (
      shift_loop-value (suc b) 0 ws small (pow_pos (suc b)) h
      ∙ ap (λ (t : ℕ). t % 2 ^ (64 * length ws)) e)

shift_bits-IsBitmap : (b : ℕ) (ws : List ℕ) → b < 64 → IsBitmap ws → IsBitmap (shift_bits b ws)
unfolding shift_bits
shift_bits-IsBitmap zero ws small v = v
shift_bits-IsBitmap (suc b) ws small v = rw (lt→ltb 0 (suc b) (omega arith)) (record {
  words = shift_loop-IsWord (suc b) 0 ws small (pow_pos (suc b)) v.words;
  count = length-shift_loop (suc b) 0 ws ∙ v.count;
})

shift_words-IsBitmap : (n : ℕ) (ws : List ℕ) → n < 32 → IsBitmap ws → IsBitmap (shift_words n ws)
shift_words-IsBitmap n ws small v = record {
  words = shift_words-IsWord n ws v.words (omega (arith, v.count));
  count = length-shift_words n ws (omega (arith, v.count)) ∙ v.count;
}

pub blank-IsBitmap : IsBitmap (replicate word_count 0)
blank-IsBitmap = record { words = All-replicate word_count; count = refl }

pub length-slide :
    (diff : ℕ) (ws : List ℕ) → length ws ≡ word_count → length (slide diff ws) ≡ word_count
unfolding slide shift_bits
length-slide diff ws count = elim (Bool-cases (ltb diff replay_window_size)) [
  | inr far ↦ rw far refl
  | inl near ↦
      let shifted = shift_words (diff / 64) ws in
      let words = length-shift_words (diff / 64) ws (omega (arith, ltb→lt diff 2048 near)) in
      ground (arith, near, words, count, length-shift_loop (diff % 64) 0 shifted)
]

-- A slide keeps the bitmap's shape.
pub slide-IsBitmap : (diff : ℕ) (ws : List ℕ) → IsBitmap ws → IsBitmap (slide diff ws)
unfolding slide
slide-IsBitmap diff ws v = elim (Bool-cases (ltb diff replay_window_size)) [
  | inl near ↦ rw near (
      shift_bits-IsBitmap (diff % 64) (shift_words (diff / 64) ws) (omega arith)
        (shift_words-IsBitmap (diff / 64) ws (omega (arith, ltb→lt diff 2048 near)) v))
  | inr far ↦ rw far blank-IsBitmap
]

near_value :
    (diff : ℕ) (ws : List ℕ)
    → IsBitmap ws
    → diff < 2048
    → value (shift_bits (diff % 64) (shift_words (diff / 64) ws))
      ≡ value ws * 2 ^ diff % 2 ^ (64 * length ws)
near_value diff ws v near =
    let few : diff / 64 ≤ length ws = omega (arith, v.count) in
    let moved = shift_words-IsBitmap (diff / 64) ws (omega arith) v in
    let parts : diff ≡ 64 * (diff / 64) + diff % 64 = omega arith in
    shift_bits-value (diff % 64) (shift_words (diff / 64) ws) (omega arith) moved.words
    ∙ rw (length-shift_words (diff / 64) ws few, shift_words-value (diff / 64) ws v.words few)
        (mod-mul-mod (value ws * 2 ^ (64 * (diff / 64))) (2 ^ (diff % 64)) (2 ^ (64 * length ws)))
    ∙ ap (λ (t : ℕ). t % 2 ^ (64 * length ws))
        (mul_assoc (value ws) (2 ^ (64 * (diff / 64))) (2 ^ (diff % 64))
          ∙ ap (λ (t : ℕ). value ws * t)
              (sym (pow-add 2 (64 * (diff / 64)) (diff % 64)) ∙ ap (λ (k : ℕ). 2 ^ k) (sym parts)))

far_value : (diff n x : ℕ) → n ≤ diff → 0 ≡ x * 2 ^ diff % 2 ^ n
far_value diff n x far =
    rw (pow_split 2 diff n far, ← mul_assoc x (2 ^ (diff - n)) (2 ^ n))
      (sym (mul-mod_left (x * 2 ^ (diff - n)) (2 ^ n)))

-- A slide by `diff` scales the number by `2 ^ diff`, within the width of the window.
pub slide-value :
    (diff : ℕ) (ws : List ℕ)
    → IsBitmap ws
    → value (slide diff ws) ≡ value ws * 2 ^ diff % 2 ^ (64 * length ws)
unfolding slide
slide-value diff ws v = elim (Bool-cases (ltb diff replay_window_size)) [
  | inl near ↦ rw near (near_value diff ws v (ltb→lt diff 2048 near))
  | inr far ↦ rw far (
      value-replicate word_count
      ∙ far_value diff (64 * length ws) (value ws) (omega (arith, ltb→le diff 2048 far, v.count)))
]
