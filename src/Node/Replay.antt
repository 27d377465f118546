-- ===== src/Node/Replay.antt =====
-- `ReplayWindow` of node/src/lib.rs: the highest nonce so far, and a bitmap in which bit `d` says
-- that the nonce `d` below it has been seen. Word 0 holds the lowest bits.
pub mod Value
pub mod Slide
pub mod Mark
pub mod Spec
pub mod Refine
pub mod Runs
mod Tests
use Prim.Native.Nat.{bit_and, bit_or}
use cryprq.Base.{
  ℕ, zero, suc, ◌+◌, ◌-◌, ◌*◌, ◌/◌, ◌%◌, ◌^◌, List, [], ◌∷◌, length, get_or, set, replicate,
}
use cryprq.Base.{Bool, ltb, leb, ◌==◌, not, Outcome, ok, err, panicked, ◌>>=◌, ◌>>◌, if◌then◌else◌}
use cryprq.Node.Error.{TunnelError, replay_detected}

-- `REPLAY_WINDOW_SIZE`, and the words of the bitmap.
abbrev pub replay_window_size : ℕ
replay_window_size = 2048

abbrev pub word_count : ℕ
word_count = 32

pub record ReplayWindow : Type 0 where
  pub max_nonce : ℕ
  pub bitmap : List ℕ

unfoldable pub new : ReplayWindow
new = record { max_nonce = 0; bitmap = replicate word_count 0 }

-- `for i in (words..len).rev() { bitmap[i] = bitmap[i - words] }`, with the rounds left: the
-- round at `i = words + rounds` reads the word at `rounds`.
pub copy_up : ℕ → ℕ → List ℕ → List ℕ
copy_up zero words bitmap = bitmap
copy_up (suc rounds) words bitmap =
    copy_up rounds words (set bitmap (words + rounds) (get_or bitmap rounds 0))

-- `for i in 0..words { bitmap[i] = 0 }`, from index `i` on.
pub clear_low : ℕ → ℕ → List ℕ → List ℕ
clear_low zero i bitmap = bitmap
clear_low (suc rounds) i bitmap = clear_low rounds (i + 1) (set bitmap i 0)

unfoldable pub shift_words : ℕ → List ℕ → List ℕ
shift_words words bitmap =
    if ltb 0 words then clear_low words 0 (copy_up (length bitmap - words) words bitmap) else bitmap

-- The loop `for word in bitmap.iter_mut()` with its carry; `<<` drops what leaves the word.
pub shift_loop : ℕ → ℕ → List ℕ → List ℕ
shift_loop bits carry [] = []
shift_loop bits carry (word ∷ rest) =
    bit_or (word * 2 ^ bits % 2 ^ 64) carry ∷ shift_loop bits (word / 2 ^ (64 - bits)) rest

unfoldable pub shift_bits : ℕ → List ℕ → List ℕ
shift_bits bits bitmap = if ltb 0 bits then shift_loop bits 0 bitmap else bitmap

-- The bitmap after the window has moved up by `diff`, before the new nonce is marked: what `move_up`
-- comes to where no access is out of range. Only the proofs use it.
unfoldable pub slide : ℕ → List ℕ → List ℕ
slide diff bitmap =
    if ltb diff replay_window_size
    then shift_bits (diff % 64) (shift_words (diff / 64) bitmap)
    else replicate word_count 0

-- An access of the bitmap at an index panics out of range.
unfoldable pub in_range : ℕ → List ℕ → Outcome TunnelError (Unit {0})
in_range index bitmap = if ltb index (length bitmap) then ok tt else panicked

-- The word shift with its accesses: the last word that the loop of `clear_low` writes is `words - 1`,
-- and the other loop stays below the length.
unfoldable pub shift_words_checked : ℕ → List ℕ → Outcome TunnelError (List ℕ)
shift_words_checked words bitmap =
    if leb words (length bitmap) then ok (shift_words words bitmap) else panicked

-- The move of the window with its accesses: `slide`, where none is out of range.
unfoldable pub move_up : ℕ → List ℕ → Outcome TunnelError (List ℕ)
move_up diff bitmap =
    if ltb diff replay_window_size
    then (shift_words_checked (diff / 64) bitmap >>= λ shifted. ok (shift_bits (diff % 64) shifted))
    else ok (replicate word_count 0)

-- `bitmap[index] |= 1 << bit`
unfoldable pub mark : ℕ → ℕ → List ℕ → List ℕ
mark index bit bitmap = set bitmap index (bit_or (get_or bitmap index 0) (2 ^ bit))

-- `(bitmap[index] & (1 << bit)) != 0`
unfoldable pub is_marked : ℕ → ℕ → List ℕ → Bool
is_marked index bit bitmap = not (bit_and (get_or bitmap index 0) (2 ^ bit) == 0)

-- A nonce that is not above the highest one: `diff` is how far it lies below.
unfoldable pub check_seen : ReplayWindow → ℕ → Outcome TunnelError (Unit {0}) × ReplayWindow
check_seen w diff =
    if leb replay_window_size diff
    then (err replay_detected, w)
    else elim (in_range (diff / 64) w.bitmap) [
      | ok u ↦
          if is_marked (diff / 64) (diff % 64) w.bitmap
          then (err replay_detected, w)
          else (ok tt, record w { bitmap = mark (diff / 64) (diff % 64) w.bitmap })
      | err e ↦ (err e, w)
      | panicked ↦ (panicked, w)
    ]

-- The bitmap after a new highest nonce, `diff` above the last one.
unfoldable pub advance_bitmap : ℕ → List ℕ → Outcome TunnelError (List ℕ)
advance_bitmap diff bitmap = do moved ← move_up diff bitmap; in_range 0 moved; ok (mark 0 0 moved)

-- A nonce above the highest one becomes the highest one.
unfoldable pub advance : ReplayWindow → ℕ → Outcome TunnelError (Unit {0}) × ReplayWindow
advance w nonce = elim (advance_bitmap (nonce - w.max_nonce) w.bitmap) [
  | ok bitmap ↦ (ok tt, record { max_nonce = nonce; bitmap = bitmap })
  | err e ↦ (err e, w)
  | panicked ↦ (panicked, w)
]

-- The sum `nonce + REPLAY_WINDOW_SIZE` wraps, as in a release build.
unfoldable pub check_and_update : ReplayWindow → ℕ → Outcome TunnelError (Unit {0}) × ReplayWindow
check_and_update w nonce =
    if ltb ((nonce + replay_window_size) % 2 ^ 64) w.max_nonce
    then (err replay_detected, w)
    else if leb nonce w.max_nonce
    then check_seen w (w.max_nonce - nonce)
    else advance w nonce
