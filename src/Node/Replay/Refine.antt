-- ===== src/Node/Replay/Refine.antt =====
-- The bitmap window accepts exactly the nonces that the history says are fresh.
use cryprq.Base.{ℕ, ◌+◌, ◌-◌, ◌*◌, ◌/◌, ◌%◌, ◌^◌, ◌≤◌, ◌<◌, ◌≡◌, refl, sym, ap, ◌∙◌, arith}
use cryprq.Base.{List, length, ◌∷◌, Bool, true, false, ◌&&◌, max, leb, ltb, ◌==◌, if◌then◌else◌}
use cryprq.Base.{Outcome, ok, err, Bool-cases, inl, inr, get_or, replicate, ltb→le}
use native.Mathlib.Nat.{mod-eq_of_lt}
use cryprq.Base.Bits.{bit_at}
use cryprq.Node.Error.{TunnelError, replay_detected}
use cryprq.Node.Replay.{
  ReplayWindow, new, check_seen, advance, check_and_update, mark, slide, is_marked, in_range,
  shift_words_checked, move_up, advance_bitmap, replay_window_size, word_count,
}
use cryprq.Node.Replay.Value.{value, bit_at-value, bit_at-zero}
use cryprq.Node.Replay.Slide.{
  IsBitmap, blank-IsBitmap, slide-IsBitmap, length-slide, value-replicate,
}
use cryprq.Node.Replay.Mark.{is_marked-bit_at, bit_at-add, mark-value, mark-IsBitmap, bit_at-slide}
use cryprq.Node.Replay.Spec.{History, contains, empty, offer}

-- What the bitmap should hold at distance `d` below the highest nonce.
abbrev seen_bit : History → ℕ → ℕ
seen_bit h d = if leb d h.highest && contains (h.highest - d) h.accepted then 1 else 0

pub record Represents (w : ReplayWindow) (h : History) : Type 0 where
  pub highest : w.max_nonce ≡ h.highest
  pub shape : IsBitmap w.bitmap
  pub bits : (d : ℕ) → d < replay_window_size → bit_at (value w.bitmap) d ≡ seen_bit h d
  pub bounded : (n : ℕ) → contains n h.accepted ≡ true → n ≤ h.highest

abbrev pub verdict : Bool → Outcome TunnelError (Unit {0})
verdict true = ok tt
verdict false = err replay_detected

blank_bits : (d : ℕ) → bit_at (value (replicate word_count 0)) d ≡ seen_bit empty d
blank_bits d =
    ap (λ (t : ℕ). bit_at t d) (value-replicate word_count) ∙ bit_at-zero d ∙ ground arith

pub new-Represents : Represents new empty
unfolding new
new-Represents = record {
  highest = refl;
  shape = blank-IsBitmap;
  bits = λ d h. blank_bits d;
  bounded = λ n c. cc;
}

-- No access of a bitmap with all its words is out of range.
pub advance_bitmap-slide :
    (diff : ℕ) (ws : List ℕ)
    → length ws ≡ word_count
    → advance_bitmap diff ws ≡ ok (mark 0 0 (slide diff ws))
unfolding advance_bitmap move_up slide shift_words_checked in_range
advance_bitmap-slide diff ws count = ground (arith, count, length-slide diff ws count)

pub in_range-near :
    (d : ℕ) (ws : List ℕ) → length ws ≡ word_count → d < 2048 → in_range (d / 64) ws ≡ ok tt
unfolding in_range
in_range-near d ws count near = ground (arith, count)

-- Marking distance `d` in the bitmap.
module _ (d : ℕ) (ws : List ℕ) (v : IsBitmap ws) (near : d < 2048)
    (clear : bit_at (value ws) d ≡ 0) where
  clear_in_word : bit_at (get_or ws (d / 64) 0) (d % 64) ≡ 0
  clear_in_word = sym (bit_at-value ws d v.words) ∙ clear

  marked-IsBitmap : IsBitmap (mark (d / 64) (d % 64) ws)
  marked-IsBitmap = mark-IsBitmap (d / 64) (d % 64) ws v (omega arith) clear_in_word

  marked_bits :
      (j : ℕ)
      → bit_at (value (mark (d / 64) (d % 64) ws)) j ≡ (if j == d then 1 else bit_at (value ws) j)
  marked_bits j =
      let place : 64 * (d / 64) + d % 64 ≡ d = omega arith in
      ap (λ (t : ℕ). bit_at t j)
        (mark-value (d / 64) (d % 64) ws v.words (omega (arith, v.count)) (omega arith)
            clear_in_word
          ∙ ap (λ (k : ℕ). value ws + 2 ^ k) place)
      ∙ bit_at-add (value ws) d j clear

module _ (w : ReplayWindow) (h : History) (nonce : ℕ) (rep : Represents w h) where
  below_bits :
      (old : nonce ≤ w.max_nonce) (near : w.max_nonce - nonce < 2048)
      → bit_at (value w.bitmap) (w.max_nonce - nonce) ≡ (if contains nonce h.accepted then 1 else 0)
  below_bits old near =
      let e : h.highest - (w.max_nonce - nonce) ≡ nonce = omega (arith, rep.highest) in
      let in_range : leb (w.max_nonce - nonce) h.highest ≡ true = ground (arith, rep.highest) in
      rep.bits (w.max_nonce - nonce) near ∙ rw (in_range, e)

  -- After a nonce at or below the highest one has been marked.
  marked-Represents :
      (old : nonce ≤ w.max_nonce) (near : w.max_nonce - nonce < 2048)
      → bit_at (value w.bitmap) (w.max_nonce - nonce) ≡ 0
      → Represents
          (record w {
            bitmap = mark ((w.max_nonce - nonce) / 64) ((w.max_nonce - nonce) % 64) w.bitmap;
          })
          (record { highest = max h.highest nonce; accepted = nonce ∷ h.accepted })
  marked-Represents old near clear =
      let same : max h.highest nonce ≡ h.highest = omega (arith, rep.highest) in
      record {
        highest = rep.highest ∙ sym same;
        shape = marked-IsBitmap (w.max_nonce - nonce) w.bitmap rep.shape near clear;
        bits = λ j hj. ground (
          arith,
          same,
          rep.highest,
          rep.bits j hj,
          marked_bits (w.max_nonce - nonce) w.bitmap rep.shape near clear j,
        );
        bounded = λ n c. ground (arith, same, rep.highest, rep.bounded n);
      }

  -- A nonce at or below the highest one.
  seen_refines :
      nonce ≤ w.max_nonce
      → let (r, w') = check_seen w (w.max_nonce - nonce) in
        let (fresh, h') = offer h nonce in (r ≡ verdict fresh) × Represents w' h'
  unfolding check_seen offer
  seen_refines old = elim (Bool-cases (leb 2048 (w.max_nonce - nonce))) [
    | inl far ↦
        let gone : leb (nonce + 2048) h.highest ≡ true = ground (arith, rep.highest) in
        rw (far, gone) (refl, rep)
    | inr close ↦
        let near : w.max_nonce - nonce < 2048 = ground arith in
        let kept : leb (nonce + 2048) h.highest ≡ false = ground (arith, rep.highest) in
        let inside = in_range-near (w.max_nonce - nonce) w.bitmap rep.shape.count near in
        let bit = below_bits old near in
        let test = is_marked-bit_at (w.max_nonce - nonce) w.bitmap rep.shape.words in
        elim (Bool-cases (contains nonce h.accepted)) [
          | inl again ↦
              let set = test.1 (bit ∙ rw again) in rw (close, kept, inside, set, again) (refl, rep)
          | inr first ↦
              let clear : bit_at (value w.bitmap) (w.max_nonce - nonce) ≡ 0 = bit ∙ rw first in
              let unset : is_marked ((w.max_nonce - nonce) / 64) ((w.max_nonce - nonce) % 64)
                    w.bitmap
                  ≡ false =
                ground (arith, test, clear) in
              rw (close, kept, inside, unset, first) (refl, marked-Represents old near clear)
        ]
  ]

  module _ (above : w.max_nonce < nonce) where
    abbrev slid : List ℕ
    slid = slide (nonce - w.max_nonce) w.bitmap

    slid-IsBitmap : IsBitmap slid
    slid-IsBitmap = slide-IsBitmap (nonce - w.max_nonce) w.bitmap rep.shape

    slid_bits :
        (j : ℕ)
        → j < 2048
        → bit_at (value slid) j
          ≡ (if ltb j (nonce - w.max_nonce) then 0 else seen_bit h (j - (nonce - w.max_nonce)))
    slid_bits j hj = ground (
      arith,
      bit_at-slide (nonce - w.max_nonce) j w.bitmap rep.shape hj,
      rep.bits (j - (nonce - w.max_nonce)),
    )

    slid_clear : bit_at (value slid) 0 ≡ 0
    slid_clear = ground (arith, slid_bits 0)

    unseen : contains nonce h.accepted ≡ false
    unseen = ground (arith, rep.bounded nonce, rep.highest)

    advanced_bits :
        (j : ℕ)
        → j < 2048
        → bit_at (value (mark 0 0 slid)) j
          ≡ seen_bit (record { highest = max h.highest nonce; accepted = nonce ∷ h.accepted }) j
    advanced_bits j hj =
        let top : max h.highest nonce ≡ nonce = omega (arith, rep.highest) in
        let unseen_gap = rep.bounded (nonce - j) in
        let place : ltb j (nonce - w.max_nonce) ≡ false
            → h.highest - (j - (nonce - w.max_nonce)) ≡ nonce - j =
          λ e. omega (arith, rep.highest, ltb→le j (nonce - w.max_nonce) e) in
        ground (
          arith,
          top,
          rep.highest,
          unseen_gap,
          place,
          slid_bits j hj,
          marked_bits 0 slid slid-IsBitmap (omega arith) slid_clear j,
        )

    advance_slid : advance_bitmap (nonce - w.max_nonce) w.bitmap ≡ ok (mark 0 0 slid)
    advance_slid = advance_bitmap-slide (nonce - w.max_nonce) w.bitmap rep.shape.count

    -- A nonce above the highest one.
    advance_refines :
        let (r, w') = advance w nonce in
        let (fresh, h') = offer h nonce in (r ≡ verdict fresh) × Represents w' h'
    unfolding advance offer
    advance_refines =
        let top : max h.highest nonce ≡ nonce = omega (arith, rep.highest) in
        let kept : leb (nonce + 2048) h.highest ≡ false = ground (arith, rep.highest) in
        rw (kept, unseen, advance_slid, advance)
          (
            refl,
            record {
              highest = sym top;
              shape = marked-IsBitmap 0 slid slid-IsBitmap (omega arith) slid_clear;
              bits = advanced_bits;
              bounded = λ n c. ground (arith, rep.bounded n, rep.highest);
            },
          )

offer_old :
    (w : ReplayWindow) (h : History) (nonce : ℕ)
    → Represents w h
    → leb (nonce + replay_window_size) h.highest ≡ true
    → let (fresh, h') = offer h nonce in
      ◌≡◌ {A = Outcome TunnelError (Unit {0})} (err replay_detected) (verdict fresh)
      × Represents w h'
unfolding offer
offer_old w h nonce rep gone = rw gone (refl, rep)

-- If a window represents a history, then a check of a nonce a window below 2 ^ 64 answers as the
-- history does, and the new window represents the new history.
pub check_and_update_refines :
    (w : ReplayWindow) (h : History) (nonce : ℕ)
    → Represents w h
    → nonce + replay_window_size < 2 ^ 64
    → let (r, w') = check_and_update w nonce in
      let (fresh, h') = offer h nonce in (r ≡ verdict fresh) × Represents w' h'
unfolding check_and_update
check_and_update_refines w h nonce rep fits =
    let sum : (nonce + 2048) % 2 ^ 64 ≡ nonce + 2048 = mod-eq_of_lt fits in
    elim (Bool-cases (ltb (nonce + 2048) w.max_nonce)) [
      | inl old ↦
          let gone : leb (nonce + 2048) h.highest ≡ true = ground (arith, rep.highest) in
          rw (sum, old) (offer_old w h nonce rep gone)
      | inr inside ↦ elim (Bool-cases (leb nonce w.max_nonce)) [
        | inl low ↦ rw (sum, inside, low) (seen_refines w h nonce rep (ground arith))
        | inr high ↦ rw (sum, inside, high) (advance_refines w h nonce rep (ground arith))
      ]
    ]
