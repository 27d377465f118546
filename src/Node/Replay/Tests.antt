-- ===== src/Node/Replay/Tests.antt =====
-- The theorems on the replay window at concrete sequences of nonces.
use cryprq.Base.{ℕ, ◌-◌, ◌^◌, ◌≡◌, refl, arith, List, [], ◌∷◌, map, ok, err}
use cryprq.Node.Error.{replay_detected}
use cryprq.Node.Replay.{
  advance_bitmap, move_up, shift_words_checked, in_range, shift_bits, shift_loop, shift_words,
  ReplayWindow, new, check_and_update, advance,
}
use cryprq.Node.Replay.Spec.{empty}
use cryprq.Node.Replay.Refine.{verdict}
use cryprq.Node.Replay.Runs.{results, after, verdicts, results-new_refine, no_replay}

abbrev out_of_order : List ℕ
out_of_order = 3 ∷ 70 ∷ 5 ∷ 70 ∷ 3000 ∷ 5 ∷ []

results-new_refine_example : results new out_of_order ≡ map verdict (verdicts empty out_of_order)
results-new_refine_example = results-new_refine out_of_order (ground arith)

accepted : (check_and_update (after new []) 7).0 ≡ ok tt
unfolding check_and_update advance after new advance_bitmap move_up shift_words_checked in_range
    shift_bits shift_loop shift_words
accepted = refl

no_replay_example :
    (check_and_update (after (check_and_update (after new []) 7).1 (8 ∷ 9 ∷ [])) 7).0
    ≡ err replay_detected
no_replay_example = no_replay [] (8 ∷ 9 ∷ []) 7 tt (omega arith) (ground arith) accepted

abbrev near_the_top : ReplayWindow
near_the_top = record { max_nonce = 2 ^ 64 - 3000; bitmap = [] }

abbrev top_nonce : ℕ
top_nonce = 2 ^ 64 - 2000
