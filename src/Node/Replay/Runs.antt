-- ===== src/Node/Replay/Runs.antt =====
-- Sequences of calls on one window.
use cryprq.Base.{ℕ, ◌+◌, ◌^◌, ◌≤◌, ◌<◌, ◌≡◌, refl, sym, ap, ap₂, ◌∙◌, arith}
use cryprq.Base.{List, [], ◌∷◌, map, All, Bool, true, false, Outcome, ok, err, ==_self}
use cryprq.Node.Error.{TunnelError, replay_detected}
use cryprq.Node.Replay.{ReplayWindow, new, check_and_update, replay_window_size}
use cryprq.Node.Replay.Spec.{History, contains, empty, offer}
use cryprq.Node.Replay.Refine.{Represents, verdict, new-Represents, check_and_update_refines}

-- No sum in the first test wraps.
abbrev pub InRange : ℕ → Type 0
InRange nonce = nonce + replay_window_size < 2 ^ 64

-- The results of a sequence of calls, and the window that they leave.
unfoldable pub results : ReplayWindow → List ℕ → List (Outcome TunnelError (Unit {0}))
results w [] = []
results w (n ∷ ns) = let (r, w') = check_and_update w n in r ∷ results w' ns

unfoldable pub after : ReplayWindow → List ℕ → ReplayWindow
after w [] = w
after w (n ∷ ns) = after (check_and_update w n).1 ns

unfoldable pub verdicts : History → List ℕ → List Bool
verdicts h [] = []
verdicts h (n ∷ ns) = let (fresh, h') = offer h n in fresh ∷ verdicts h' ns

history_after : History → List ℕ → History
history_after h [] = h
history_after h (n ∷ ns) = history_after (offer h n).1 ns

results_refine :
    (ns : List ℕ) (w : ReplayWindow) (h : History)
    → Represents w h
    → All InRange ns
    → results w ns ≡ map verdict (verdicts h ns)
unfolding results verdicts
results_refine [] w h rep fits = refl
results_refine (n ∷ ns) w h rep fits =
    let (same, rep') = check_and_update_refines w h n rep fits.0 in
    ap₂ ◌∷◌ same (results_refine ns (check_and_update w n).1 (offer h n).1 rep' fits.1)

-- A new replay window answers any sequence of nonces, each a window below 2 ^ 64, as the
-- specification does that keeps the highest nonce and the list of accepted ones.
pub results-new_refine :
    (ns : List ℕ) → All InRange ns → results new ns ≡ map verdict (verdicts empty ns)
results-new_refine ns fits = results_refine ns new empty new-Represents fits

after-Represents :
    (ns : List ℕ) (w : ReplayWindow) (h : History)
    → Represents w h
    → All InRange ns
    → Represents (after w ns) (history_after h ns)
unfolding after history_after
after-Represents [] w h rep fits = rep
after-Represents (n ∷ ns) w h rep fits =
    after-Represents ns (check_and_update w n).1 (offer h n).1
      (check_and_update_refines w h n rep fits.0).1 fits.1

pub offer_keeps :
    (h : History) (n m : ℕ)
    → contains n h.accepted ≡ true
    → contains n (offer h m).1.accepted ≡ true
unfolding offer
offer_keeps h n m c = ground arith

history_after_keeps :
    (ns : List ℕ) (h : History) (n : ℕ)
    → contains n h.accepted ≡ true
    → contains n (history_after h ns).accepted ≡ true
unfolding history_after
history_after_keeps [] h n c = c
history_after_keeps (m ∷ ns) h n c = history_after_keeps ns (offer h m).1 n (offer_keeps h n m c)

pub offer_records :
    (h : History) (n : ℕ) → (offer h n).0 ≡ true → contains n (offer h n).1.accepted ≡ true
unfolding offer
offer_records h n e = ground (arith, ==_self n)

pub offer_again : (h : History) (n : ℕ) → contains n h.accepted ≡ true → (offer h n).0 ≡ false
unfolding offer
offer_again h n c = ground arith

pub verdict_ok : (b : Bool) → verdict b ≡ ok tt → b ≡ true
verdict_ok true e = refl
verdict_ok false e = cc

-- A nonce that a window has accepted is refused ever after, whatever is received in between, if
-- all nonces lie a window below 2 ^ 64.
pub no_replay :
    (before between : List ℕ) (nonce : ℕ)
    → All InRange before
    → InRange nonce
    → All InRange between
    → (check_and_update (after new before) nonce).0 ≡ ok tt
    → (check_and_update (after (check_and_update (after new before) nonce).1 between) nonce).0
      ≡ err replay_detected
no_replay before between nonce fits_before fits fits_between accepted =
    let w : ReplayWindow = after new before in
    let h : History = history_after empty before in
    let rep = after-Represents before new empty new-Represents fits_before in
    let (same, rep') = check_and_update_refines w h nonce rep fits in
    let fresh = verdict_ok (offer h nonce).0 (sym same ∙ accepted) in
    let kept = history_after_keeps between (offer h nonce).1 nonce (offer_records h nonce fresh) in
    let rep'' =
      after-Represents between (check_and_update w nonce).1 (offer h nonce).1 rep' fits_between in
    let (last, _) =
      check_and_update_refines (after (check_and_update w nonce).1 between)
        (history_after (offer h nonce).1 between) nonce rep'' fits in
    last ∙ ap verdict (offer_again (history_after (offer h nonce).1 between) nonce kept)

-- A nonce of 64 bits above the highest one is refused as a replay if the sum of it and the window
-- size wraps to less than the highest one.
top_nonce_refused :
    (w : ReplayWindow) (nonce : ℕ)
    → w.max_nonce < nonce
    → nonce < 2 ^ 64
    → 2 ^ 64 ≤ nonce + replay_window_size
    → nonce + replay_window_size < 2 ^ 64 + w.max_nonce
    → (check_and_update w nonce).0 ≡ err replay_detected
unfolding check_and_update
top_nonce_refused w nonce above fits wraps low = ground arith
