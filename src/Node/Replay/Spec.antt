-- ===== src/Node/Replay/Spec.antt =====
-- What an anti-replay window promises, with no bitmap: the nonces accepted so far, and the highest.
use cryprq.Base.{ℕ, ◌+◌, List, [], ◌∷◌, max, Bool, true, false, ◌||◌, leb, ◌==◌, if◌then◌else◌}
use cryprq.Node.Replay.{replay_window_size}

pub record History : Type 0 where
  pub highest : ℕ
  pub accepted : List ℕ

abbrev pub contains : ℕ → List ℕ → Bool
contains n [] = false
contains n (x ∷ xs) = (x == n) || contains n xs

abbrev pub empty : History
empty = record { highest = 0; accepted = [] }

-- A nonce is fresh if it lies less than a window below the highest one and was not accepted before.
unfoldable pub offer : History → ℕ → Bool × History
offer h nonce =
    if leb (nonce + replay_window_size) h.highest || contains nonce h.accepted
    then (false, h)
    else (true, record { highest = max h.highest nonce; accepted = nonce ∷ h.accepted })
