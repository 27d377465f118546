-- ===== src/Node/SeqCounters/Nonces.antt =====
-- The numbers that the counters hand out between two resets.
use cryprq.Base.{
  ℕ, ◌+◌, ◌≤◌, ◌<◌, ◌≡◌, ◌≢◌, refl, sym, ap, ◌∙◌, arith, List, [], ◌∷◌, length, Option, none, some,
}
use cryprq.Core.Nonce.{record_nonce_injective}
use cryprq.Node.CryptoUtils.{make_nonce, make_nonce-eq-record_nonce}
use cryprq.Node.SeqCounters.{SeqCounters, next_vpn, next_data, next_file, reset, max_nonce_value}

-- One call of a counter, and the counters after a sequence of calls.
pub data Kind : Type 0 where
  vpn data_kind file : Kind

abbrev pub next : Kind → SeqCounters → Option ℕ × SeqCounters
next vpn c = next_vpn c
next data_kind c = (some (next_data c).0, (next_data c).1)
next file c = (some (next_file c).0, (next_file c).1)

unfoldable pub after : SeqCounters → List Kind → SeqCounters
after c [] = c
after c (k ∷ ks) = after (next k c).1 ks

step-vpn_le : (k : Kind) (c : SeqCounters) → c.vpn ≤ (next k c).1.vpn
unfolding next_vpn next_data next_file
step-vpn_le vpn c = ground arith
step-vpn_le data_kind c = omega arith
step-vpn_le file c = omega arith

after-vpn_le : (ks : List Kind) (c : SeqCounters) → c.vpn ≤ (after c ks).vpn
unfolding after
after-vpn_le [] c = omega arith
after-vpn_le (k ∷ ks) c = omega (arith, step-vpn_le k c, after-vpn_le ks (next k c).1)

-- What a call that hands out a VPN number does.
next_vpn-eq-some :
    (c : SeqCounters) (n : ℕ)
    → (next_vpn c).0 ≡ some n
    → (n ≡ c.vpn) × ((next_vpn c).1.vpn ≡ n + 1) × (n < max_nonce_value)
unfolding next_vpn
next_vpn-eq-some c n h = ground arith

module _ (c : SeqCounters) (ks : List Kind) (m n : ℕ) (first : (next_vpn c).0 ≡ some m)
    (second : (next_vpn (after (next_vpn c).1 ks)).0 ≡ some n) where
  -- A later VPN number is higher, whatever calls lie between.
  vpn_numbers_increase : m < n
  vpn_numbers_increase =
      let (_, stored, _) = next_vpn-eq-some c m first in
      let (read, _, _) = next_vpn-eq-some (after (next_vpn c).1 ks) n second in
      omega (arith, stored, read, after-vpn_le ks (next_vpn c).1)

  -- No two VPN sequence numbers that the counters hand out between two resets give the same nonce
  -- under one IV, whatever numbers are drawn in between.
  pub vpn_nonces_differ :
      (static_iv : List ℕ) → length static_iv ≡ 12 → make_nonce static_iv m ≢ make_nonce static_iv n
  unfolding make_nonce
  vpn_nonces_differ iv h e =
      let (_, _, below) = next_vpn-eq-some c m first in
      let (_, _, below') = next_vpn-eq-some (after (next_vpn c).1 ks) n second in
      let same = record_nonce_injective iv m n h (omega (arith, below)) (omega (arith, below')) (
        sym (ap (λ f. f iv m) make_nonce-eq-record_nonce)
        ∙ e
        ∙ ap (λ f. f iv n) make_nonce-eq-record_nonce) in
      omega (arith, vpn_numbers_increase, same)

-- Once the VPN counter has reached its limit, every call is refused and changes nothing, whatever
-- calls come in between, until a reset, after which the number is 0.
next_vpn-exhausted :
    (c : SeqCounters) (ks : List Kind)
    → max_nonce_value ≤ c.vpn
    → (next_vpn (after c ks) ≡ (none, after c ks)) × ((next_vpn (reset (after c ks))).0 ≡ some 0)
unfolding next_vpn reset
next_vpn-exhausted c ks h = (ground (arith, after-vpn_le ks c), refl)

-- After a reset the first number of every kind of message is the same.
kinds_share_numbers : (c : SeqCounters) (k : Kind) → (next k (reset c)).0 ≡ (next vpn (reset c)).0
unfolding next_vpn next_data next_file reset
kinds_share_numbers c vpn = refl
kinds_share_numbers c data_kind = refl
kinds_share_numbers c file = refl
