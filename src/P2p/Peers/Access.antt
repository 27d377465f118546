-- ===== src/P2p/Peers/Access.antt =====
-- Which peers are allowed, and how long their keys last.
use cryprq.Base.{
  ℕ, ◌+◌, ◌*◌, ◌%◌, ◌≤◌, ◌<◌, ◌^◌, ◌≡◌, ◌≢◌, ◌⊎◌, ◌↔◌, inl, inr, refl, ap, ◌∙◌, subst, arith,
}
use cryprq.Base.{List, [], ◌∷◌, true, Bool-cases, bytes_eq, bytes_eq→eq, bytes_eq_self, leb}
use cryprq.Base.{Option, none, some, ok, if◌then◌else◌, >>=-eq-ok, Outcome-cases}
use cryprq.Crypto.Ppk.{derive}
use cryprq.Crypto.Ppk.Store.{get-cleanup_expired, get-store-derive}
use cryprq.P2p.Peers.{
  PeerState, parse_peer, parse_peers, set_allowed_peers, is_member, peer_is_allowed, rotate_once,
  derive_and_store_ppk, get_ppk_for_peer,
}

-- An entry of the list stands for this peer.
abbrev pub Names : (List ℕ → Option (List ℕ)) → List ℕ → List (List ℕ) → Type 0
Names from_str peer_id [] = ⊥
Names from_str peer_id (entry ∷ peers) =
    (from_str entry ≡ some peer_id) ⊎ Names from_str peer_id peers

module _ (from_str : List ℕ → Option (List ℕ)) where
  parse_peer-eq-ok : (entry p : List ℕ) → parse_peer from_str entry ≡ ok p → from_str entry ≡ some p
  unfolding parse_peer
  parse_peer-eq-ok entry p e = ground arith

  head_or_tail :
      (entry p peer_id : List ℕ) (peers tail : List (List ℕ))
      → from_str entry ≡ some p
      → (is_member peer_id tail ≡ true) ↔ Names from_str peer_id peers
      → (is_member peer_id (p ∷ tail) ≡ true)
        ↔ ((from_str entry ≡ some peer_id) ⊎ Names from_str peer_id peers)
  head_or_tail entry p peer_id peers tail e rest = (
    λ h. elim (Bool-cases (bytes_eq p peer_id)) [
      | inl same ↦ inl (e ∙ ap some (bytes_eq→eq p peer_id same))
      | inr apart ↦ inr (rest.0 (ground arith))
    ],
    λ names. elim names [
      | inl named ↦
          let same : p ≡ peer_id = cc in
          let equal : bytes_eq p peer_id ≡ true =
            subst (λ (q : List ℕ). bytes_eq p q ≡ true) same (bytes_eq_self p) in
          ground arith
      | inr later ↦ let found = rest.1 later in ground arith
    ],
  )

  parse_peers-Names :
      (peers set : List (List ℕ)) (peer_id : List ℕ)
      → parse_peers from_str peers ≡ ok set
      → (is_member peer_id set ≡ true) ↔ Names from_str peer_id peers
  unfolding parse_peers
  parse_peers-Names [] set peer_id e =
      let empty : [] ≡ set = cc in
      subst (λ (m : List (List ℕ)). (is_member peer_id m ≡ true) ↔ Names from_str peer_id []) empty
        ((λ h. cc), λ n. absurd n)
  parse_peers-Names (entry ∷ peers) set peer_id e =
      let (p, parsed, rest) = >>=-eq-ok (parse_peer from_str entry) _ e in
      let (tail, parsed', whole) = >>=-eq-ok (parse_peers from_str peers) _ rest in
      let joined : p ∷ tail ≡ set = cc in
      subst
        (λ (m : List (List ℕ)).
          (is_member peer_id m ≡ true) ↔ Names from_str peer_id (entry ∷ peers))
        joined
        (head_or_tail entry p peer_id peers tail (parse_peer-eq-ok entry p parsed)
          (parse_peers-Names peers tail peer_id parsed'))

  -- After the list of allowed peers was set, exactly the peers that it names are allowed; a list
  -- with an entry that names no peer is refused and changes nothing.
  pub peer_is_allowed-set_allowed_peers :
      (s : PeerState) (peers : List (List ℕ)) (peer_id : List ℕ)
      → let (r, s') = set_allowed_peers from_str s peers in
        ((r ≡ ok tt) × ((peer_is_allowed s' peer_id ≡ true) ↔ Names from_str peer_id peers))
        ⊎ ((r ≢ ok tt) × (s' ≡ s))
  unfolding set_allowed_peers peer_is_allowed
  peer_is_allowed-set_allowed_peers s peers peer_id =
      elim (Outcome-cases (parse_peers from_str peers)) [
        | inl (set, e) ↦
            rw (e, set_allowed_peers) (inl (refl, parse_peers-Names peers set peer_id e))
        | inr (inl (f, e)) ↦ rw (e, set_allowed_peers) (inr ((λ h. cc), refl))
        | inr (inr e) ↦ rw (e, set_allowed_peers) (inr ((λ h. cc), refl))
      ]

-- A pre-shared key is available to its peer for two intervals, and not after, also when the keys
-- of the node are rotated by then, if the sum of the times fits 64 bits.
pub get_ppk_for_peer-rotate_once :
    (blake3 : List ℕ → List ℕ) (s : PeerState) (kyber_shared peer_id salt : List ℕ)
    (key_pair : List ℕ × List ℕ) (interval created rotated now : ℕ)
    → created + interval * 2 < 2 ^ 64
    → rotated ≤ now
    → let s' = derive_and_store_ppk blake3 s kyber_shared peer_id salt interval created in
      get_ppk_for_peer (rotate_once s' key_pair rotated) peer_id now ≡ (
        if leb (created + interval * 2) now
        then none
        else some (derive blake3 kyber_shared peer_id salt (interval * 2) created))
unfolding get_ppk_for_peer rotate_once derive_and_store_ppk
get_ppk_for_peer-rotate_once blake3 s kyber peer salt keys interval created rotated now fits le =
    let lifetime : interval * 2 % 2 ^ 64 ≡ interval * 2 = omega arith in
    get-cleanup_expired _ peer rotated now le
    ∙ rw lifetime
        (get-store-derive blake3 s.ppk_store kyber peer salt (interval * 2) created now fits)
