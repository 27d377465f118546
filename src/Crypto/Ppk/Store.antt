-- ===== src/Crypto/Ppk/Store.antt =====
-- The store of pre-shared keys is a map from peers to their latest key.
use cryprq.Base.{ℕ, ◌+◌, ◌≤◌, ◌<◌, ◌^◌, ◌≡◌, ◌≢◌, refl, sym, ap, ◌∙◌, arith, List, [], ◌∷◌, ◌++◌}
use cryprq.Base.{inl, inr, Bool, true, false, not, none, some, Bool-cases, if◌then◌else◌, leb}
use cryprq.Base.{subst, All, All-append, bytes_eq, bytes_eq→eq, bytes_eq_self}
use cryprq.Crypto.Ppk.{
  PostQuantumPsk, PpkStore, retain, find, is_expired_at, expires_in_at, derive, store, get,
  cleanup_expired, remove_peer,
}

-- The facts on `retain` and `find` that the operations are composed of.
module _ {A : Type 0} where
  find-append_one :
      (t : A → Bool) (xs : List A) (x : A)
      → find t xs ≡ none
      → find t (xs ++ (x ∷ [])) ≡ (if t x then some x else none)
  unfolding find
  find-append_one t [] x h = ground arith
  find-append_one t (y ∷ ys) x h = ground (arith, find-append_one t ys x)

  find-append_miss :
      (t : A → Bool) (xs : List A) (x : A) → t x ≡ false → find t (xs ++ (x ∷ [])) ≡ find t xs
  unfolding find
  find-append_miss t [] x h = ground arith
  find-append_miss t (y ∷ ys) x h = ground (arith, find-append_miss t ys x h)

  find-retain_dropped :
      (t keep : A → Bool) (xs : List A)
      → ((x : A) → t x ≡ true → keep x ≡ false)
      → find t (retain keep xs) ≡ none
  unfolding find retain
  find-retain_dropped t keep [] h = refl
  find-retain_dropped t keep (x ∷ xs) h = ground (arith, h x, find-retain_dropped t keep xs h)

  find-retain_kept :
      (t keep : A → Bool) (xs : List A)
      → ((x : A) → t x ≡ true → keep x ≡ true)
      → find t (retain keep xs) ≡ find t xs
  unfolding find retain
  find-retain_kept t keep [] h = refl
  find-retain_kept t keep (x ∷ xs) h = ground (arith, h x, find-retain_kept t keep xs h)

  find-eq-some : (t : A → Bool) (xs : List A) (x : A) → find t xs ≡ some x → t x ≡ true
  unfolding find
  find-eq-some t [] x h = cc
  find-eq-some t (y ∷ ys) x h = ground (arith, find-eq-some t ys x)

-- What `get` finds belongs to the peer and has not expired.
get-eq-some :
    (s : PpkStore) (q : List ℕ) (now : ℕ) (p : PostQuantumPsk)
    → get s q now ≡ some p
    → (p.peer_id ≡ q) × (now < p.expires_at)
unfolding get is_expired_at
get-eq-some s q now p h =
    let found = find-eq-some _ s p h in ground (arith, bytes_eq→eq p.peer_id q, found)

module _ (s : PpkStore) (p : PostQuantumPsk) (now : ℕ) where
  -- A stored key is the one that its peer gets, until it expires.
  get-store : get (store s p) p.peer_id now ≡ (if is_expired_at p now then none else some p)
  unfolding get store
  get-store =
      find-append_one _ _ p (find-retain_dropped _ _ s λ x h. ground arith)
      ∙ ground (arith, bytes_eq_self p.peer_id)

  -- Storing a key changes nothing for the other peers.
  get-store_other : (q : List ℕ) → p.peer_id ≢ q → get (store s p) q now ≡ get s q now
  unfolding get store
  get-store_other q apart =
      find-append_miss _ _ p (ground (arith, bytes_eq→eq p.peer_id q))
      ∙ find-retain_kept _ _ s
          λ x h. ground (arith, bytes_eq→eq x.peer_id q, bytes_eq→eq x.peer_id p.peer_id)

module _ (s : PpkStore) (q : List ℕ) (now : ℕ) where
  -- A removed peer has no key, at any time.
  get-remove_peer : get (remove_peer s q) q now ≡ none
  unfolding get remove_peer
  get-remove_peer = find-retain_dropped _ _ s λ x h. ground arith

  get-remove_peer_other : (r : List ℕ) → q ≢ r → get (remove_peer s q) r now ≡ get s r now
  unfolding get remove_peer
  get-remove_peer_other r apart =
      find-retain_kept _ _ s λ x h. ground (arith, bytes_eq→eq x.peer_id q, bytes_eq→eq x.peer_id r)

  -- Removing the expired keys changes nothing that is looked up from then on.
  pub get-cleanup_expired :
      (later : ℕ) → now ≤ later → get (cleanup_expired s now) q later ≡ get s q later
  unfolding get cleanup_expired is_expired_at
  get-cleanup_expired later le = find-retain_kept _ _ s λ x h. ground arith

-- A pre-shared key that is derived and stored is what its peer gets for the rotation interval,
-- and nothing after it, if the sum of the times fits 64 bits.
pub get-store-derive :
    (blake3 : List ℕ → List ℕ) (s : PpkStore) (kyber_shared peer_id salt : List ℕ)
    (interval created now : ℕ)
    → created + interval < 2 ^ 64
    → let p = derive blake3 kyber_shared peer_id salt interval created in
      get (store s p) peer_id now ≡ (if leb (created + interval) now then none else some p)
unfolding derive is_expired_at
get-store-derive blake3 s kyber peer salt interval created now fits =
    let p = derive blake3 kyber peer salt interval created in
    let kept : p.expires_at ≡ created + interval = omega arith in
    get-store s p now ∙ ap (λ (n : ℕ). if leb n now then none else some p) kept

expires_in_at-eq-zero :
    (p : PostQuantumPsk) (now : ℕ)
    → (expires_in_at p now ≡ 0 → is_expired_at p now ≡ true)
      × (is_expired_at p now ≡ true → expires_in_at p now ≡ 0)
unfolding expires_in_at is_expired_at
expires_in_at-eq-zero p now = (ground arith, ground arith)

-- The peers of the entries are pairwise different.
abbrev pub IsOnePerPeer : PpkStore → Type 0
IsOnePerPeer [] = Unit
IsOnePerPeer (p ∷ ps) = All (λ (x : PostQuantumPsk). p.peer_id ≢ x.peer_id) ps × IsOnePerPeer ps

All-retain :
    (P : PostQuantumPsk → Type 0) (keep : PostQuantumPsk → Bool) (ps : PpkStore)
    → All P ps
    → All P (retain keep ps)
unfolding retain
All-retain P keep [] h = tt
All-retain P keep (p ∷ ps) h = elim (Bool-cases (keep p)) [
  | inl e ↦ rw e (h.0, All-retain P keep ps h.1)
  | inr e ↦ rw e (All-retain P keep ps h.1)
]

retain-IsOnePerPeer :
    (keep : PostQuantumPsk → Bool) (ps : PpkStore) → IsOnePerPeer ps → IsOnePerPeer (retain keep ps)
unfolding retain
retain-IsOnePerPeer keep [] h = tt
retain-IsOnePerPeer keep (p ∷ ps) h = elim (Bool-cases (keep p)) [
  | inl e ↦ rw e (All-retain _ keep ps h.0, retain-IsOnePerPeer keep ps h.1)
  | inr e ↦ rw e (retain-IsOnePerPeer keep ps h.1)
]

All-retain_kept :
    (P : PostQuantumPsk → Type 0) (keep : PostQuantumPsk → Bool) (ps : PpkStore)
    → ((p : PostQuantumPsk) → keep p ≡ true → P p)
    → All P (retain keep ps)
unfolding retain
All-retain_kept P keep [] h = tt
All-retain_kept P keep (p ∷ ps) h = elim (Bool-cases (keep p)) [
  | inl e ↦ rw e (h p e, All-retain_kept P keep ps h)
  | inr e ↦ rw e (All-retain_kept P keep ps h)
]

append-IsOnePerPeer :
    (ps : PpkStore) (p : PostQuantumPsk)
    → IsOnePerPeer ps
    → All (λ (x : PostQuantumPsk). x.peer_id ≢ p.peer_id) ps
    → IsOnePerPeer (ps ++ (p ∷ []))
append-IsOnePerPeer [] p h apart = (tt, tt)
append-IsOnePerPeer (x ∷ xs) p h apart =
    (All-append _ xs (p ∷ []) h.0 (apart.0, tt), append-IsOnePerPeer xs p h.1 apart.1)

-- Every operation of the store keeps at most one key for each peer.
store-IsOnePerPeer :
    (s : PpkStore)
    → IsOnePerPeer s
    → ((p : PostQuantumPsk) → IsOnePerPeer (store s p))
      × (((now : ℕ) → IsOnePerPeer (cleanup_expired s now))
          × ((q : List ℕ) → IsOnePerPeer (remove_peer s q)))
unfolding store cleanup_expired remove_peer
store-IsOnePerPeer s h = (
  λ p.
      append-IsOnePerPeer _ p (retain-IsOnePerPeer _ s h)
        (All-retain_kept _ _ s λ x kept e. differs x p kept e),
  ((λ now. retain-IsOnePerPeer _ s h), λ q. retain-IsOnePerPeer _ s h),
)
  where
    differs :
        (x p : PostQuantumPsk) → not (bytes_eq x.peer_id p.peer_id) ≡ true → x.peer_id ≢ p.peer_id
    differs x p kept e =
        let same =
          subst (λ (y : List ℕ). bytes_eq y p.peer_id ≡ true) (sym e) (bytes_eq_self p.peer_id) in
        ground arith
