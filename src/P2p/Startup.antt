-- ===== src/P2p/Startup.antt =====
-- What `start_listener` and `dial_peer` of p2p/src/lib.rs do before their loops.
use cryprq.Base.{ℕ, List, [], ◌∷◌, ◌++◌, Bool, true, Option, none, some, not}
use cryprq.Base.{Outcome, ok, err, panicked, ◌>>=◌, ◌>>◌, reject_if, if◌then◌else◌}
use cryprq.Base.{◌≡◌, refl, sym, ap, ◌∙◌, arith, Option-cases, Bool-cases, inl, inr, ◌⊎◌, ◌≢◌}
use cryprq.P2p.Metrics.{mark_swarm_initialized}
use cryprq.P2p.Peers.{peer_is_allowed}
use cryprq.P2p.Swarm.{Node, with_metrics}

-- A component of a `Multiaddr` of the crate libp2p: `/p2p/…` with the peer, or any other.
pub data Protocol : Type 0 where
  p2p : List ℕ → Protocol
  transport : List ℕ → Protocol

pub data StartError : Type 0 where
  init_failed bad_address listen_failed dial_failed : StartError
  not_allowed : List ℕ → StartError

-- What is dialed: a peer at an address, or an address.
pub data Dial : Type 0 where
  peer_at : List ℕ → List Protocol → Dial
  address_only : List Protocol → Dial

-- The last component, if it names a peer, and the address without it: `iter().last()` and `pop`.
abbrev pub pop_peer : List Protocol → Option (List Protocol × List ℕ)
pop_peer [] = none
pop_peer (protocol ∷ []) = elim protocol [ p2p peer_id ↦ some ([], peer_id) | transport t ↦ none ]
pop_peer (protocol ∷ next ∷ rest) = elim (pop_peer (next ∷ rest)) [
  | none ↦ none
  | some (address, peer_id) ↦ some (protocol ∷ address, peer_id)
]

-- The crate libp2p: whether a swarm can be built, what an address reads as, and whether the swarm
-- listens on it or starts to dial.
pub record Libp2p : Type 0 where
  pub can_init : Bool
  pub parse : List ℕ → Option (List Protocol)
  pub can_listen : List Protocol → Bool
  pub can_dial : Dial → Bool

abbrev pub parse_address : Libp2p → List ℕ → Outcome StartError (List Protocol)
parse_address lib addr = elim (lib.parse addr) [
  | none ↦ err bad_address
  | some address ↦ ok address
]

-- The address that `start_listener` listens on.
unfoldable pub listen : Libp2p → List ℕ → Outcome StartError (List Protocol)
listen lib addr = do
  reject_if (not lib.can_init) init_failed
  listen_addr ← parse_address lib addr
  reject_if (not (lib.can_listen listen_addr)) listen_failed
  ok listen_addr

module _ {S : Type 0} where
  -- The target of `dial_peer`: a peer that the address names has to be allowed.
  unfoldable pub dial_target : Node S → List Protocol → Outcome StartError Dial
  dial_target s dial_addr = elim (pop_peer dial_addr) [
    | none ↦ ok (address_only dial_addr)
    | some (address, peer_id) ↦
        if peer_is_allowed s.peers peer_id
        then ok (peer_at peer_id address)
        else err (not_allowed peer_id)
  ]

  unfoldable pub dial : Libp2p → Node S → List ℕ → Outcome StartError Dial
  dial lib s addr = do
    reject_if (not lib.can_init) init_failed
    dial_addr ← parse_address lib addr
    target ← dial_target s dial_addr
    reject_if (not (lib.can_dial target)) dial_failed
    ok target

  -- The node is healthy from the moment that the swarm listens or dials.
  unfoldable pub started : {A : Type 0} → Node S → Outcome StartError A → Node S
  started s (ok a) = with_metrics s (mark_swarm_initialized s.metrics)
  started s (err e) = s
  started s panicked = s

pop_peer-append :
    (addr rest : List Protocol) (peer_id : List ℕ)
    → pop_peer addr ≡ some (rest, peer_id)
    → addr ≡ rest ++ (p2p peer_id ∷ [])
pop_peer-append [] rest peer_id e = cc
pop_peer-append (p2p q ∷ []) rest peer_id e =
    let nothing_else : [] ≡ rest = cc in
    let same : q ≡ peer_id = cc in rw (sym nothing_else, same) refl
pop_peer-append (transport t ∷ []) rest peer_id e = cc
pop_peer-append (protocol ∷ next ∷ more) rest peer_id e =
    elim (Option-cases (pop_peer (next ∷ more))) [
      | inl none_there ↦ ground (arith, e, none_there)
      | inr ((address, q), found) ↦
          let popped : Option (List Protocol × List ℕ) = some (protocol ∷ address, q) in
          let e' : popped ≡ some (rest, peer_id) = ground (arith, e, found) in
          let front : protocol ∷ address ≡ rest = cc in
          let same : q ≡ peer_id = cc in
          ap (λ t. protocol ∷ t) (pop_peer-append (next ∷ more) address q found)
          ∙ rw (sym front, same) refl
    ]

append-pop_peer :
    (rest : List Protocol) (peer_id : List ℕ)
    → pop_peer (rest ++ (p2p peer_id ∷ [])) ≡ some (rest, peer_id)
append-pop_peer [] peer_id = refl
append-pop_peer (protocol ∷ []) peer_id = refl
append-pop_peer (protocol ∷ next ∷ more) peer_id = rw (append-pop_peer (next ∷ more) peer_id) refl

module _ {S : Type 0} (lib : Libp2p) (s : Node S) (addr : List ℕ) where
  -- The end of `dial`, once its target is known.
  dial_known :
      (target found : Dial) (dial_addr : List Protocol)
      → lib.parse addr ≡ some dial_addr
      → dial_target s dial_addr ≡ ok found
      → dial lib s addr ≡ ok target
      → (target ≡ found) × (lib.can_dial target ≡ true)
  unfolding dial
  dial_known target found dial_addr reads known e = elim (Bool-cases lib.can_init) [
    | inr no_swarm ↦ absurd (ground (arith, e, no_swarm))
    | inl swarm ↦ elim (Bool-cases (lib.can_dial found)) [
      | inr no_dial ↦ absurd (ground (arith, e, swarm, reads, known, no_dial))
      | inl dials ↦
          let same : ok found ≡ dial lib s addr = ground (arith, swarm, reads, known, dials) in
          let target_found : target ≡ found = cc in (target_found, rw target_found dials)
    ]
  ]

  dial_refused :
      (target : Dial) (dial_addr : List Protocol) (peer_id : List ℕ)
      → lib.parse addr ≡ some dial_addr
      → dial_target s dial_addr ≡ err (not_allowed peer_id)
      → dial lib s addr ≢ ok target
  unfolding dial
  dial_refused target dial_addr peer_id reads refused e = elim (Bool-cases lib.can_init) [
    | inr no_swarm ↦ ground (arith, e, no_swarm)
    | inl swarm ↦ ground (arith, e, swarm, reads, refused)
  ]

  dial_address_only :
      (target : Dial) (dial_addr : List Protocol)
      → lib.parse addr ≡ some dial_addr
      → pop_peer dial_addr ≡ none
      → dial lib s addr ≡ ok target
      → (target ≡ address_only dial_addr) × (lib.can_dial target ≡ true)
  unfolding dial_target
  dial_address_only target dial_addr reads anyone e =
      dial_known target (address_only dial_addr) dial_addr reads (ground (arith, anyone)) e

  dial_peer_at :
      (target : Dial) (dial_addr address : List Protocol) (peer_id : List ℕ)
      → lib.parse addr ≡ some dial_addr
      → pop_peer dial_addr ≡ some (address, peer_id)
      → dial lib s addr ≡ ok target
      → (target ≡ peer_at peer_id address)
        × (peer_is_allowed s.peers peer_id ≡ true)
        × (lib.can_dial target ≡ true)
  unfolding dial_target
  dial_peer_at target dial_addr address peer_id reads named e =
      elim (Bool-cases (peer_is_allowed s.peers peer_id)) [
        | inl allowed ↦
            let (found, dials) =
              dial_known target (peer_at peer_id address) dial_addr reads
                (ground (arith, named, allowed)) e in
            (found, allowed, dials)
        | inr denied ↦
            let refused : dial_target s dial_addr ≡ err (not_allowed peer_id) =
              ground (arith, named, denied) in
            absurd (dial_refused target dial_addr peer_id reads refused e)
      ]

  -- A dial starts only at an address that can be read. Either the address ends with a peer, which
  -- is permitted and is dialed at the rest of the address; or it does not end with any peer, and
  -- the whole address is dialed.
  pub dial_lem :
      (target : Dial)
      → dial lib s addr ≡ ok target
      → (dial_addr : List Protocol) × (lib.parse addr ≡ some dial_addr)
        × (lib.can_dial target ≡ true)
        × ((((address : List Protocol) (peer_id : List ℕ)
                → dial_addr ≢ address ++ (p2p peer_id ∷ []))
              × (target ≡ address_only dial_addr))
            ⊎ ((peer_id : List ℕ) × ((address : List Protocol) × (dial_addr
                    ≡ address ++ (p2p peer_id ∷ []))
                  × (target ≡ peer_at peer_id address)
                  × (peer_is_allowed s.peers peer_id ≡ true))))
  unfolding dial dial_target
  dial_lem target e = elim (Option-cases (lib.parse addr)) [
    | inl unread ↦ ground (arith, e, unread)
    | inr (dial_addr, reads) ↦ elim (Option-cases (pop_peer dial_addr)) [
      | inl anyone ↦
          let found : (target ≡ address_only dial_addr) × (lib.can_dial target ≡ true) =
            dial_address_only target dial_addr reads anyone e in
          let no_peer : (address : List Protocol) (peer_id : List ℕ)
              → dial_addr ≢ address ++ (p2p peer_id ∷ []) =
            λ address peer_id same.
              let named = append-pop_peer address peer_id in let both = ap pop_peer same in cc in
          (dial_addr, reads, found.1, inl (no_peer, found.0))
      | inr ((address, peer_id), named) ↦
          let found : (target ≡ peer_at peer_id address)
              × (peer_is_allowed s.peers peer_id ≡ true)
              × (lib.can_dial target ≡ true) =
            dial_peer_at target dial_addr address peer_id reads named e in
          (
            dial_addr,
            reads,
            found.2,
            inr (
              peer_id,
              (address, pop_peer-append dial_addr address peer_id named, found.0, found.1),
            ),
          )
    ]
  ]
