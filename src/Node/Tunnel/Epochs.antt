-- ===== src/Node/Tunnel/Epochs.antt =====
-- The keys of a tunnel over its rotations: they depend on the epoch, which is one byte.
use cryprq.Base.{ℕ, ◌+◌, ◌%◌, ◌≡◌, refl, sym, ap, ◌∙◌, subst, arith}
use cryprq.Base.{List, [], ◌∷◌, ◌++◌, All, All-append, Bool, Option, some, ok}
use cryprq.Base.{>>=-eq-ok, reject_if, not}
use cryprq.Crypto.Kdf.{TrafficKeys, derive_epoch_keys, derive_handshake_keys}
use cryprq.Crypto.Kdf.Lengths.{IsHkdf, derive_epoch_keys_lem}
use cryprq.Node.CryptoUtils.{Epoch, next}
use cryprq.Node.Error.{TunnelError}
use cryprq.Node.Externals.{Externals}
use cryprq.Node.SeqCounters
use cryprq.Node.Tunnel.{Tunnel, send_record, send_datagram, recv_record, open_record, accept_record}
use cryprq.Node.Tunnel.Incoming.{
  handle_incoming_record, handle_file_or_control, handle_file_meta, forward_to_tun,
}
use cryprq.Node.Tunnel.Keys.{rotate_lem}
use cryprq.Node.Tunnel.History.{Event, sends, receives, handles, rotates, step, run}
use cryprq.Node.Tunnel.Setup.{
  create_tunnel, verify_peer_identity, rotate, keys_ir, keys_ri, initial_tunnel, shared_secret,
}

epoch_eq : (e e' : Epoch) → e.value ≡ e'.value → e ≡ e'
epoch_eq e e' h = ground arith

module _ (x : Externals) (master : List ℕ) where
  -- The tunnel is in this epoch, and has the keys that are derived for it.
  record IsInEpoch (t : Tunnel x) (n : ℕ) : Type 0 where
    keys : TrafficKeys
    derived : derive_epoch_keys x.hkdf {E = TunnelError} master n 32 12 ≡ ok keys
    epoch : t.epoch.value ≡ n
    outbound : t.keys_outbound ≡ keys_ir keys
    inbound : t.keys_inbound ≡ keys_ri keys

  -- The epoch and the keys are the same in both tunnels.
  abbrev pub SameKeys : Tunnel x → Tunnel x → Type 0
  SameKeys t t' =
      (t.epoch ≡ t'.epoch)
      × ((t.keys_outbound ≡ t'.keys_outbound) × (t.keys_inbound ≡ t'.keys_inbound))

  sends_keys :
      (t : Tunnel x) (sid mt fl : ℕ) (payload : List ℕ)
      → SameKeys t (send_record x t sid mt fl payload).1
  unfolding send_record send_datagram
  sends_keys t sid mt fl payload = ground arith

  handles_keys :
      (t : Tunnel x) (mt sid : ℕ) (payload : List ℕ)
      → SameKeys t (handle_incoming_record x t mt sid payload).1
  unfolding handle_incoming_record handle_file_or_control forward_to_tun handle_file_meta
  handles_keys t mt sid payload = ground arith

  receives_keys :
      (t : Tunnel x) (now : x.timing.Instant) (d : List ℕ) (addr : x.Address)
      → SameKeys t (recv_record x t now (some (d, addr))).1
  unfolding recv_record open_record accept_record
  receives_keys t now d addr = ground arith

  same_epoch : (t t' : Tunnel x) (n : ℕ) → IsInEpoch t n → SameKeys t t' → IsInEpoch t' n
  same_epoch t t' n own (e, (o, i)) = record {
    keys = own.keys;
    derived = own.derived;
    epoch = sym (ap (λ (p : Epoch). p.value) e) ∙ own.epoch;
    outbound = sym o ∙ own.outbound;
    inbound = sym i ∙ own.inbound;
  }

  -- The rotations among the events, which all are those of this tunnel's task.
  abbrev pub rotations : List (Event x) → ℕ
  rotations [] = 0
  rotations (rotates ms ∷ es) = 1 + rotations es
  rotations (sends sid mt fl payload ∷ es) = rotations es
  rotations (receives now d addr ∷ es) = rotations es
  rotations (handles mt sid payload ∷ es) = rotations es

  rotations-append :
      (es es' : List (Event x)) → rotations (es ++ es') ≡ rotations es + rotations es'
  rotations-append [] es' = omega arith
  rotations-append (rotates ms ∷ es) es' = omega (arith, rotations-append es es')
  rotations-append (sends sid mt fl payload ∷ es) es' = rotations-append es es'
  rotations-append (receives now d addr ∷ es) es' = rotations-append es es'
  rotations-append (handles mt sid payload ∷ es) es' = rotations-append es es'

  abbrev pub IsOwn : Event x → Type 0
  IsOwn (rotates ms) = ms ≡ master
  IsOwn _ = Unit

  module _ (laws : IsHkdf x.hkdf) where
    rotate-IsInEpoch :
        (t : Tunnel x) (n : ℕ) → IsInEpoch t n → IsInEpoch (rotate x master t).1 ((n + 1) % 256)
    unfolding rotate next
    rotate-IsInEpoch t n own =
        let (k, derived, _) =
          derive_epoch_keys_lem x.hkdf laws {E = TunnelError} master ((t.epoch.value + 1) % 256) 32
            12 (omega arith) (omega arith) in
        let number : (t.epoch.value + 1) % 256 ≡ (n + 1) % 256 = omega (arith, own.epoch) in
        rw (derived, rotate)
          (record {
            keys = k;
            derived =
                subst (λ (m : ℕ). derive_epoch_keys x.hkdf {E = TunnelError} master m 32 12 ≡ ok k)
                  number derived;
            epoch = number;
            outbound = refl;
            inbound = refl;
          })

    run-IsInEpoch :
        (es : List (Event x)) (t : Tunnel x) (n : ℕ)
        → All IsOwn es
        → IsInEpoch t (n % 256)
        → IsInEpoch (run x es t) ((n + rotations es) % 256)
    unfolding run step
    run-IsInEpoch [] t n own at = subst (IsInEpoch t) (omega arith) at
    run-IsInEpoch (sends sid mt fl payload ∷ es) t n own at =
        run-IsInEpoch es _ n own.1 (same_epoch t _ (n % 256) at (sends_keys t sid mt fl payload))
    run-IsInEpoch (receives now d addr ∷ es) t n own at =
        run-IsInEpoch es _ n own.1 (same_epoch t _ (n % 256) at (receives_keys t now d addr))
    run-IsInEpoch (handles mt sid payload ∷ es) t n own at =
        run-IsInEpoch es _ n own.1 (same_epoch t _ (n % 256) at (handles_keys t mt sid payload))
    run-IsInEpoch (rotates ms ∷ es) t n own at =
        let turned = rotate-IsInEpoch t (n % 256) at in
        let turned' : IsInEpoch (rotate x ms t).1 ((n + 1) % 256) =
          rw own.0 (subst (IsInEpoch (rotate x master t).1) (omega arith) turned) in
        subst (IsInEpoch (run x es (rotate x ms t).1)) (omega arith)
          (run-IsInEpoch es (rotate x ms t).1 (n + 1) own.1 turned')

    created-IsInEpoch :
        (bound : Bool) (pk id sig : List ℕ) (now : x.timing.Instant) (dir : Option (List ℕ))
        (t : Tunnel x)
        → create_tunnel x bound pk id sig now dir ≡ ok (t, master)
        → IsInEpoch t 0
    unfolding create_tunnel initial_tunnel
    created-IsInEpoch bound pk id sig now dir t e =
        let (_, _, rest) = >>=-eq-ok (reject_if (not bound) _) _ e in
        let (_, _, rest') = >>=-eq-ok (verify_peer_identity x pk id sig) _ rest in
        let ((auth, ms), _, rest'') =
          >>=-eq-ok (derive_handshake_keys x.hkdf _ (shared_secret x pk)) _ rest' in
        let (keys, derived, returned) = >>=-eq-ok (derive_epoch_keys x.hkdf ms 0 32 12) _ rest'' in
        let secret : ms ≡ master = cc in
        let made : initial_tunnel x keys now dir ≡ t = cc in
        subst (λ (u : Tunnel x). IsInEpoch u 0) made
          (record {
            keys = keys;
            derived =
                subst
                  (λ (m : List ℕ). derive_epoch_keys x.hkdf {E = TunnelError} m 0 32 12 ≡ ok keys)
                  secret derived;
            epoch = refl;
            outbound = refl;
            inbound = refl;
          })

    same_keys : (t t' : Tunnel x) (n : ℕ) → IsInEpoch t n → IsInEpoch t' n → SameKeys t t'
    same_keys t t' n own own' =
        let keys : own.keys ≡ own'.keys = let both = sym own.derived ∙ own'.derived in cc in
        (
          epoch_eq t.epoch t'.epoch (own.epoch ∙ sym own'.epoch),
          (
            own.outbound ∙ ap keys_ir keys ∙ sym own'.outbound,
            own.inbound ∙ ap keys_ri keys ∙ sym own'.inbound,
          ),
        )

    -- After a rotation the sequence numbers of a tunnel start over, and after a multiple of 256
    -- further rotations its epoch and its keys are the same again, whatever is sent, received and
    -- handled in between, over HKDF with its documented behaviour, for a tunnel as it was created
    -- and the rotations of its own task.
    pub keys_recur :
        (bound : Bool) (pk id sig : List ℕ) (now : x.timing.Instant) (dir : Option (List ℕ))
        (t : Tunnel x) (es es' : List (Event x))
        → create_tunnel x bound pk id sig now dir ≡ ok (t, master)
        → All IsOwn es
        → All IsOwn es'
        → rotations es' % 256 ≡ 0
        → let u = (rotate x master (run x es t)).1 in
          let u' = (rotate x master (run x (es ++ es') t)).1 in
          SameKeys u u' × (u.seq_counters ≡ SeqCounters.new) × (u'.seq_counters ≡ SeqCounters.new)
    keys_recur bound pk id sig now dir t es es' created own own' whole =
        let start = created-IsInEpoch bound pk id sig now dir t created in
        let same : rotations (es ++ es') % 256 ≡ rotations es % 256 =
          omega (arith, rotations-append es es') in
        let at = run-IsInEpoch es t 0 own start in
        let at' = run-IsInEpoch (es ++ es') t 0 (All-append IsOwn es es' own own') start in
        let turned = rotate-IsInEpoch (run x es t) ((0 + rotations es) % 256) at in
        let turned' =
          rotate-IsInEpoch (run x (es ++ es') t) ((0 + rotations es) % 256)
            (subst (IsInEpoch (run x (es ++ es') t)) (omega arith) at') in
        let (_, _, reset, _, _) = rotate_lem x laws master (run x es t) in
        let (_, _, reset', _, _) = rotate_lem x laws master (run x (es ++ es') t) in
        (same_keys _ _ (((0 + rotations es) % 256 + 1) % 256) turned turned', reset, reset')
