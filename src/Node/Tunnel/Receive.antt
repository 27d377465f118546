-- ===== src/Node/Tunnel/Receive.antt =====
-- Receiving a datagram: it never panics, and what it does to the replay window.
use cryprq.Base.{ℕ, ◌≤◌, ◌≡◌, ◌≢◌, ◌⊎◌, inl, inr, refl, sym, ap, ◌∙◌, subst, arith, min}
use cryprq.Base.{List, length, take, length-take, Option, none, some, Outcome, ok, panicked}
use cryprq.Base.{>>=-eq-ok, Outcome-cases, Bool-cases, leb, ◌-◌}
use cryprq.Core.Header
use cryprq.Core.Header.{RecordHeader}
use cryprq.Core.Header.Codec
use cryprq.Core.Record
use cryprq.Core.Record.Codec as RecordCodec
use cryprq.Core.Aead.{Aead}
use cryprq.Node.Error.{TunnelError}
use cryprq.Node.Externals.{Externals}
use cryprq.Node.RecordLayer
use cryprq.Node.RecordLayer.{DirectionKeys}
use cryprq.Node.Replay.{
  ReplayWindow, check_and_update, check_seen, advance, word_count, replay_window_size,
}
use cryprq.Node.Replay.Refine.{advance_bitmap-slide, in_range-near}
use cryprq.Node.RateLimiter.{check_and_consume}
use cryprq.Node.Tunnel.{Tunnel, recv_record, open_record, accept_record, buffer_size}

-- The header of an accepted datagram is the one in its first 20 bytes.
pub recv_parsed :
    (aead : Aead) (buf : List ℕ) (keys : DirectionKeys) (h : RecordHeader) (payload : List ℕ)
    → RecordLayer.recv_record aead buf keys ≡ ok (h, payload)
    → (20 ≤ length buf) × (Header.from_bytes (take 20 buf) ≡ ok h)
unfolding RecordLayer.recv_record
recv_parsed aead buf keys h payload e =
    let (r, parsed, rest) = >>=-eq-ok (Record.from_bytes buf) _ e in
    let (plaintext, opened, same) = >>=-eq-ok (Record.decrypt aead r keys.key keys.iv) _ rest in
    let (long, head, _, _) = RecordCodec.from_bytes-eq-ok buf r parsed in
    let first : r.header ≡ h = cc in (long, head ∙ ap ok first)

recv_header :
    (aead : Aead) (buf : List ℕ) (keys : DirectionKeys) (h : RecordHeader) (payload : List ℕ)
    → RecordLayer.recv_record aead buf keys ≡ ok (h, payload)
    → Header.fields (take 20 buf) ≡ h
recv_header aead buf keys h payload e =
    let (_, head) = recv_parsed aead buf keys h payload e in
    let (_, _, fields) = Codec.from_bytes-eq-ok (take 20 buf) h head in fields

decrypt_not-panicked :
    (aead : Aead) (r : Record.Record) (keys : DirectionKeys)
    → Record.decrypt aead r keys.key keys.iv ≢ panicked
unfolding Record.decrypt
decrypt_not-panicked aead r keys p = ground arith

recv_not-panicked :
    (aead : Aead) (buf : List ℕ) (keys : DirectionKeys)
    → 20 ≤ length buf
    → RecordLayer.recv_record aead buf keys ≢ panicked
unfolding RecordLayer.recv_record
recv_not-panicked aead buf keys long e = elim (Outcome-cases (Record.from_bytes buf)) [
  | inl (r, parsed) ↦ ground (arith, decrypt_not-panicked aead r keys)
  | inr (inl (f, failed)) ↦ ground arith
  | inr (inr panic) ↦
      let short = (RecordCodec.from_bytes-panicked buf).0 panic in absurd (omega arith)
]

seen_not-panicked :
    (w : ReplayWindow) (d : ℕ) → length w.bitmap ≡ word_count → (check_seen w d).0 ≢ panicked
unfolding check_seen
seen_not-panicked w d count = elim (Bool-cases (leb replay_window_size d)) [
  | inl far ↦ ground (arith, far)
  | inr near ↦ ground (arith, near, in_range-near d w.bitmap count (ground arith))
]

check_not-panicked :
    (w : ReplayWindow) (n : ℕ) → length w.bitmap ≡ word_count → (check_and_update w n).0 ≢ panicked
unfolding check_and_update advance
check_not-panicked w n count =
    let seen = seen_not-panicked w (w.max_nonce - n) count in
    let moved = advance_bitmap-slide (n - w.max_nonce) w.bitmap count in ground (arith, seen, moved)

header_not-panicked : (buf : List ℕ) → Header.from_bytes buf ≢ panicked
header_not-panicked buf e = ground (arith, Codec.from_bytes_cases buf)

consume_not-panicked :
    (x : Externals) (t : Tunnel x) (now : x.timing.Instant)
    → (check_and_consume x.timing t.rate_limiter now).0 ≢ panicked
unfolding check_and_consume
consume_not-panicked x t now = ground arith

-- The sequence number in the header of a datagram, as the receive buffer holds it.
abbrev pub datagram_seq : List ℕ → ℕ
datagram_seq datagram = (Header.fields (take 20 (take buffer_size datagram))).sequence_number

module _ (x : Externals) where
  accept_not-panicked :
      (t : Tunnel x) (h : RecordHeader) (payload : List ℕ)
      → length t.replay_window.bitmap ≡ word_count
      → (accept_record x t h payload).0 ≢ panicked
  unfolding accept_record
  accept_not-panicked t h payload count =
      elim (Outcome-cases (check_and_update t.replay_window h.sequence_number).0) [
        | inl (u, e) ↦ rw (e, accept_record) λ same. cc
        | inr (inl (f, e)) ↦ rw (e, accept_record) λ same. cc
        | inr (inr e) ↦ absurd (check_not-panicked _ _ count e)
      ]

  open_not-panicked :
      (t : Tunnel x) (buf : List ℕ)
      → length t.replay_window.bitmap ≡ word_count
      → (open_record x t buf).0 ≢ panicked
  unfolding open_record
  open_not-panicked t buf count =
      elim (Outcome-cases (Header.from_bytes (take (min (length buf) 20) buf))) [
        | inl (h, parsed) ↦
            let (long, _, _) = Codec.from_bytes-eq-ok _ h parsed in
            let enough : 20 ≤ length buf = omega (arith, length-take (min (length buf) 20) buf) in
            elim (Outcome-cases (RecordLayer.recv_record x.aead buf t.keys_outbound)) [
              | inl ((h', payload), opened) ↦
                  rw (parsed, opened, open_record) (accept_not-panicked t h' payload count)
              | inr (inl (f, failed)) ↦ rw (parsed, failed, open_record) λ e. cc
              | inr (inr panic) ↦ absurd (recv_not-panicked x.aead buf t.keys_outbound enough panic)
            ]
        | inr (inl (f, failed)) ↦ rw (failed, open_record) λ e. cc
        | inr (inr panic) ↦ absurd (header_not-panicked _ panic)
      ]

  -- In a release build, where sums wrap, receiving never panics, on no datagram and on no error
  -- of the socket, if the bitmap of the replay window has its 32 words: neither is a record
  -- parsed or opened out of range, nor is a word of the bitmap read or written out of range.
  pub recv_record-not-panicked :
      (t : Tunnel x) (now : x.timing.Instant) (datagram : Option (List ℕ × x.Address))
      → length t.replay_window.bitmap ≡ word_count
      → (recv_record x t now datagram).0 ≢ panicked
  unfolding recv_record
  recv_record-not-panicked t now none count = λ e. ground arith
  recv_record-not-panicked t now (some (d, addr)) count =
      elim (Outcome-cases (check_and_consume x.timing t.rate_limiter now).0) [
        | inl (u, e) ↦ rw (e, recv_record) (open_not-panicked _ (take buffer_size d) count)
        | inr (inl (f, e)) ↦ rw (e, recv_record) λ same. cc
        | inr (inr e) ↦ absurd (consume_not-panicked x t now e)
      ]

  -- What a call does to the window: nothing, or one check of the datagram's sequence number, which
  -- passed if the call succeeds.
  abbrev pub WindowEffect :
      Tunnel x → ℕ → Outcome TunnelError (ℕ × (ℕ × List ℕ)) × Tunnel x → Type 0
  WindowEffect t n (r, t') =
      ((t'.replay_window ≡ t.replay_window) × ((p : ℕ × (ℕ × List ℕ)) → r ≢ ok p))
      ⊎ ((t'.replay_window ≡ (check_and_update t.replay_window n).1)
          × ((p : ℕ × (ℕ × List ℕ)) → r ≡ ok p → (check_and_update t.replay_window n).0 ≡ ok tt))

  accept-WindowEffect :
      (t : Tunnel x) (h : RecordHeader) (payload : List ℕ)
      → WindowEffect t h.sequence_number (accept_record x t h payload)
  unfolding accept_record
  accept-WindowEffect t h payload =
      elim (Outcome-cases (check_and_update t.replay_window h.sequence_number).0) [
        | inl (u, e) ↦ rw (e, accept_record) (inr (refl, λ p same. refl))
        | inr (inl (f, e)) ↦ rw (e, accept_record) (inr (refl, λ p same. absurd cc))
        | inr (inr e) ↦ rw (e, accept_record) (inr (refl, λ p same. absurd cc))
      ]

  open-WindowEffect :
      (t : Tunnel x) (buf : List ℕ)
      → WindowEffect t (Header.fields (take 20 buf)).sequence_number (open_record x t buf)
  unfolding open_record
  open-WindowEffect t buf =
      elim (Outcome-cases (Header.from_bytes (take (min (length buf) 20) buf))) [
        | inl (h, parsed) ↦
            elim (Outcome-cases (RecordLayer.recv_record x.aead buf t.keys_outbound)) [
              | inl ((h', payload), opened) ↦
                  let head = recv_header x.aead buf t.keys_outbound h' payload opened in
                  let number = ap (λ (r : RecordHeader). r.sequence_number) head in
                  rw (parsed, opened, open_record)
                    (subst (λ (n : ℕ). WindowEffect t n (accept_record x t h' payload)) (sym number)
                      (accept-WindowEffect t h' payload))
              | inr (inl (f, failed)) ↦
                  rw (parsed, failed, open_record) (inl (refl, λ p same. absurd cc))
              | inr (inr panic) ↦ rw (parsed, panic, open_record) (inl (refl, λ p same. absurd cc))
            ]
        | inr (inl (f, failed)) ↦ rw (failed, open_record) (inl (refl, λ p same. absurd cc))
        | inr (inr panic) ↦ absurd (header_not-panicked _ panic)
      ]

  -- The window after a call is the one before, or it has checked the datagram's sequence number,
  -- with success if the call succeeds.
  pub recv_record-WindowEffect :
      (t : Tunnel x) (now : x.timing.Instant) (d : List ℕ) (addr : x.Address)
      → WindowEffect t (datagram_seq d) (recv_record x t now (some (d, addr)))
  unfolding recv_record
  recv_record-WindowEffect t now d addr =
      elim (Outcome-cases (check_and_consume x.timing t.rate_limiter now).0) [
        | inl (u, e) ↦ rw (e, recv_record) (open-WindowEffect _ (take buffer_size d))
        | inr (inl (f, e)) ↦ rw (e, recv_record) (inl (refl, λ p same. absurd cc))
        | inr (inr e) ↦ rw (e, recv_record) (inl (refl, λ p same. absurd cc))
      ]
