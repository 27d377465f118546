-- ===== src/Cli/Send/Loop.antt =====
-- The sending loop ends once each packet of the file has its response.
use cryprq.Base.{ℕ, suc, ◌+◌, ◌-◌, ◌*◌, ◌%◌, ◌^◌, ◌<◌, ◌≤◌, List, [], ◌∷◌, length}
use cryprq.Base.{
  ◌≡◌, refl, ap, ◌∙◌, arith, Bool, true, false, some, Option, ◌⊎◌, inl, inr, leb, ltb,
}
use cryprq.Base.{Bool-cases, Option-cases, length-append, ◌&&◌}
use cryprq.P2p.Files.{chunk_size, send_file_to_peer}
use cryprq.P2p.Files.Cutting.{Fills, cut, chunk_packets, length-cut, send_file_to_peer-cut}
use cryprq.Cli.Receive.Served.{source_file}
use cryprq.Cli.Send

abbrev pub response_count : List (ℕ × Send.SendEvent) → ℕ
response_count [] = 0
response_count ((now, Send.response) ∷ events) = suc (response_count events)
response_count ((now, _) ∷ events) = response_count events

-- No event tells that the connection failed.
abbrev pub no_failure : List (ℕ × Send.SendEvent) → Bool
no_failure [] = true
no_failure ((now, Send.outgoing_error) ∷ events) = false
no_failure ((now, _) ∷ events) = no_failure events

check_timeout-cases :
    (now : ℕ) (s : Send.SendState)
    → (Send.check_timeout now s ≡ Send.finished) ⊎ (Send.check_timeout now s ≡ Send.continues s)
unfolding Send.check_timeout
check_timeout-cases now s = elim (Option-cases s.target_peer_id) [
  | inl e ↦ inr (ground (arith, e))
  | inr (peer_id, e) ↦ elim (Option-cases s.start_time) [
    | inl e' ↦ inr (ground (arith, e, e'))
    | inr (start, e') ↦ elim (Bool-cases (s.file_sent && ltb 20 (now - start))) [
      | inl late ↦ inl (ground (arith, e, e', late))
      | inr early ↦ inr (ground (arith, e, e', early))
    ]
  ]
]

-- The file is on its way, and responses are missing.
record IsWaiting (s : Send.SendState) (expected received : ℕ) : Type 0 where
  sent : s.file_sent ≡ true
  expects : s.responses_expected ≡ expected
  counted : s.responses_received ≡ received
  missing : received < expected
  in_range : expected < 2 ^ 32

send_loop-IsWaiting :
    (events : List (ℕ × Send.SendEvent)) (s : Send.SendState) (expected received : ℕ)
    → IsWaiting s expected received
    → no_failure events ≡ true
    → expected ≤ received + response_count events
    → Send.send_loop s events ≡ Send.finished
unfolding Send.send_loop Send.send_turn Send.on_established
send_loop-IsWaiting [] s expected received w fine enough =
    let missing = w.missing in absurd (omega arith)
send_loop-IsWaiting ((now, Send.outgoing_error) ∷ events) s expected received w fine enough =
    absurd (ground (arith, fine))
send_loop-IsWaiting ((now, Send.other) ∷ events) s expected received w fine enough =
    elim (check_timeout-cases now s) [
      | inl e ↦ ground (arith, e)
      | inr e ↦
          let rest = send_loop-IsWaiting events s expected received w fine enough in
          ground (arith, e, rest)
    ]
send_loop-IsWaiting ((now, Send.outbound_failure) ∷ events) s expected received w fine enough =
    elim (check_timeout-cases now s) [
      | inl e ↦ ground (arith, e)
      | inr e ↦
          let rest = send_loop-IsWaiting events s expected received w fine enough in
          ground (arith, e, rest)
    ]
send_loop-IsWaiting ((now, Send.established peer_id size) ∷ events) s expected received w fine
      enough =
    let s' : Send.SendState = record s { target_peer_id = some peer_id; start_time = some now } in
    let again : Send.on_established now s peer_id size ≡ s' =
      let sent = w.sent in ground (arith, sent) in
    let w' : IsWaiting s' expected received = record {
      sent = w.sent;
      expects = w.expects;
      counted = w.counted;
      missing = w.missing;
      in_range = w.in_range;
    } in
    let rest = send_loop-IsWaiting events s' expected received w' fine enough in
    elim (check_timeout-cases now s') [
      | inl e ↦ ground (arith, e, again)
      | inr e ↦ ground (arith, e, again, rest)
    ]
send_loop-IsWaiting ((now, Send.response) ∷ events) s expected received w fine enough =
    let missing = w.missing in
    let in_range = w.in_range in
    let next : (s.responses_received + 1) % 2 ^ 32 ≡ suc received =
      let counted = w.counted in omega arith in
    let sent = w.sent in
    let expects = w.expects in
    let s' : Send.SendState = record s { responses_received = suc received } in
    elim (Bool-cases (leb expected (suc received))) [
      | inl all ↦ ground (arith, next, sent, expects, all)
      | inr more ↦
          let still : suc received < expected = ground (arith, more) in
          let w' : IsWaiting s' expected (suc received) = record {
            sent = w.sent;
            expects = w.expects;
            counted = refl;
            missing = still;
            in_range = w.in_range;
          } in
          let rest = send_loop-IsWaiting events s' expected (suc received) w' fine (omega arith) in
          elim (check_timeout-cases now s') [
            | inl e ↦ ground (arith, next, sent, expects, more, e)
            | inr e ↦ ground (arith, next, sent, expects, more, e, rest)
          ]
    ]

chunk_packets-length :
    (chunk_id : ℕ) (pieces : List (List ℕ)) → length (chunk_packets chunk_id pieces) ≡ length pieces
chunk_packets-length chunk_id [] = refl
chunk_packets-length chunk_id (piece ∷ pieces) = ap suc (chunk_packets-length (chunk_id + 1) pieces)

module _ (read : List ℕ → Option ℕ) (fills : Fills read) (sha256 : List ℕ → List ℕ)
    (filename content : List ℕ) (few : length content < 65536 * (2 ^ 32 - 4)) where
  -- The sender counts on one response for each packet.
  pub expected_responses_lem :
      length (send_file_to_peer sha256 read (source_file filename content)).0
      ≡ Send.expected_responses (some (length content))
  expected_responses_lem =
      let pieces = cut chunk_size (suc (length content)) content in
      let number = length-cut (suc (length content)) content (omega arith) in
      ap (λ t. length t.0) (send_file_to_peer-cut read fills sha256 filename content (omega arith))
      ∙ ap suc (length-append (chunk_packets 0 pieces) _)
      ∙ omega (arith, chunk_packets-length 0 pieces)

  -- Once the connection stands, the loop of a sender finishes, if its file of fewer than 2 ^ 32 -
  -- 4 chunks can be measured, each read fills the buffer, no connection error comes, and at least
  -- as many responses come as packets are sent, whatever other events and delays come in between.
  pub send_loop-finished :
      (start : ℕ) (peer_id : List ℕ) (events : List (ℕ × Send.SendEvent))
      → no_failure events ≡ true
      → length (send_file_to_peer sha256 read (source_file filename content)).0
        ≤ response_count events
      → Send.send_loop Send.initial_state
          ((start, Send.established peer_id (some (length content))) ∷ events)
        ≡ Send.finished
  unfolding Send.send_loop Send.send_turn Send.on_established
  send_loop-finished start peer_id events fine enough =
      let expected = Send.expected_responses (some (length content)) in
      let s' = Send.on_established start Send.initial_state peer_id (some (length content)) in
      let w : IsWaiting s' expected 0 = record {
        sent = refl;
        expects = refl;
        counted = refl;
        missing = omega arith;
        in_range = omega arith;
      } in
      let rest =
        send_loop-IsWaiting events s' expected 0 w fine
          (let all = expected_responses_lem in omega arith) in
      elim (check_timeout-cases start s') [
        | inl e ↦ ground (arith, e)
        | inr e ↦ ground (arith, e, rest)
      ]
