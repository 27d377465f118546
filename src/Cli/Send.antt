-- ===== src/Cli/Send.antt =====
-- The event loop of `handle_send_file_old` in cli/src/main.rs, and `parse_udp_addr`.
pub mod Loop
pub mod Address
use cryprq.Base.{ℕ, ◌+◌, ◌-◌, ◌*◌, ◌/◌, ◌%◌, ◌^◌, List, [], ◌∷◌, ltb, leb, ◌==◌, ◌&&◌, bytes_eq}
use cryprq.Base.{Bool, true, false, Option, none, some, Outcome, ok, err, ◌>>=◌, if◌then◌else◌}
use cryprq.Base.Bytes.{bytes_of}
use cryprq.Base.Text.{split, parse_decimal}

-- The events that the loop tells apart; `established` carries the size of the file as it is read
-- then, if it can be.
pub data SendEvent : Type 0 where
  established : List ℕ → Option ℕ → SendEvent
  outgoing_error response outbound_failure other : SendEvent

-- The variables of the loop. Times are in seconds; `send_tasks` counts the tasks that were spawned
-- to send the file.
pub record SendState : Type 0 where
  pub file_sent : Bool
  pub target_peer_id : Option (List ℕ)
  pub responses_received : ℕ
  pub responses_expected : ℕ
  pub start_time : Option ℕ
  pub send_tasks : ℕ

abbrev pub initial_state : SendState
initial_state = record {
  file_sent = false;
  target_peer_id = none;
  responses_received = 0;
  responses_expected = 0;
  start_time = none;
  send_tasks = 0;
}

-- How a turn ends: with the next one, with `break`, or with the error of `bail!`.
pub data Turn : Type 0 where
  continues : SendState → Turn
  finished failed : Turn

-- The metadata, the chunks and the end packet.
abbrev pub expected_responses : Option ℕ → ℕ
expected_responses size =
    let file_size : ℕ = elim size [ none ↦ 0 | some n ↦ n ] in
    (1 + (file_size + 65535) / 65536 % 2 ^ 32 + 1) % 2 ^ 32

-- The timeout behind each event.
unfoldable pub check_timeout : ℕ → SendState → Turn
check_timeout now s = elim s.target_peer_id [
  | none ↦ continues s
  | some peer_id ↦ elim s.start_time [
    | none ↦ continues s
    | some start ↦ if s.file_sent && ltb 20 (now - start) then finished else continues s
  ]
]

unfoldable pub on_established : ℕ → SendState → List ℕ → Option ℕ → SendState
on_established now s peer_id size =
    let s' = record s { target_peer_id = some peer_id; start_time = some now } in
    if s.file_sent then s' else record s' {
      responses_expected = expected_responses size;
      file_sent = true;
      send_tasks = s.send_tasks + 1;
    }

-- One turn of the loop.
unfoldable pub send_turn : ℕ → SendState → SendEvent → Turn
send_turn now s (established peer_id size) = check_timeout now (on_established now s peer_id size)
send_turn now s outgoing_error = failed
send_turn now s response =
    let received = (s.responses_received + 1) % 2 ^ 32 in
    let s' = record s { responses_received = received } in
    if s.file_sent && leb s.responses_expected received then finished else check_timeout now s'
send_turn now s outbound_failure = check_timeout now s
send_turn now s other = check_timeout now s

unfoldable pub send_loop : SendState → List (ℕ × SendEvent) → Turn
send_loop s [] = continues s
send_loop s ((now, event) ∷ events) = elim (send_turn now s event) [
  | continues s' ↦ send_loop s' events
  | finished ↦ finished
  | failed ↦ failed
]

-- The errors of `parse_udp_addr`.
pub data AddressError : Type 0 where
  invalid_port no_port : AddressError

-- The loop over the parts, with the address and the port found so far.
unfoldable pub scan_parts :
    Option (List ℕ) → Option ℕ → List (List ℕ) → Outcome AddressError (Option (List ℕ) × Option ℕ)
scan_parts ip port [] = ok (ip, port)
scan_parts ip port (part ∷ []) = ok (ip, port)
scan_parts ip port (part ∷ next ∷ parts) =
    let ip' = if bytes_eq part (bytes_of "ip4") then some next else ip in
    let moved = scan_parts ip' port (next ∷ parts) in
    if bytes_eq part (bytes_of "udp")
    then elim (parse_decimal 65535 next) [
      | none ↦ err invalid_port
      | some n ↦ scan_parts ip' (some n) (next ∷ parts)
    ]
    else moved

-- The address and the port of the parts; the port has to be there.
unfoldable pub read_parts : List (List ℕ) → Outcome AddressError (List ℕ × ℕ)
read_parts parts = do
  (ip, port) ← scan_parts none none parts
  number ← elim port [ none ↦ err no_port | some n ↦ ok n ]
  ok (elim ip [ none ↦ bytes_of "0.0.0.0" | some text ↦ text ], number)

unfoldable pub parse_udp_addr : List ℕ → Outcome AddressError (List ℕ × ℕ)
parse_udp_addr addr = read_parts (split 0x2f addr)
