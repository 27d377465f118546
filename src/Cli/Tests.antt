-- ===== src/Cli/Tests.antt =====
-- The theorems on file transfers between peers at concrete inputs.
use cryprq.Base.{
  ℕ, ◌≤◌, ◌<◌, ◌≡◌, ◌≢◌, refl, arith, List, [], ◌∷◌, length, replicate, length-replicate, leb,
}
use cryprq.Base.{Bool, true, false, Option, none, some, ok}
use cryprq.Base.Utf8.{is_utf8}
use cryprq.Node.FileTransfer.{FileMetadata, join}
use cryprq.Node.Externals.{Externals}
use cryprq.Node.Example.{externals, aead-IsAead}
use cryprq.P2p.Backoff.{BackoffConfig}
use cryprq.P2p.Files.{send_file_to_peer, chunk_size}
use cryprq.P2p.Files.Cutting.{Fills}
use cryprq.P2p.Swarm
use cryprq.Cli.Receive
use cryprq.Cli.Receive.Served.{IsDeliverable, source_file, requests, all_ok, file_arrives}
use cryprq.Cli.Send
use cryprq.Cli.Upload
use cryprq.Cli.Upload.Datagrams.{handle_send_file-refused}
use cryprq.Cli.Send.Loop.{expected_responses_lem, send_loop-finished}

abbrev digest : List ℕ
digest = replicate 32 7

abbrev sha256 : List ℕ → List ℕ
sha256 content = digest

abbrev whole : List ℕ → Option ℕ
whole rest = some (length rest)

whole-Fills : Fills whole
whole-Fills rest = (length rest, refl, omega arith)

abbrev storage : Receive.Storage
storage = record {
  can_create = λ path. true;
  can_open = λ path. true;
  can_remove = λ path. true;
  accepts = λ path bytes. length bytes;
  read = whole;
  sha256 = sha256;
}

abbrev text : Receive.ReceiveError → List ℕ
text e = []

abbrev directory : List ℕ
directory = 0x2f ∷ 0x64 ∷ []

abbrev name : List ℕ
name = 0x66 ∷ []

abbrev content : List ℕ
content = 1 ∷ 2 ∷ 3 ∷ []

abbrev peer : List ℕ
peer = 5 ∷ []

abbrev config : BackoffConfig
config = record { base_ms = 500; max_ms = 30000 }

abbrev nobody : Receive.Receiver
nobody = record { file_state = λ p. none; files = λ path. none }

abbrev node : Swarm.Node Receive.Receiver
node = record {
  peers = record { allowed_peers = none; keys = none; ppk_store = []; local_epoch = 0 };
  backoff = λ address. none;
  metrics = record {
    handshakes_attempted = 0;
    handshakes_success = 0;
    handshakes_failed = 0;
    rotations_total = 0;
    rotation_duration = 0;
    rotation_interval = 0;
    rotation_epoch = 0;
    active_peers = 0;
    healthy = true;
    rotation_counter = 0;
  };
  packet_recv_tx = λ p. none;
  connection_callback = false;
  file_transfer_callback = some (Receive.file_callback storage text directory);
  captured = nobody;
}

abbrev is_open : ℕ → Bool
is_open recv_tx = true

name-is_utf8 : is_utf8 name ≡ true
unfolding is_utf8
name-is_utf8 = refl

content-IsDeliverable : IsDeliverable storage whole directory name content
content-IsDeliverable = record {
  filename_utf8 = name-is_utf8;
  filename_u32 = omega arith;
  few_chunks = omega arith;
  hash_32 = refl;
  reads = whole-Fills;
  reads_back = whole-Fills;
  writes = λ bytes. omega arith;
  can_create = refl;
  can_open = refl;
}

file_arrives_example :
    let (packets, result) = send_file_to_peer sha256 whole (source_file name content) in
    let (actions, s') = Swarm.listener_run config is_open node (requests 0 peer 40 packets) in
    (result ≡ ok tt)
    × (actions ≡ all_ok 40 packets)
    × (s'.captured.files (join directory name) ≡ some content)
    × (s'.captured.file_state peer ≡ none)
file_arrives_example =
    file_arrives storage text directory peer config is_open 0 node whole name content 40 refl
      content-IsDeliverable

abbrev described : FileMetadata
described = record { filename = name; size = 3; hash = digest }

abbrev state : Receive.FileReceiveState
state = record { metadata = some described; chunks = (0, content) ∷ []; total_chunks = 1 }

abbrev answers : List (ℕ × Send.SendEvent)
answers = (1, Send.response) ∷ (1, Send.other) ∷ (2, Send.response) ∷ (2, Send.response) ∷ []

three_packets : length (send_file_to_peer sha256 whole (source_file name content)).0 ≤ 3
three_packets =
    omega (arith, expected_responses_lem whole whole-Fills sha256 name content (omega arith))

send_loop-finished_example :
    Send.send_loop Send.initial_state ((0, Send.established peer (some 3)) ∷ answers)
    ≡ Send.finished
send_loop-finished_example =
    send_loop-finished whole whole-Fills sha256 name content (omega arith) 0 peer answers refl
      three_packets

-- A socket that takes datagrams of up to 65507 bytes.
abbrev udp_externals : Externals
udp_externals = record externals { send_to = λ bytes addr. leb (length bytes) 65507 }

udp_bounded :
    (bytes : List ℕ) (addr : udp_externals.Address)
    → 65507 < length bytes
    → udp_externals.send_to bytes addr ≡ false
udp_bounded bytes addr long = ground arith

abbrev large_content : List ℕ
large_content = replicate 65536 1

abbrev parse_socket : List ℕ → ℕ → Option (udp_externals.Address)
parse_socket host port = some port

-- `/ip4/7/udp/9`
abbrev multiaddr : List ℕ
multiaddr = 0x2f ∷ 0x69 ∷ 0x70 ∷ 0x34 ∷ 0x2f ∷ 0x37 ∷ 0x2f ∷ 0x75 ∷ 0x64 ∷ 0x70 ∷ 0x2f ∷ 0x39 ∷ []

large : chunk_size ≤ length large_content
large = omega (arith, length-replicate {A = ℕ} 65536 1)

handle_send_file-refused_example :
    (Upload.handle_send_file udp_externals whole sha256 parse_socket true 50 multiaddr
      (source_file name large_content)).0
    ≢ ok tt
handle_send_file-refused_example =
    handle_send_file-refused udp_externals aead-IsAead udp_bounded whole whole-Fills sha256
      parse_socket true 50 multiaddr (source_file name large_content) large
