-- ===== src/Lib.antt =====
-- Verification of cryprq, a peer-to-peer VPN: the core logic of its crates core, crypto, node, p2p
-- and cli.
--
-- The program. A tunnel (crate node) takes packets, encrypts them as records (crate core) under the
-- keys of the current epoch (crate crypto), and sends each as a UDP datagram; in the other direction it
-- limits the rate, parses, decrypts, checks for replays, and hands the payload to the TUN device or to
-- the file transfers. A task moves on to the next epoch's keys every five minutes. The crate p2p keeps
-- which peers are allowed, their pre-shared keys, and how long a failing address has to wait; its two
-- event loops serve the requests of peers: packets for the TUN device, and the packets of files, which
-- go to a callback of the crate cli. The crate core also has the C interface.
--
-- The files, each named after the part of the program that it models:
--   Core/Header, Core/Record, Core/Nonce   core/src/record.rs: `RecordHeader`, `Record`, and the nonce
--     loop that stands in `encrypt`, in `decrypt` and in node/src/crypto_utils.rs. Core/Header/Codec and
--     Core/Record/Codec are on parsing and printing, Core/Record/Seal on encryption.
--   Core/Aead       the interface of ChaCha20-Poly1305, with the behaviour that RFC 8439 documents.
--   Crypto/Kdf      crypto/src/kdf.rs, over the interface of HKDF; Crypto/Kdf/Lengths its laws.
--   Core/Ffi        core/src/ffi.rs, handle.rs, util.rs and error.rs: the C interface. Connect is on
--     sequences of connects, Init and Outcomes on initialisation.
--   Crypto/Zkp, Crypto/Suite  crypto/src/zkp.rs and crypto/src/pqc_suite.rs.
--   Crypto/Ppk      crypto/src/ppk.rs: `PostQuantumPSK` and `PPKStore`; Crypto/Ppk/Store its laws.
--   Node/Replay     `ReplayWindow` of node/src/lib.rs. Its loops over the bitmap are the functions
--     copy_up, clear_low and shift_loop. Value reads a bitmap as one number, Slide and Mark say what the
--     loops do to it, Spec is the specification, Refine and Runs relate the two.
--   Node/RateLimiter  `RateLimiter` of node/src/lib.rs, over a clock and `f64`.
--   Node/BufferPool   `BufferPool` of node/src/lib.rs, over a bounded queue; Uses is on runs of calls.
--   Node/CryptoUtils, Node/SeqCounters, Node/RecordLayer, Node/FileTransfer, Node/Padding, Node/Error
--     the files of node/src with these names.
--   Node/Tunnel     `Tunnel` of node/src/lib.rs: send_record, recv_record and what they are made of. The
--     child Incoming has handle_incoming_record and handle_file_or_control, Setup has create_tunnel,
--     verify_peer_identity and the rotation task, Auth has generate_handshake_auth. Receive, Exchange,
--     Deliver, Handling, TestKeys, Keys, Epochs and History are proofs. Tasks has the senders and the rotation as interleaved steps, with
--     Numbers and Races on its runs.
--   Node/Tun        node/src/tun.rs: the two loops of `start_forwarding` (Forwarding),
--     `netmask_to_cidr` (Netmask), and the creation and configuration of the device (Configure).
--   Node/Wire, Node/Dns, Node/Tls, Node/TrafficShaping  the files of these names under node/src.
--   Node/Externals  what the tunnel calls outside the repository; Node/Example an instance for the tests.
--   P2p/Backoff, P2p/Peers  the back-off, and the allow list and keys, of p2p/src/lib.rs.
--   P2p/Settings    what p2p/src/lib.rs reads from the environment.
--   P2p/Metrics     p2p/src/metrics.rs.
--   P2p/Swarm       the loops of `start_listener` and `dial_peer` of p2p/src/lib.rs, with the statics of the
--     crate as one record; an event of the swarm is a value, as is the registration of a peer's
--     channel between two events, and what a loop asks of the swarm a list of actions. Requests, Handshakes and Dialing are on runs. P2p/Startup is what comes before the loops,
--     P2p/Rotation the rotation task.
--   P2p/Files       `send_file_to_peer` and `calculate_file_hash`. Reading says that their loops end, Cutting
--     what they make of a file.
--   Cli/Receive     the callback of `handle_receive_file_old` of cli/src/main.rs. Arms and Chunks are on its
--     packets, Delivery on a whole file, Served on the listener that calls it, Safety on its errors.
--   Cli/Send        the loop of `handle_send_file_old` (Loop) and `parse_udp_addr` (Address).
--   Cli/Upload      `handle_send_file`, the transfer over the tunnel; Datagrams is on its sizes.
--   Cli/Download    `handle_receive_file`, the other side of it. Arrivals is on one datagram, Loop on the
--     receive loop, Transfers on whole files.
--   Cli/Vpn         the connection callback of `main`, and what the loops of node/src/tun.rs, the forwarder
--     and the event loop do together (Channels, Packets).
--   P2p/Forwarder   `Libp2pPacketForwarder` of p2p/src/packet_forwarder.rs. Tasks has its sending task and
--     the event loop as interleaved steps over the lock of the swarm.
--   Cli/Main        `main`, from the parsed arguments on.
--   P2p/Packets     the codecs of p2p/src/packet_forwarder.rs and p2p/src/file_transfer.rs, and the chunk
--     and end packets of a file.
--   Base            helpers: lists, big-endian bytes, bits, UTF-8, maps, I/O errors, and `Outcome`.
--   The files named Tests apply the theorems at concrete inputs.
--
-- How the code is modelled. Numbers are natural numbers; a sum or a cast that wraps in a release build
-- is reduced modulo the width. A `Result` is an `Outcome`, which also says where the code panics. State
-- is passed explicitly: an operation returns its result with the new state, also on an error. A call of
-- an atomic counter or of a function under a lock is one step; an interleaving is a sequence of steps,
-- as in Node/Tunnel/History; in Node/Tunnel/Tasks each lock of `send_record` and of the rotation is a
-- step. Loops are structural recursion, but for those that read a file, which have fuel: one more than
-- the bytes of the file, which is enough, since a turn that goes on takes a byte at least. The socket,
-- the file system, the TUN channel, the clock, the random numbers and the crates for cryptography are
-- parameters, and a theorem that relies on one of them has its documented behaviour as a hypothesis.
--
-- In Cli/Download a round of the rotation of the receiver's keys is a step of its run.
--
-- What is not modelled: the rotation of the keys while `handle_send_file` runs; lock poisoning and
-- logging; discovery by DHT and building a swarm, which are calls of other libraries; the parsing of
-- arguments; the web front end and the scripts.
pub mod Base
pub mod Core
pub mod Crypto
pub mod Node
pub mod P2p
pub mod Cli
