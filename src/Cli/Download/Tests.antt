-- ===== src/Cli/Download/Tests.antt =====
-- The theorems on files over the tunnel at concrete inputs.
use cryprq.Base.{ℕ, ◌≡◌, refl, arith, List, [], ◌∷◌, ◌++◌, length, replicate, true}
use cryprq.Base.{Option, some, ok, err}
use cryprq.Base.Text.{parse_decimal}
use cryprq.Base.Utf8.{is_utf8}
use cryprq.Node.Error.{replay_detected}
use cryprq.Node.Example.{externals, aead-IsAead, hkdf-IsHkdf}
use cryprq.Node.FileTransfer
use cryprq.Node.RateLimiter
use cryprq.Node.RateLimiter.{check_and_consume}
use cryprq.Node.Tunnel.{Tunnel}
use cryprq.P2p.Files.Cutting.{Fills}
use cryprq.Cli.Receive.Served.{source_file}
use cryprq.Cli.Send.{parse_udp_addr, scan_parts, read_parts}
use cryprq.Cli.Upload
use cryprq.Cli.Download
use cryprq.Cli.Download.Loop.{Admits, arrivals}
use cryprq.Cli.Download.Transfers.{IsSmallFile, small_file_arrives, second_file_refused}

abbrev sha256 : List ℕ → List ℕ
sha256 content = replicate 32 7

abbrev whole : List ℕ → Option ℕ
whole rest = some (length rest)

whole-Fills : Fills whole
whole-Fills rest = (length rest, refl, omega arith)

abbrev directory : List ℕ
directory = 0x2f ∷ 0x64 ∷ []

abbrev name : List ℕ
name = 0x66 ∷ []

abbrev other_name : List ℕ
other_name = 0x67 ∷ []

abbrev content : List ℕ
content = 1 ∷ 2 ∷ 3 ∷ []

-- `/ip4/7/udp/9`
abbrev multiaddr : List ℕ
multiaddr = 0x2f ∷ 0x69 ∷ 0x70 ∷ 0x34 ∷ 0x2f ∷ 0x37 ∷ 0x2f ∷ 0x75 ∷ 0x64 ∷ 0x70 ∷ 0x2f ∷ 0x39 ∷ []

abbrev host : List ℕ
host = 0x37 ∷ []

multiaddr_parsed : parse_udp_addr multiaddr ≡ ok (host, 9)
unfolding parse_udp_addr scan_parts read_parts parse_decimal
multiaddr_parsed = refl

abbrev parse_socket : List ℕ → ℕ → Option (externals.Address)
parse_socket ip port = some port

IsSmallFile-name : IsSmallFile externals sha256 directory name content
unfolding is_utf8
IsSmallFile-name = record {
  filename_utf8 = refl;
  filename_short = omega arith;
  nonempty = omega arith;
  one_datagram = omega arith;
  hash_32 = refl;
  can_create = refl;
  writes = omega arith;
}

IsSmallFile-other : IsSmallFile externals sha256 directory other_name content
unfolding is_utf8
IsSmallFile-other = record {
  filename_utf8 = refl;
  filename_short = omega arith;
  nonempty = omega arith;
  one_datagram = omega arith;
  hash_32 = refl;
  can_create = refl;
  writes = omega arith;
}

Admits-two : Admits externals (RateLimiter.new externals.timing 1000 2000 40) (51 ∷ 51 ∷ [])
unfolding check_and_consume RateLimiter.new
Admits-two = (refl, (refl, tt))

Admits-four :
    Admits externals (RateLimiter.new externals.timing 1000 2000 40) (51 ∷ 51 ∷ 60 ∷ 61 ∷ [])
unfolding check_and_consume RateLimiter.new
Admits-four = (refl, (refl, (refl, (refl, tt))))

small_file_arrives_example :
    let (result, sent) =
      Upload.handle_send_file externals whole sha256 parse_socket true 50 multiaddr
        (source_file name content) in
    (t : Tunnel externals) × (result ≡ ok tt)
    × (Download.handle_receive_file externals true true 40 multiaddr directory
          (arrivals externals 3 (51 ∷ 51 ∷ []) sent)
        ≡ ok (ok tt ∷ ok tt ∷ [], t))
    × (t.files ≡ (FileTransfer.join directory name, content) ∷ [])
small_file_arrives_example =
    small_file_arrives externals aead-IsAead hkdf-IsHkdf whole whole-Fills sha256 parse_socket 9 3
      (λ bytes short. refl) multiaddr host multiaddr host 9 9 multiaddr_parsed refl multiaddr_parsed
      directory 40 name content 50 51 51 IsSmallFile-name Admits-two

second_file_refused_example :
    let (result, sent) =
      Upload.handle_send_file externals whole sha256 parse_socket true 50 multiaddr
        (source_file name content) in
    let (result', sent') =
      Upload.handle_send_file externals whole sha256 parse_socket true 59 multiaddr
        (source_file other_name content) in
    (t : Tunnel externals) × (result ≡ ok tt)
    × (result' ≡ ok tt)
    × (Download.handle_receive_file externals true true 40 multiaddr directory
          (arrivals externals 3 (51 ∷ 51 ∷ 60 ∷ 61 ∷ []) (sent ++ sent'))
        ≡ ok (ok tt ∷ ok tt ∷ err replay_detected ∷ err replay_detected ∷ [], t))
    × (t.files ≡ (FileTransfer.join directory name, content) ∷ [])
second_file_refused_example =
    second_file_refused externals aead-IsAead hkdf-IsHkdf whole whole-Fills sha256 parse_socket 9 3
      (λ bytes short. refl) multiaddr host multiaddr host 9 9 multiaddr_parsed refl multiaddr_parsed
      directory 40 name content other_name content 50 59 51 51 60 61 IsSmallFile-name
      IsSmallFile-other Admits-four
