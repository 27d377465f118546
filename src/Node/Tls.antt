-- ===== src/Node/Tls.antt =====
-- node/src/tls.rs: the control plane. A connection of the operating system is a parameter.
use cryprq.Base.{ℕ, ◌≡◌, arith, List, [], ◌++◌, take}
use cryprq.Base.{Bool, Option, none, some, Outcome, ok, err, panicked, if◌then◌else◌}

pub record TlsConfig : Type 0 where
  pub enabled : Bool
  pub cert_path : Option (List ℕ)
  pub key_path : Option (List ℕ)
  pub ca_cert_path : Option (List ℕ)
  pub require_client_auth : Bool

-- The errors that the functions build; two more have no use.
pub data TlsError : Type 0 where
  network_error handshake_error certificate_error not_listening : TlsError

-- Whether there is a listener.
pub record TlsServer : Type 0 where
  pub config : TlsConfig
  pub listener : Option (Unit {0})

pub record TlsClient : Type 0 where
  pub config : TlsConfig

-- The connection below, with the bytes that were put on it.
pub record TlsStream : Type 0 where
  pub inner : List ℕ

unfoldable pub new_server : TlsConfig → TlsServer
new_server config = record { config = config; listener = none }

unfoldable pub new_client : TlsConfig → TlsClient
new_client config = record { config = config }

-- `listen`: the bind succeeded or not.
unfoldable pub listen : TlsServer → Bool → Outcome TlsError (Unit {0}) × TlsServer
listen s bound = if bound then (ok tt, record s { listener = some tt }) else (err network_error, s)

-- `accept`: a connection came in, or there was an error.
unfoldable pub accept : TlsServer → Bool → Outcome TlsError TlsStream
accept s came = elim s.listener [
  | none ↦ err not_listening
  | some _ ↦ if came then ok (record { inner = [] }) else err network_error
]

-- `TlsClient::connect`
unfoldable pub connect : TlsClient → Bool → Outcome TlsError TlsStream
connect c reached = if reached then ok (record { inner = [] }) else err network_error

-- `write`: the socket takes so many bytes of the buffer, or there is an error.
unfoldable pub write : TlsStream → List ℕ → Option ℕ → Outcome TlsError ℕ × TlsStream
write stream buf none = (err network_error, stream)
write stream buf (some n) = (ok n, record { inner = stream.inner ++ take n buf })

-- `read` into a buffer of this size, of the bytes that have come.
unfoldable pub read : ℕ → Option (List ℕ) → Outcome TlsError (List ℕ)
read size none = err network_error
read size (some bytes) = ok (take size bytes)

-- A server that listens, accepts a connection, and writes to it.
abbrev pub serve : TlsConfig → Bool → Bool → List ℕ → Option ℕ → Outcome TlsError TlsStream
serve config bound came buf taken = elim (accept (listen (new_server config) bound).1 came) [
  | ok stream ↦ ok (write stream buf taken).1
  | err e ↦ err e
  | panicked ↦ panicked
]

-- Whatever is configured, TLS enabled or not, a server puts the bytes that it writes on the
-- connection as they are: what it does depends on the network only.
serve-plain :
    (config : TlsConfig) (bound came : Bool) (buf : List ℕ) (n : ℕ)
    → serve config bound came buf (some n) ≡ (
        if bound
        then if came then ok (record { inner = take n buf }) else err network_error
        else err not_listening)
unfolding accept listen new_server write
serve-plain config bound came buf n = ground arith
