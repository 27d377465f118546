-- ===== src/Node/Dns.antt =====
-- node/src/dns.rs: which resolver a name goes to.
use cryprq.Base.{ℕ, List, [], ◌∷◌, ◌++◌, Bool, true, false, Option, none, some}
use cryprq.Base.{Outcome, ok, err, ◌>>=◌, map_err, if◌then◌else◌, ◌≡◌, arith}
use cryprq.Base.Bytes.{bytes_of}

pub record DnsConfig : Type 0 where
  pub use_doh : Bool
  pub use_dot : Bool
  pub doh_endpoint : Option (List ℕ)
  pub dot_server : Option (List ℕ)
  pub timeout_secs : ℕ

abbrev pub default_config : DnsConfig
default_config = record {
  use_doh = true;
  use_dot = false;
  doh_endpoint = some (bytes_of "https://cloudflare-dns.com/dns-query");
  dot_server = some (bytes_of "1.1.1.1:853");
  timeout_secs = 5;
}

pub data DnsError : Type 0 where
  configuration_error network_error parse_error : List ℕ → DnsError
  timeout not_found : DnsError

-- The network: the client of the crate reqwest with its errors' texts, an answer in JSON with the
-- texts under `data` of its `Answer` records, and the system's resolver. An address is its text.
pub record Network : Type 0 where
  pub build_client : ℕ → Outcome (List ℕ) (Unit {0})
  pub get : ℕ → List ℕ → Option (Outcome (List ℕ) (List ℕ))
  pub json : List ℕ → Outcome (List ℕ) (Option (List (Option (List ℕ))))
  pub parse_ip : List ℕ → Option (List ℕ)
  pub lookup_host : List ℕ → Outcome (List ℕ) (List (List ℕ))

module _ (net : Network) where
  -- The first record with an address.
  unfoldable pub first_address : List (Option (List ℕ)) → Outcome DnsError (List ℕ)
  first_address [] = err not_found
  first_address (none ∷ records) = first_address records
  first_address (some ip_str ∷ records) = elim (net.parse_ip ip_str) [
    | none ↦ first_address records
    | some ip ↦ ok ip
  ]

  unfoldable pub resolve_doh : List ℕ → DnsConfig → Outcome DnsError (List ℕ)
  resolve_doh hostname config = do
    endpoint ← elim config.doh_endpoint [
      | none ↦ err (configuration_error (bytes_of "DoH endpoint not configured"))
      | some endpoint ↦ ok endpoint
    ]
    let url = endpoint ++ (bytes_of "?name=" ++ (hostname ++ bytes_of "&type=A"))
    client ← map_err network_error (net.build_client config.timeout_secs)
    response ← elim (net.get config.timeout_secs url) [
      | none ↦ err timeout
      | some sent ↦ map_err network_error sent
    ]
    json ← map_err parse_error (net.json response)
    elim json [ none ↦ err not_found | some records ↦ first_address records ]

  unfoldable pub resolve_system : List ℕ → Outcome DnsError (List ℕ)
  resolve_system hostname = do
    addrs ← map_err network_error (net.lookup_host hostname)
    elim addrs [ [] ↦ err not_found | addr ∷ rest ↦ ok addr ]

  -- DNS over TLS is not there yet: the system's resolver answers.
  unfoldable pub resolve_dot : List ℕ → DnsConfig → Outcome DnsError (List ℕ)
  resolve_dot hostname config = resolve_system hostname

  unfoldable pub resolve_hostname : List ℕ → DnsConfig → Outcome DnsError (List ℕ)
  resolve_hostname hostname config =
      if config.use_doh
      then resolve_doh hostname config
      else if config.use_dot
      then resolve_dot hostname config
      else resolve_system hostname

  -- Only DNS over HTTPS keeps a name from the system's resolver.
  resolve_hostname-dot :
      (hostname : List ℕ) (config : DnsConfig)
      → config.use_doh ≡ false
      → resolve_hostname hostname config ≡ resolve_system hostname
  unfolding resolve_hostname resolve_dot
  resolve_hostname-dot hostname config no_doh = ground (arith, no_doh)
