-- ===== src/Cli/Send/Address.antt =====
-- Reading the address and the port out of `/ip4/<address>/udp/<port>/quic-v1`.
use cryprq.Base.{ℕ, List, [], ◌∷◌, ◌++◌, All, false, none, some, ok, err, ◌==◌}
use cryprq.Base.{◌≡◌, refl, ap, ◌∙◌, arith, bytes_eq}
use cryprq.Base.Bytes.{bytes_of}
use cryprq.Base.Text.{split, parse_decimal}
use cryprq.Cli.Send

-- A part holds no separator.
abbrev pub IsPart : List ℕ → Type 0
IsPart = All (λ (c : ℕ). (c == 0x2f) ≡ false)

split-append :
    (part rest : List ℕ) → IsPart part → split 0x2f (part ++ (0x2f ∷ rest)) ≡ part ∷ split 0x2f rest
split-append [] rest h = refl
split-append (c ∷ part) rest h = rw (h.0, split-append part rest h.1) refl

split_last : (part : List ℕ) → IsPart part → split 0x2f part ≡ part ∷ []
split_last [] h = refl
split_last (c ∷ part) h = rw (h.0, split_last part h.1) refl

-- The text of an address of this form.
abbrev pub multiaddr : List ℕ → List ℕ → List ℕ
multiaddr ip port =
    0x2f
    ∷ (bytes_of "ip4"
        ++ (0x2f
            ∷ (ip ++ (0x2f ∷ (bytes_of "udp" ++ (0x2f ∷ (port ++ (0x2f ∷ bytes_of "quic-v1"))))))))

-- A word that is none of the two that the loop looks for.
abbrev pub IsValue : List ℕ → Type 0
IsValue part =
    IsPart part
    × (bytes_eq part (bytes_of "ip4") ≡ false)
    × (bytes_eq part (bytes_of "udp") ≡ false)

split-multiaddr :
    (ip port : List ℕ)
    → IsPart ip
    → IsPart port
    → split 0x2f (multiaddr ip port)
      ≡ [] ∷ bytes_of "ip4" ∷ ip ∷ bytes_of "udp" ∷ port ∷ bytes_of "quic-v1" ∷ []
split-multiaddr ip port h k =
    ap (λ t. [] ∷ bytes_of "ip4" ∷ t)
      (split-append ip _ h ∙ ap (λ t. ip ∷ bytes_of "udp" ∷ t) (split-append port _ k))

read_parts_lem :
    (ip port : List ℕ) (n : ℕ)
    → IsValue ip
    → IsValue port
    → let parts = [] ∷ bytes_of "ip4" ∷ ip ∷ bytes_of "udp" ∷ port ∷ bytes_of "quic-v1" ∷ [] in
      (parse_decimal 65535 port ≡ some n → Send.read_parts parts ≡ ok (ip, n))
      × (parse_decimal 65535 port ≡ none → Send.read_parts parts ≡ err Send.invalid_port)
unfolding Send.read_parts Send.scan_parts
read_parts_lem ip port n (h, not_ip4, not_udp) (k, not_ip4', not_udp') = (
  (λ e. ground (arith, not_ip4, not_udp, e, not_ip4', not_udp')),
  λ e. ground (arith, not_ip4, not_udp, e),
)

parse_udp_addr-multiaddr :
    (ip port : List ℕ) (n : ℕ)
    → IsValue ip
    → IsValue port
    → (parse_decimal 65535 port ≡ some n → Send.parse_udp_addr (multiaddr ip port) ≡ ok (ip, n))
      × (parse_decimal 65535 port ≡ none
          → Send.parse_udp_addr (multiaddr ip port) ≡ err Send.invalid_port)
unfolding Send.parse_udp_addr
parse_udp_addr-multiaddr ip port n v w =
    let parts = ap Send.read_parts (split-multiaddr ip port v.0 w.0) in
    let (reads, refuses) = read_parts_lem ip port n v w in
    ((λ e. parts ∙ reads e), λ e. parts ∙ refuses e)
