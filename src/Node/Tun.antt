-- ===== src/Node/Tun.antt =====
-- node/src/tun.rs: the length of a netmask's prefix, and the two loops of `start_forwarding`.
pub mod Netmask
pub mod Configure
pub mod Forwarding
use cryprq.Base.{ℕ, zero, suc, ◌+◌, ◌/◌, ◌%◌, List, [], ◌∷◌, length, take, replicate, ltb, ◌==◌}
use cryprq.Base.{
  Bool, not, Option, none, some, Outcome, ok, err, ◌>>=◌, ◌>>◌, reject_if, if◌then◌else◌,
}
use cryprq.Base.Text.{split, parse_decimal}

pub data NetmaskError : Type 0 where
  invalid_netmask : NetmaskError

-- The parts as `u8`, up to the first that is none.
abbrev pub parse_all : List (List ℕ) → Outcome NetmaskError (List ℕ)
parse_all [] = ok []
parse_all (s ∷ parts) = do
  part ← elim (parse_decimal 255 s) [ none ↦ err invalid_netmask | some n ↦ ok n ]
  rest ← parse_all parts
  ok (part ∷ rest)

-- `count_ones` of the lowest `w` bits.
abbrev pub count_ones : ℕ → ℕ → ℕ
count_ones zero n = 0
count_ones (suc w) n = n % 2 + count_ones w (n / 2)

-- The loop over the parts.
abbrev pub add_ones : ℕ → List ℕ → ℕ
add_ones cidr [] = cidr
add_ones cidr (part ∷ parts) = add_ones (cidr + count_ones 8 part) parts

unfoldable pub netmask_to_cidr : List ℕ → Outcome NetmaskError ℕ
netmask_to_cidr netmask = do
  parts ← parse_all (split 0x2e netmask)
  reject_if (not (length parts == 4)) invalid_netmask
  ok (add_ones 0 parts)

-- What a read of the device gives: the bytes of a packet, or an error.
pub data DeviceRead : Type 0 where
  packet_read : List ℕ → DeviceRead
  read_error : DeviceRead

abbrev pub buffer_size : ℕ
buffer_size = 65535

-- One turn of the loop that reads. The device writes to `buf_clone`; the packet is cut out of `buf`.
unfoldable pub read_turn : List ℕ → List ℕ → Option (List ℕ)
read_turn buf bytes =
    let buf_clone = take (length buf) bytes in
    let n = length buf_clone in if ltb 0 n then some (take n buf) else none

-- The loop over the device's reads, up to an error: the packets that the forwarder is given.
unfoldable pub read_loop : List ℕ → List DeviceRead → List (List ℕ)
read_loop buf [] = []
read_loop buf (read_error ∷ reads) = []
read_loop buf (packet_read bytes ∷ reads) = elim (read_turn buf bytes) [
  | none ↦ read_loop buf reads
  | some packet ↦ packet ∷ read_loop buf reads
]

-- The task that reads, with its buffer of zeros.
unfoldable pub tun_read_task : List DeviceRead → List (List ℕ)
tun_read_task reads = read_loop (replicate buffer_size 0) reads

-- The task that writes: what the forwarder receives, `none` for an error, goes to the device. The
-- result of `write_all` is dropped, so a packet that the device does not take is lost.
unfoldable pub tun_write_task : (List ℕ → Bool) → List (Option (List ℕ)) → List (List ℕ)
tun_write_task device_takes [] = []
tun_write_task device_takes (none ∷ received) = tun_write_task device_takes received
tun_write_task device_takes (some packet ∷ received) =
    let rest = tun_write_task device_takes received in
    if device_takes packet then packet ∷ rest else rest
