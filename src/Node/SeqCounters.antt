-- ===== src/Node/SeqCounters.antt =====
-- node/src/seq_counters.rs: the sequence numbers of the three kinds of messages.
pub mod Nonces
use cryprq.Base.{ℕ, ◌+◌, ◌-◌, ◌%◌, ◌^◌, leb, Option, none, some, if◌then◌else◌}

abbrev pub max_nonce_value : ℕ
max_nonce_value = 18446744073709551615 - 1000

-- The three atomic counters.
pub record SeqCounters : Type 0 where
  pub vpn : ℕ
  pub data_counter : ℕ
  pub file : ℕ

abbrev pub new : SeqCounters
new = record { vpn = 0; data_counter = 0; file = 0 }

-- `fetch_add(1)` on an `AtomicU64`, which wraps.
abbrev pub fetch_add : ℕ → ℕ
fetch_add n = (n + 1) % 2 ^ 64

-- `none` is `Err(())`.
unfoldable pub next_vpn : SeqCounters → Option ℕ × SeqCounters
next_vpn c = if leb max_nonce_value c.vpn then (none, c) else (
  some c.vpn,
  record { vpn = fetch_add c.vpn; data_counter = c.data_counter; file = c.file },
)

unfoldable pub next_data : SeqCounters → ℕ × SeqCounters
next_data c =
    (c.data_counter, record { vpn = c.vpn; data_counter = fetch_add c.data_counter; file = c.file })

unfoldable pub next_file : SeqCounters → ℕ × SeqCounters
next_file c =
    (c.file, record { vpn = c.vpn; data_counter = c.data_counter; file = fetch_add c.file })

unfoldable pub reset : SeqCounters → SeqCounters
reset c = new
