-- ===== src/Core/Record/Codec.antt =====
-- A record is read back from its bytes, alone or off a stream.
use cryprq.Base.{ℕ, ◌+◌, ◌≤◌, ◌<◌, ◌≡◌, sym, ap₂, ◌∙◌, arith}
use cryprq.Base.{List, [], ◌++◌, length, take, drop, ok, panicked}
use cryprq.Base.{
  length-append, take-append, drop-append, take-append-drop, take-length, length-take, All-take,
  ◌↔◌,
}
use mathlib.Core.List.{append_assoc}
use cryprq.Base.Bytes.{IsBytes, IsByte}
use cryprq.Core.Header
use cryprq.Core.Header.{IsHeader, protocol_version}
use cryprq.Core.Header.Codec
use cryprq.Core.Record.{Record, to_bytes, from_bytes, read_from, write_to}

-- What `Record::new` and `Record::encrypt` make of a message shorter than 2 ^ 32 bytes.
pub record IsRecord (r : Record) : Type 0 where
  pub header : IsHeader r.header
  pub current : r.header.version ≡ protocol_version
  pub announced : r.header.ciphertext_length ≡ length r.ciphertext

pub length-to_bytes : (r : Record) → length (to_bytes r) ≡ 20 + length r.ciphertext
unfolding to_bytes
length-to_bytes r =
    omega
      (arith, length-append (Header.to_bytes r.header) r.ciphertext, Codec.length-to_bytes r.header)

-- A record in range is read back from its bytes.
pub from_bytes-to_bytes : (r : Record) → IsRecord r → from_bytes (to_bytes r) ≡ ok r
unfolding from_bytes to_bytes
from_bytes-to_bytes r v = ground (
  arith,
  length-append (Header.to_bytes r.header) r.ciphertext,
  Codec.length-to_bytes r.header,
  take-append 20 (Header.to_bytes r.header) r.ciphertext (Codec.length-to_bytes r.header),
  drop-append 20 (Header.to_bytes r.header) r.ciphertext (Codec.length-to_bytes r.header),
  Codec.from_bytes-to_bytes_alone r.header v.header v.current,
)

-- A record in range that was written to a stream is taken off it, and no byte of what follows it.
pub read_from-write_to :
    (r : Record) (rest : List ℕ) → IsRecord r → read_from (write_to r [] ++ rest) ≡ ok (r, rest)
unfolding read_from write_to
read_from-write_to r rest v = ground (
  arith,
  append_assoc (Header.write_to r.header []) r.ciphertext rest,
  Codec.read_from-write_to r.header (r.ciphertext ++ rest) v.header v.current,
  length-append r.ciphertext rest,
  take-append r.header.ciphertext_length r.ciphertext rest (sym v.announced),
  drop-append r.header.ciphertext_length r.ciphertext rest (sym v.announced),
)

pub from_bytes-eq-ok :
    (buf : List ℕ) (r : Record)
    → from_bytes buf ≡ ok r
    → (20 ≤ length buf)
      × (Header.from_bytes (take 20 buf) ≡ ok r.header)
      × (r.ciphertext ≡ drop 20 buf)
      × (r.header.ciphertext_length ≡ length r.ciphertext)
unfolding from_bytes
from_bytes-eq-ok buf r e = ground (arith, Codec.from_bytes_cases (take 20 buf))

-- A byte string that parses as a record is the one that is written of that record, whose header
-- is in range, of the current version, and announces the length of the ciphertext.
pub from_bytes_accepts :
    (buf : List ℕ) (r : Record)
    → IsBytes buf
    → from_bytes buf ≡ ok r
    → IsRecord r × (to_bytes r ≡ buf)
unfolding to_bytes
from_bytes_accepts buf r bytes e =
    let (long, head, tail, announced) = from_bytes-eq-ok buf r e in
    let (valid, current, same) =
      Codec.from_bytes_accepts (take 20 buf) r.header (All-take IsByte 20 buf bytes) head in
    (
      record { header = valid; current = current; announced = announced },
      ap₂ ◌++◌ (same ∙ take-length 20 (take 20 buf) (omega (arith, length-take 20 buf))) tail
          ∙ take-append-drop 20 buf,
    )

-- Parsing a record panics exactly on a buffer of fewer than 20 bytes.
pub from_bytes-panicked : (buf : List ℕ) → (from_bytes buf ≡ panicked) ↔ (length buf < 20)
unfolding from_bytes
from_bytes-panicked buf = ground (arith, Codec.from_bytes_cases (take 20 buf))
