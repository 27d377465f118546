-- ===== src/Core/Header/Codec.antt =====
-- `RecordHeader::to_bytes` and `from_bytes` are inverse.
use cryprq.Base.{ℕ, ◌+◌, ◌≤◌, ◌<◌, ◌≡◌, ◌≢◌, ◌⊎◌, refl, sym, ap, ap₂, ◌∙◌, subst, arith}
use cryprq.Base.{List, [], ◌∷◌, ◌++◌, length, get_or, take, drop, ok, err}
use cryprq.Base.{
  length-append, length-drop, take-append, drop-append, take-add, drop-drop, All-drop,
}
use mathlib.Core.List.{append-nil}
use cryprq.Base.Io.{header_too_short, unsupported_version}
use cryprq.Base.Bytes.{
  to_be_bytes, from_be_bytes, from-to_be_bytes, to-from_be_bytes-take, IsBytes, IsByte,
  IsBytes-get_or, from_be_bytes-take-lt,
}
use cryprq.Core.Header.{
  RecordHeader, IsHeader, to_bytes, from_bytes, read_from, write_to, protocol_version, fields,
}

pub length-to_bytes : (h : RecordHeader) → length (to_bytes h) ≡ 20
unfolding to_bytes
length-to_bytes h = refl

fields-to_bytes : (h : RecordHeader) (rest : List ℕ) → IsHeader h → fields (to_bytes h ++ rest) ≡ h
unfolding to_bytes
fields-to_bytes h rest v = ground (
  arith,
  from-to_be_bytes 4 h.stream_id v.stream_id_u32,
  from-to_be_bytes 8 h.sequence_number v.sequence_number_u64,
  from-to_be_bytes 4 h.ciphertext_length v.ciphertext_length_u32,
)

first_byte : (h : RecordHeader) (rest : List ℕ) → get_or (to_bytes h ++ rest) 0 0 ≡ h.version
unfolding to_bytes
first_byte h rest = refl

-- A header of the current version that was written is read back, whatever follows it.
pub from_bytes-to_bytes :
    (h : RecordHeader) (rest : List ℕ)
    → IsHeader h
    → h.version ≡ protocol_version
    → from_bytes (to_bytes h ++ rest) ≡ ok h
unfolding from_bytes
from_bytes-to_bytes h rest v e = ground (
  arith,
  fields-to_bytes h rest v,
  length-append (to_bytes h) rest,
  length-to_bytes h,
  first_byte h rest,
)

pub from_bytes-to_bytes_alone :
    (h : RecordHeader) → IsHeader h → h.version ≡ protocol_version → from_bytes (to_bytes h) ≡ ok h
from_bytes-to_bytes_alone h v e = rw append-nil at (from_bytes-to_bytes h [] v e)

-- What `write_to` put on a stream, `read_from` takes off it, and no byte more.
pub read_from-write_to :
    (h : RecordHeader) (rest : List ℕ)
    → IsHeader h
    → h.version ≡ protocol_version
    → read_from (write_to h [] ++ rest) ≡ ok (h, rest)
unfolding read_from write_to
read_from-write_to h rest v e = ground (
  arith,
  length-append (to_bytes h) rest,
  length-to_bytes h,
  take-append 20 (to_bytes h) rest (length-to_bytes h),
  drop-append 20 (to_bytes h) rest (length-to_bytes h),
  from_bytes-to_bytes_alone h v e,
)

-- Four, eight and four bytes of a longer string, each read and written back.
three_fields :
    (xs : List ℕ)
    → IsBytes xs
    → 16 ≤ length xs
    → to_be_bytes 4 (from_be_bytes (take 4 xs))
        ++ (to_be_bytes 8 (from_be_bytes (take 8 (drop 4 xs)))
            ++ to_be_bytes 4 (from_be_bytes (take 4 (drop 12 xs))))
      ≡ take 16 xs
three_fields xs h long =
    ap₂ ◌++◌ (to-from_be_bytes-take 4 xs h (omega arith)) (
      ap₂ ◌++◌
        (to-from_be_bytes-take 8 (drop 4 xs) (All-drop IsByte 4 xs h)
          (rest_length 4 8 (omega arith)))
        (to-from_be_bytes-take 4 (drop 12 xs) (All-drop IsByte 12 xs h)
          (rest_length 12 4 (omega arith))))
    ∙ sym joined
  where
    rest_length : (k n : ℕ) → k + n ≤ 16 → n ≤ length (drop k xs)
    rest_length k n le = omega (arith, length-drop k xs)

    joined : take 16 xs ≡ take 4 xs ++ (take 8 (drop 4 xs) ++ take 4 (drop 12 xs))
    joined =
        take-add 4 12 xs
        ∙ ap (λ t. take 4 xs ++ t)
            (take-add 8 4 (drop 4 xs) ∙ ap (λ t. take 8 (drop 4 xs) ++ take 4 t) (drop-drop 8 4 xs))

-- The bytes of an accepted header are the ones that `to_bytes` writes.
to_bytes-fields :
    (buf : List ℕ) → IsBytes buf → 20 ≤ length buf → to_bytes (fields buf) ≡ take 20 buf
unfolding to_bytes
to_bytes-fields (b0 ∷ b1 ∷ b2 ∷ b3 ∷ rest) h long =
    ap (λ t. b0 ∷ b1 ∷ b2 ∷ b3 ∷ t) (three_fields rest h.1.1.1.1 (omega arith))
to_bytes-fields _ h long = absurd (omega arith)

fields-IsHeader : (buf : List ℕ) → IsBytes buf → IsHeader (fields buf)
fields-IsHeader buf h = record {
  version_byte = IsBytes-get_or buf 0 h;
  message_type_byte = IsBytes-get_or buf 1 h;
  flags_byte = IsBytes-get_or buf 2 h;
  epoch_byte = IsBytes-get_or buf 3 h;
  stream_id_u32 = from_be_bytes-take-lt 4 (drop 4 buf) (All-drop IsByte 4 buf h);
  sequence_number_u64 = from_be_bytes-take-lt 8 (drop 8 buf) (All-drop IsByte 8 buf h);
  ciphertext_length_u32 = from_be_bytes-take-lt 4 (drop 16 buf) (All-drop IsByte 16 buf h);
}

pub from_bytes-eq-ok :
    (buf : List ℕ) (h : RecordHeader)
    → from_bytes buf ≡ ok h
    → (20 ≤ length buf) × (h.version ≡ protocol_version) × (fields buf ≡ h)
unfolding from_bytes
from_bytes-eq-ok buf h e = ground arith

-- Every header that `from_bytes` accepts is in range, of the current version, and written with the
-- bytes that it was read from.
pub from_bytes_accepts :
    (buf : List ℕ) (h : RecordHeader)
    → IsBytes buf
    → from_bytes buf ≡ ok h
    → IsHeader h × (h.version ≡ protocol_version) × (to_bytes h ≡ take 20 buf)
from_bytes_accepts buf h bytes e =
    let (long, current, same) = from_bytes-eq-ok buf h e in
    (
      subst IsHeader same (fields-IsHeader buf bytes),
      current,
      ap to_bytes (sym same) ∙ to_bytes-fields buf bytes long,
    )

-- `from_bytes` returns on every buffer: an error on a short one and on another version, else `Ok`.
pub from_bytes_cases :
    (buf : List ℕ)
    → ((length buf < 20) × (from_bytes buf ≡ err header_too_short))
      ⊎ ((20 ≤ length buf)
          × (get_or buf 0 0 ≢ protocol_version)
          × (from_bytes buf ≡ err (unsupported_version (get_or buf 0 0))))
      ⊎ ((20 ≤ length buf)
          × (get_or buf 0 0 ≡ protocol_version)
          × (from_bytes buf ≡ ok (fields buf)))
unfolding from_bytes
from_bytes_cases buf = ground arith
