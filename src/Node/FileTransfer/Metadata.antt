-- ===== src/Node/FileTransfer/Metadata.antt =====
-- The metadata of a file is read back from its bytes.
use cryprq.Base.{ℕ, ◌+◌, ◌%◌, ◌≤◌, ◌<◌, ◌^◌, ◌≡◌, refl, sym, ap, ◌∙◌, arith, true}
use cryprq.Base.{List, [], ◌++◌, length, slice, length-append, slice-append, ok}
use mathlib.Core.List.{append_assoc}
use cryprq.Base.Bytes.{to_be_bytes, from_be_bytes, from-to_be_bytes, length-to_be_bytes}
use cryprq.Base.Utf8.{is_utf8}
use cryprq.Node.FileTransfer.{
  FileMetadata, serialize, deserialize, deserialize_rest, packet_type_metadata,
}

-- The filename is a string whose length fits 32 bits, and the other fields are in range.
pub record IsMetadata (m : FileMetadata) : Type 0 where
  pub filename_utf8 : is_utf8 m.filename ≡ true
  pub filename_u32 : length m.filename < 2 ^ 32
  pub size_u64 : m.size < 2 ^ 64
  pub hash_32 : length m.hash ≡ 32

-- The five parts of a serialized file description, and bytes behind them.
module _ (a b f s h rest : List ℕ) (la : length a ≡ 4) (lb : length b ≡ 4) (ls : length s ≡ 8)
    (lh : length h ≡ 32) where
  length-parts : length (a ++ (b ++ (f ++ (s ++ (h ++ rest))))) ≡ 48 + length f + length rest
  length-parts = omega (
    arith,
    length-append a (b ++ (f ++ (s ++ (h ++ rest)))),
    length-append b (f ++ (s ++ (h ++ rest))),
    length-append f (s ++ (h ++ rest)),
    length-append s (h ++ rest),
    length-append h rest,
  )

  slice_type : slice (a ++ (b ++ (f ++ (s ++ (h ++ rest))))) 0 4 ≡ a
  slice_type = slice-append [] a _ 0 4 refl (omega arith)

  slice_filename_len : slice (a ++ (b ++ (f ++ (s ++ (h ++ rest))))) 4 8 ≡ b
  slice_filename_len = slice-append a b _ 4 8 la (omega arith)

  slice_filename : slice (a ++ (b ++ (f ++ (s ++ (h ++ rest))))) 8 (8 + length f) ≡ f
  slice_filename =
      ap (λ d. slice d 8 (8 + length f)) (sym (append_assoc a b _))
      ∙ slice-append (a ++ b) f _ 8 _ (omega (arith, length-append a b)) refl

  slice_size : slice (a ++ (b ++ (f ++ (s ++ (h ++ rest))))) (8 + length f) (8 + length f + 8) ≡ s
  slice_size =
      ap (λ d. slice d (8 + length f) (8 + length f + 8))
        (sym (append_assoc a b _) ∙ sym (append_assoc (a ++ b) f _))
      ∙ slice-append ((a ++ b) ++ f) s _ _ _
          (omega (arith, length-append (a ++ b) f, length-append a b)) (omega arith)

  slice_hash :
      slice (a ++ (b ++ (f ++ (s ++ (h ++ rest))))) (8 + length f + 8) (8 + length f + 8 + 32) ≡ h
  slice_hash =
      ap (λ d. slice d (8 + length f + 8) (8 + length f + 8 + 32))
        (sym (append_assoc a b _)
          ∙ sym (append_assoc (a ++ b) f _)
          ∙ sym (append_assoc ((a ++ b) ++ f) s _))
      ∙ slice-append (((a ++ b) ++ f) ++ s) h _ _ _
          (omega
            (arith, length-append ((a ++ b) ++ f) s, length-append (a ++ b) f, length-append a b))
          (omega arith)

serialize_parts :
    (m : FileMetadata) (rest : List ℕ)
    → serialize m ++ rest
      ≡ to_be_bytes 4 packet_type_metadata
        ++ (to_be_bytes 4 (length m.filename % 2 ^ 32)
            ++ (m.filename ++ (to_be_bytes 8 m.size ++ (m.hash ++ rest))))
unfolding serialize
serialize_parts m rest =
    rw
      (
        append_assoc m.filename (to_be_bytes 8 m.size ++ m.hash) rest,
        append_assoc (to_be_bytes 8 m.size) m.hash rest,
      )
      refl

-- `deserialize` from what it reads at each place.
deserialize_reads :
    (d f h : List ℕ) (n sz : ℕ)
    → 48 + n ≤ length d
    → from_be_bytes (slice d 0 4) ≡ packet_type_metadata
    → from_be_bytes (slice d 4 8) ≡ n
    → slice d 8 (8 + n) ≡ f
    → is_utf8 f ≡ true
    → from_be_bytes (slice d (8 + n) (8 + n + 8)) ≡ sz
    → slice d (8 + n + 8) (8 + n + 8 + 32) ≡ h
    → deserialize d ≡ ok (record { filename = f; size = sz; hash = h })
unfolding deserialize deserialize_rest
deserialize_reads d f h n sz long kind len name valid size hash = ground arith

-- The metadata of a file with a name in UTF-8 and fields in range is read back from its bytes,
-- whatever bytes follow.
pub deserialize-serialize :
    (m : FileMetadata) (trailing : List ℕ)
    → IsMetadata m
    → deserialize (serialize m ++ trailing) ≡ ok m
deserialize-serialize m rest v =
    let a = to_be_bytes 4 packet_type_metadata in
    let b = to_be_bytes 4 (length m.filename % 2 ^ 32) in
    let f = m.filename in
    let s = to_be_bytes 8 m.size in
    let ls = length-to_be_bytes 8 m.size in
    let name_len : from_be_bytes b ≡ length f =
      from-to_be_bytes 4 (length m.filename % 2 ^ 32) (omega arith)
      ∙ omega (arith, v.filename_u32) in
    ap deserialize (serialize_parts m rest)
    ∙ deserialize_reads _ f m.hash (length f) m.size
        (omega (arith, length-parts a b f s m.hash rest refl refl ls v.hash_32))
        (ap from_be_bytes (slice_type a b f s m.hash rest refl refl ls v.hash_32))
        (ap from_be_bytes (slice_filename_len a b f s m.hash rest refl refl ls v.hash_32)
          ∙ name_len)
        (slice_filename a b f s m.hash rest refl refl ls v.hash_32) v.filename_utf8
        (ap from_be_bytes (slice_size a b f s m.hash rest refl refl ls v.hash_32)
          ∙ from-to_be_bytes 8 m.size v.size_u64)
        (slice_hash a b f s m.hash rest refl refl ls v.hash_32)

pub length-serialize :
    (m : FileMetadata) → length m.hash ≡ 32 → length (serialize m) ≡ 48 + length m.filename
unfolding serialize
length-serialize m h = omega (
  arith,
  length-append (to_be_bytes 4 packet_type_metadata) (
      to_be_bytes 4 (length m.filename % 2 ^ 32)
      ++ (m.filename ++ (to_be_bytes 8 m.size ++ m.hash))),
  length-append (to_be_bytes 4 (length m.filename % 2 ^ 32))
      (m.filename ++ (to_be_bytes 8 m.size ++ m.hash)),
  length-append m.filename (to_be_bytes 8 m.size ++ m.hash),
  length-append (to_be_bytes 8 m.size) m.hash,
  length-to_be_bytes 4 packet_type_metadata,
  length-to_be_bytes 4 (length m.filename % 2 ^ 32),
  length-to_be_bytes 8 m.size,
)
