-- ===== src/Base/Io.antt =====
-- `std::io` as the sources use it: the errors that they build, a reader over the bytes that are
-- still to come, and a writer that collects bytes.
use Prim.Native.Nat.{ℕ}
use mathlib.Core.List.{List, ◌++◌}
use cryprq.Base.Tests.{ltb, if◌then◌else◌}
use cryprq.Base.Lists.{length, take, drop}
use cryprq.Base.Results.{Outcome, ok, err}

-- `unexpected_eof` is what `read_exact` returns; the others are the sources' `InvalidData` errors,
-- a constructor for each message.
pub data IoError : Type 0 where
  unexpected_eof : IoError
  header_too_short : IoError
  unsupported_version : ℕ → IoError
  length_mismatch : ℕ → ℕ → IoError
  encryption_failed : IoError
  decryption_failed : IoError
  packet_too_large : IoError
  response_too_large : IoError

-- `read_exact` into a buffer of `n` bytes, with the bytes left in the reader.
abbrev pub read_exact : ℕ → List ℕ → Outcome IoError (List ℕ × List ℕ)
read_exact n reader =
    if ltb (length reader) n then err unexpected_eof else ok (take n reader, drop n reader)

-- `write_all` to a writer that takes every byte.
abbrev pub write_all : List ℕ → List ℕ → List ℕ
write_all writer bytes = writer ++ bytes
