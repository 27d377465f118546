-- ===== src/Node/Example.antt =====
-- An instance of the tunnel's externals on which the theorems are tried: it is not secure.
use cryprq.Base.{ℕ, ◌+◌, ◌-◌, ◌*◌, ◌≡◌, refl, ap, subst, arith, min, leb}
use cryprq.Base.{
  List, ◌++◌, length, take, replicate, length-append, length-replicate, take-append, All-append,
  true, some,
}
use cryprq.Base.Bytes.{IsByte, IsBytes}
use cryprq.Core.Aead.{Aead, IsAead}
use cryprq.Crypto.Kdf.{Hkdf}
use cryprq.Crypto.Kdf.Lengths.{IsHkdf}
use cryprq.Node.RateLimiter.{Timing}
use cryprq.Node.RateLimiter.Bucket.{IsTiming}
use cryprq.Node.FileTransfer.{FileSystem}
use cryprq.Node.Externals.{Externals}

abbrev tag : List ℕ
tag = replicate 16 0

-- The text in the clear, and sixteen zeros.
abbrev pub aead : Aead
aead = record {
  seal = λ key nonce aad msg. some (msg ++ tag);
  unseal = λ key nonce aad ct. some (take (length ct - 16) ct);
}

unseal_tagged : (msg : List ℕ) → take (length (msg ++ tag) - 16) (msg ++ tag) ≡ msg
unseal_tagged msg = take-append _ msg tag (omega (arith, length-append msg tag))

tag-IsBytes : IsBytes tag
tag-IsBytes = ground arith

pub aead-IsAead : IsAead aead
aead-IsAead = record {
  seal-some = λ key nonce aad msg h. (msg ++ tag, refl);
  unseal-seal = λ key nonce aad msg ct e.
      let same : msg ++ tag ≡ ct = cc in
      subst (λ (c : List ℕ). some (take (length c - 16) c) ≡ some msg) same
        (ap some (unseal_tagged msg));
  length-seal = λ key nonce aad msg ct e.
      let same : msg ++ tag ≡ ct = cc in
      subst (λ (c : List ℕ). length c ≡ length msg + 16) same (length-append msg tag);
  seal-IsBytes = λ key nonce aad msg ct h e.
      let same : msg ++ tag ≡ ct = cc in
      subst IsBytes same (All-append IsByte msg tag h tag-IsBytes);
}

-- Every output is a repeated byte of the length asked for.
abbrev pub hkdf : Hkdf
hkdf = record { extract = λ salt ikm. ikm; expand = λ prk info len. some (replicate len 7) }

pub hkdf-IsHkdf : IsHkdf hkdf
hkdf-IsHkdf = record { expands = λ prk info len h. (replicate len 7, refl, length-replicate len 7) }

-- Whole numbers for the reals, and seconds for the instants.
abbrev pub timing : Timing
timing = record {
  Real = ℕ;
  Instant = ℕ;
  plus = λ a b. a + b;
  minus = λ a b. a - b;
  times = λ a b. a * b;
  minimum = min;
  at_least = λ a b. leb b a;
  from_u32 = λ c. c;
  secs_between = λ a b. a - b;
}

pub timing-IsTiming : IsTiming timing
timing-IsTiming = record {
  minimum_le = λ a c. ground arith;
  minus_le = λ a c h. ground arith;
  same_instant = λ i. omega arith;
  times_zero = λ c h. omega arith;
  plus_zero = λ c h. omega arith;
  minimum_u32 = λ a b le h. omega arith;
  minus_one = λ c h. omega arith;
  at_least_one = λ c h. refl;
}

abbrev pub file_system : FileSystem
file_system = record { can_create = λ path. true; accepts = λ handle chunk. length chunk }

abbrev pub externals : Externals
externals = record {
  aead = aead;
  hkdf = hkdf;
  timing = timing;
  file_system = file_system;
  Address = ℕ;
  send_to = λ bytes addr. true;
  tun_accepts = λ packet. true;
  Pool = ℕ;
  new_pool = λ n. n;
  pop = λ n. n - 1;
  push = λ n. min 32 (n + 1);
  VerifyingKey = List ℕ;
  parse_key = λ key. some key;
  verify = λ key msg sig. true;
  diffie_hellman = λ pk. pk;
}
