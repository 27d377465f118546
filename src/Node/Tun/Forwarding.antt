-- ===== src/Node/Tun/Forwarding.antt =====
-- What the loop that reads the device forwards.
use cryprq.Base.{ℕ, zero, suc, ◌≤◌, min, List, [], ◌∷◌, length, take, replicate, ltb}
use cryprq.Base.{◌≡◌, refl, ap, arith, if◌then◌else◌, Bool-cases}
use cryprq.Base.{length-replicate, length-take, inl, inr}
use cryprq.Node.Tun

-- For each read that is not empty, before the first error, as many zeros as it has bytes.
abbrev pub zeros_for : ℕ → List Tun.DeviceRead → List (List ℕ)
zeros_for size [] = []
zeros_for size (Tun.read_error ∷ reads) = []
zeros_for size (Tun.packet_read bytes ∷ reads) =
    let rest = zeros_for size reads in
    let n = min size (length bytes) in if ltb 0 n then replicate n 0 ∷ rest else rest

take-replicate : {A : Type 0} (n m : ℕ) (a : A) → n ≤ m → take n (replicate m a) ≡ replicate n a
take-replicate zero m a h = refl
take-replicate (suc n) zero a h = absurd (omega arith)
take-replicate (suc n) (suc m) a h = ap (λ t. a ∷ t) (take-replicate n m a (omega arith))

read_loop-zeros :
    (size : ℕ) (reads : List Tun.DeviceRead)
    → Tun.read_loop (replicate size 0) reads ≡ zeros_for size reads
unfolding Tun.read_loop Tun.read_turn
read_loop-zeros size [] = refl
read_loop-zeros size (Tun.read_error ∷ reads) = refl
read_loop-zeros size (Tun.packet_read bytes ∷ reads) =
    let rest = read_loop-zeros size reads in
    let buf : List ℕ = replicate size 0 in
    let full : length buf ≡ size = length-replicate size 0 in
    let n : length (take (length buf) bytes) ≡ min size (length bytes) =
      omega (arith, length-take (length buf) bytes) in
    let cut : take (min size (length bytes)) buf ≡ replicate (min size (length bytes)) 0 =
      take-replicate (min size (length bytes)) size 0 (omega arith) in
    elim (Bool-cases (ltb 0 (min size (length bytes)))) [
      | inl some_bytes ↦ ground (arith, n, cut, rest, some_bytes)
      | inr nothing ↦ ground (arith, n, rest, nothing)
    ]

-- The task that reads the TUN device forwards, for each packet up to the first error, as many
-- zeros as the packet has bytes, and none of its content.
pub tun_read_task-zeros :
    (reads : List Tun.DeviceRead) → Tun.tun_read_task reads ≡ zeros_for Tun.buffer_size reads
unfolding Tun.tun_read_task
tun_read_task-zeros reads = read_loop-zeros Tun.buffer_size reads
