-- ===== src/Core/Nonce.antt =====
-- The nonce of a record: the last eight bytes of the static IV, each XORed with a byte of the
-- sequence number. The same loop stands in `Record::encrypt`, in `Record::decrypt` (core/src/record.rs)
-- and in `make_nonce` (node/src/crypto_utils.rs).
use Prim.Native.Nat.{bit_xor}
use cryprq.Base.{ℕ, zero, suc, ◌+◌, ◌<◌, ◌^◌, ◌≡◌, refl, ap, ap₂, sym, ◌∙◌, arith}
use cryprq.Base.{List, [], ◌∷◌, ◌++◌, length, get_or, set, take, drop}
use cryprq.Base.Bytes.{to_be_bytes, from_be_bytes, from-to_be_bytes}
use cryprq.Base.Bits.{bit_xor_cancel}
use cryprq.Base.{
  get_or-append, set-append, length-append, take-append-drop, length-take, length-drop, drop-append,
  length-set,
}
use mathlib.Core.List.{append_assoc}

-- `for i in 0..8 { nonce[4 + i] ^= seq_be[i]; }` from index `i` on, with the rounds left.
unfoldable pub xor_loop : ℕ → ℕ → List ℕ → List ℕ → List ℕ
xor_loop zero i seq_be nonce = nonce
xor_loop (suc rounds) i seq_be nonce =
    xor_loop rounds (i + 1) seq_be
      (set nonce (4 + i) (bit_xor (get_or nonce (4 + i) 0) (get_or seq_be i 0)))

unfoldable pub record_nonce : List ℕ → ℕ → List ℕ
record_nonce static_iv sequence_number = xor_loop 8 0 (to_be_bytes 8 sequence_number) static_iv

-- Two strings XORed byte by byte.
xor_bytes : List ℕ → List ℕ → List ℕ
xor_bytes [] ys = []
xor_bytes (x ∷ xs) [] = x ∷ xs
xor_bytes (x ∷ xs) (y ∷ ys) = bit_xor x y ∷ xor_bytes xs ys

xor_bytes_cancel : (xs ys : List ℕ) → length ys ≡ length xs → xor_bytes xs (xor_bytes xs ys) ≡ ys
unfolding xor_bytes
xor_bytes_cancel [] [] h = refl
xor_bytes_cancel [] (y ∷ ys) h = absurd (omega arith)
xor_bytes_cancel (x ∷ xs) [] h = absurd (omega arith)
xor_bytes_cancel (x ∷ xs) (y ∷ ys) h =
    ap₂ ◌∷◌ (bit_xor_cancel x y) (xor_bytes_cancel xs ys (omega arith))

-- The loop, with the bytes that it has passed in front of those that are left.
xor_loop-xor_bytes :
    (seq xs done passed : List ℕ) (i : ℕ)
    → length passed ≡ i
    → length done ≡ 4 + i
    → length seq ≡ length xs
    → xor_loop (length seq) i (passed ++ seq) (done ++ xs) ≡ done ++ xor_bytes xs seq
unfolding xor_loop xor_bytes
xor_loop-xor_bytes [] [] done passed i hp hd e = refl
xor_loop-xor_bytes [] (x ∷ xs) done passed i hp hd e = absurd (omega arith)
xor_loop-xor_bytes (y ∷ seq) [] done passed i hp hd e = absurd (omega arith)
xor_loop-xor_bytes (y ∷ seq) (x ∷ xs) done passed i hp hd e =
    ap (λ n. xor_loop (length seq) (i + 1) (passed ++ (y ∷ seq)) n) stored
    ∙ ap₂ (xor_loop (length seq) (i + 1)) (sym (append_assoc passed (y ∷ []) seq))
        (sym (append_assoc done (bit_xor x y ∷ []) xs))
    ∙ xor_loop-xor_bytes seq xs (done ++ (bit_xor x y ∷ [])) (passed ++ (y ∷ [])) (i + 1)
        (omega (arith, length-append passed (y ∷ [])))
        (omega (arith, length-append done (bit_xor x y ∷ []))) (omega arith)
    ∙ append_assoc done (bit_xor x y ∷ []) (xor_bytes xs seq)
  where
    stored :
        set
          (done ++ (x ∷ xs))
          (4 + i)
          (bit_xor (get_or (done ++ (x ∷ xs)) (4 + i) 0) (get_or (passed ++ (y ∷ seq)) i 0))
        ≡ done ++ (bit_xor x y ∷ xs)
    stored =
        rw (get_or-append passed seq i y 0 hp, get_or-append done xs (4 + i) x 0 hd)
          (set-append done xs (4 + i) x (bit_xor x y) hd)

-- The first four bytes of the IV stay, the other eight are XORed with the sequence number.
record_nonce_lem :
    (static_iv : List ℕ) (seq : ℕ)
    → length static_iv ≡ 12
    → record_nonce static_iv seq
      ≡ take 4 static_iv ++ xor_bytes (drop 4 static_iv) (to_be_bytes 8 seq)
unfolding record_nonce
record_nonce_lem iv seq h =
    ap (λ n. xor_loop 8 0 (to_be_bytes 8 seq) n) (sym (take-append-drop 4 iv))
    ∙ xor_loop-xor_bytes (to_be_bytes 8 seq) (drop 4 iv) (take 4 iv) [] 0 refl
        (omega (arith, length-take 4 iv)) (omega (arith, length-drop 4 iv))

-- Under one IV of 12 bytes, records with different 64-bit sequence numbers have different nonces.
pub record_nonce_injective :
    (static_iv : List ℕ) (m n : ℕ)
    → length static_iv ≡ 12
    → m < 2 ^ 64
    → n < 2 ^ 64
    → record_nonce static_iv m ≡ record_nonce static_iv n
    → m ≡ n
record_nonce_injective iv m n h hm hn e =
    sym (from-to_be_bytes 8 m hm) ∙ ap from_be_bytes same_bytes ∙ from-to_be_bytes 8 n hn
  where
    tails : xor_bytes (drop 4 iv) (to_be_bytes 8 m) ≡ xor_bytes (drop 4 iv) (to_be_bytes 8 n)
    tails =
        sym (drop-append 4 (take 4 iv) _ (omega (arith, length-take 4 iv)))
        ∙ ap (drop 4) (sym (record_nonce_lem iv m h) ∙ e ∙ record_nonce_lem iv n h)
        ∙ drop-append 4 (take 4 iv) _ (omega (arith, length-take 4 iv))

    same_bytes : to_be_bytes 8 m ≡ to_be_bytes 8 n
    same_bytes =
        sym (xor_bytes_cancel (drop 4 iv) (to_be_bytes 8 m) (omega (arith, length-drop 4 iv)))
        ∙ ap (xor_bytes (drop 4 iv)) tails
        ∙ xor_bytes_cancel (drop 4 iv) (to_be_bytes 8 n) (omega (arith, length-drop 4 iv))

length-xor_loop :
    (rounds i : ℕ) (seq nonce : List ℕ) → length (xor_loop rounds i seq nonce) ≡ length nonce
unfolding xor_loop
length-xor_loop zero i seq nonce = refl
length-xor_loop (suc rounds) i seq nonce =
    length-xor_loop rounds (i + 1) seq _ ∙ length-set nonce (4 + i) _
