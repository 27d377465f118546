-- ===== src/Node/Tun/Netmask.antt =====
-- The lengths of prefixes.
use cryprq.Base.{
  ℕ, zero, suc, ◌+◌, ◌-◌, ◌*◌, ◌/◌, ◌%◌, ◌^◌, ◌≤◌, ◌<◌, min, List, [], ◌∷◌, ◌++◌, length, ltb, All,
}
use cryprq.Base.{◌≡◌, refl, sym, ap, ◌∙◌, arith, Outcome, ok, if◌then◌else◌, ==_iff, ◌==◌, not}
use cryprq.Base.{Bool-cases, inl, inr, >>=-eq-ok, reject_if-ok, reject_if, subst}
use cryprq.Base.Text.{split}
use cryprq.Node.Tun

-- A number below 256 in decimal.
abbrev pub print : ℕ → List ℕ
print n =
    if ltb n 10
    then (0x30 + n) ∷ []
    else if ltb n 100
    then (0x30 + n / 10) ∷ (0x30 + n % 10) ∷ []
    else (0x30 + n / 100) ∷ (0x30 + n / 10 % 10) ∷ (0x30 + n % 10) ∷ []

-- The byte of a netmask with this many ones at its front.
abbrev pub octet : ℕ → ℕ
octet k = 256 - 2 ^ (8 - min k 8)

-- The netmask of a prefix, in dotted notation.
abbrev pub prefix_mask : ℕ → List ℕ
prefix_mask k =
    print (octet k)
    ++ (0x2e
        ∷ (print (octet (k - 8))
            ++ (0x2e ∷ (print (octet (k - 16)) ++ (0x2e ∷ print (octet (k - 24)))))))

abbrev down_from : ℕ → List ℕ
down_from zero = []
down_from (suc n) = n ∷ down_from n

All-down_from : (P : ℕ → Type 0) (n k : ℕ) → All P (down_from n) → k < n → P k
All-down_from P zero k h lt = absurd (omega arith)
All-down_from P (suc n) k h lt = elim (Bool-cases (n == k)) [
  | inl same ↦ subst P ((==_iff n k).0 same) h.0
  | inr differs ↦ All-down_from P n k h.1 (ground (arith, differs))
]

prefixes : All (λ (n : ℕ). Tun.netmask_to_cidr (prefix_mask n) ≡ ok n) (down_from 33)
unfolding Tun.netmask_to_cidr cryprq.Base.Text.parse_decimal
prefixes = (
  refl,
  (
    refl,
    (
      refl,
      (
        refl,
        (
          refl,
          (
            refl,
            (
              refl,
              (
                refl,
                (
                  refl,
                  (
                    refl,
                    (
                      refl,
                      (
                        refl,
                        (
                          refl,
                          (
                            refl,
                            (
                              refl,
                              (
                                refl,
                                (
                                  refl,
                                  (
                                    refl,
                                    (
                                      refl,
                                      (
                                        refl,
                                        (
                                          refl,
                                          (
                                            refl,
                                            (
                                              refl,
                                              (
                                                refl,
                                                (
                                                  refl,
                                                  (
                                                    refl,
                                                    (
                                                      refl,
                                                      (
                                                        refl,
                                                        (refl, (refl, (refl, (refl, (refl, tt))))),
                                                      ),
                                                    ),
                                                  ),
                                                ),
                                              ),
                                            ),
                                          ),
                                        ),
                                      ),
                                    ),
                                  ),
                                ),
                              ),
                            ),
                          ),
                        ),
                      ),
                    ),
                  ),
                ),
              ),
            ),
          ),
        ),
      ),
    ),
  ),
)

pub netmask_to_cidr-prefix_mask : (k : ℕ) → k ≤ 32 → Tun.netmask_to_cidr (prefix_mask k) ≡ ok k
unfolding Tun.netmask_to_cidr cryprq.Base.Text.parse_decimal
netmask_to_cidr-prefix_mask k h =
    All-down_from (λ (n : ℕ). Tun.netmask_to_cidr (prefix_mask n) ≡ ok n) 33 k prefixes
      (omega arith)

count_ones-bound : (w n : ℕ) → Tun.count_ones w n ≤ w
count_ones-bound zero n = omega arith
count_ones-bound (suc w) n = omega (arith, count_ones-bound w (n / 2))

add_ones-bound : (cidr : ℕ) (parts : List ℕ) → Tun.add_ones cidr parts ≤ cidr + 8 * length parts
add_ones-bound cidr [] = omega arith
add_ones-bound cidr (part ∷ parts) =
    omega (arith, count_ones-bound 8 part, add_ones-bound (cidr + Tun.count_ones 8 part) parts)

netmask_to_cidr-bound :
    (netmask : List ℕ) (cidr : ℕ) → Tun.netmask_to_cidr netmask ≡ ok cidr → cidr ≤ 32
unfolding Tun.netmask_to_cidr
netmask_to_cidr-bound netmask cidr e =
    let (parts, read, rest) = >>=-eq-ok (Tun.parse_all (split 0x2e netmask)) _ e in
    let (done, four, last) =
      >>=-eq-ok (reject_if (not (length parts == 4)) Tun.invalid_netmask) _ rest in
    let size = reject_if-ok (not (length parts == 4)) Tun.invalid_netmask four in
    let number : length parts ≡ 4 = ground (arith, size) in
    let sum : Tun.add_ones 0 parts ≡ cidr = cc in omega (arith, add_ones-bound 0 parts)
