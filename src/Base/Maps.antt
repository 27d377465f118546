-- ===== src/Base/Maps.antt =====
-- `HashMap`: with numbers as keys an association list, with byte strings as keys a function.
use Prim.Native.Nat.{ℕ}
use mathlib.Core.Path.{◌≡◌}
use mathlib.Core.Logic.{◌≢◌}
use mathlib.Core.Option.{Option, none, some}
use mathlib.Core.List.{List, [], ◌∷◌}
use native.Mathlib.Omega.{arith}
use cryprq.Base.Tests.{◌==◌, if◌then◌else◌}
use cryprq.Base.Lists.{bytes_eq, bytes_eq→eq, bytes_eq_self}

abbrev pub Map {ℓ} : Type ℓ → Type ℓ
Map A = List (ℕ × A)

abbrev pub lookup {ℓ} : {A : Type ℓ} → Map A → ℕ → Option A
lookup [] k = none
lookup ((k', a) ∷ m) k = if k' == k then some a else lookup m k

-- `insert`: the value of a key that is there is replaced.
abbrev pub insert {ℓ} : {A : Type ℓ} → Map A → ℕ → A → Map A
insert [] k a = (k, a) ∷ []
insert ((k', b) ∷ m) k a = if k' == k then (k', a) ∷ m else (k', b) ∷ insert m k a

module _ {ℓ} {A : Type ℓ} where
  pub lookup-insert : (m : Map A) (k : ℕ) (a : A) → lookup (insert m k a) k ≡ some a
  lookup-insert [] k a = ground arith
  lookup-insert ((k', b) ∷ m) k a = ground (arith, lookup-insert m k a)

  pub lookup-insert_other :
      (m : Map A) (k j : ℕ) (a : A) → k ≢ j → lookup (insert m k a) j ≡ lookup m j
  lookup-insert_other [] k j a apart = ground arith
  lookup-insert_other ((k', b) ∷ m) k j a apart = ground (arith, lookup-insert_other m k j a apart)

abbrev pub Table {ℓ} : Type ℓ → Type ℓ
Table A = List ℕ → Option A

-- The table with another entry, or none, at a key.
abbrev pub assign {ℓ} : {A : Type ℓ} → Table A → List ℕ → Option A → Table A
assign table key entry = λ k. if bytes_eq key k then entry else table k

module _ {ℓ} {A : Type ℓ} (table : Table A) (key : List ℕ) (entry : Option A) where
  pub assign_self : assign table key entry key ≡ entry
  assign_self = ground (arith, bytes_eq_self key)

  assign_other : (k : List ℕ) → key ≢ k → assign table key entry k ≡ table k
  assign_other k apart = ground (arith, bytes_eq→eq key k)
