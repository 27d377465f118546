-- ===== src/Base/Results.antt =====
-- What a Rust call that returns a `Result` can do: return `Ok`, return `Err`, or panic.
use mathlib.Core.Path.{◌≡◌, refl}
use mathlib.Core.Logic.{◌⊎◌, inl, inr}
use mathlib.Core.Bool.{Bool, true, false}

pub data Outcome {ℓ} (E A : Type ℓ) : Type ℓ where
  ok : A → Outcome E A
  err : E → Outcome E A
  panicked : Outcome E A

-- The operator `?`: an error or a panic ends the caller too.
infixl 5 ◌>>=◌ ◌>>◌
abbrev pub ◌>>=◌ {ℓ} : {E A B : Type ℓ} → Outcome E A → (A → Outcome E B) → Outcome E B
ok a >>= f = f a
err e >>= f = err e
panicked >>= f = panicked

-- A call whose result is of no use.
abbrev pub ◌>>◌ : {E B : Type 0} → Outcome E (Unit {0}) → Outcome E B → Outcome E B
check >> rest = check >>= λ done. rest

-- `if bad { return Err(e) }`
abbrev pub reject_if : {E : Type 0} → Bool → E → Outcome E (Unit {0})
reject_if true e = err e
reject_if false e = ok tt

-- `map_err`
abbrev pub map_err : {E F A : Type 0} → (E → F) → Outcome E A → Outcome F A
map_err f (ok a) = ok a
map_err f (err e) = err (f e)
map_err f panicked = panicked

-- A chain that returns `Ok` has returned `Ok` at its first call.
pub >>=-eq-ok :
    {E A B : Type 0} (call : Outcome E A) (next : A → Outcome E B) {value : B}
    (returned : (call >>= next) ≡ ok value)
    → (first : A) × (call ≡ ok first) × (next first ≡ ok value)
>>=-eq-ok panicked next returned = cc
>>=-eq-ok (err failure) next returned = cc
>>=-eq-ok (ok first) next returned = (first, refl, returned)

pub reject_if-ok : {E : Type 0} (b : Bool) (e : E) → reject_if b e ≡ ok tt → b ≡ false
reject_if-ok true e h = cc
reject_if-ok false e h = refl

pub Outcome-cases :
    {E A : Type 0} (m : Outcome E A)
    → ((a : A) × (m ≡ ok a)) ⊎ (((e : E) × (m ≡ err e)) ⊎ (m ≡ panicked))
Outcome-cases (ok a) = inl (a, refl)
Outcome-cases (err e) = inr (inl (e, refl))
Outcome-cases panicked = inr (inr refl)
