-- ===== src/Node/BufferPool/Tests.antt =====
-- The theorem on the pool at concrete inputs, over a queue that is a list with a limit.
use cryprq.Base.{
  ℕ, ◌≡◌, refl, ap, List, [], ◌∷◌, ◌++◌, length, ltb, if◌then◌else◌, Option, none, some,
}
use cryprq.Base.{zero, suc, arith, ◌<◌, Outcome, ok, panicked}
use cryprq.Node.Error.{TunnelError}
use cryprq.Node.BufferPool
use cryprq.Node.BufferPool.{ArrayQueue}
use cryprq.Node.BufferPool.Uses.{
  IsArrayQueue, Use, getting, putting, gets, pooled, empty_buffers, run, IsPool, run-new,
}

record Bounded : Type 0 where
  limit : ℕ
  items : List (List ℕ)

abbrev pushed : Bounded → List ℕ → Bounded
pushed p b = record p {
  items = if ltb (length p.items) p.limit then p.items ++ (b ∷ []) else p.items;
}

abbrev popped : Bounded → List (List ℕ) → Option (List ℕ) × Bounded
popped p [] = (none, p)
popped p (b ∷ bs) = (some b, record p { items = bs })

abbrev made : ℕ → Outcome TunnelError Bounded
made zero = panicked
made (suc n) = ok (record { limit = suc n; items = [] })

made_positive : (n : ℕ) → 0 < n → (p : Bounded) × (made n ≡ ok p) × (p.items ≡ []) × (p.limit ≡ n)
made_positive zero positive = absurd (omega arith)
made_positive (suc n) positive = (record { limit = suc n; items = [] }, refl, refl, refl)

abbrev queue : ArrayQueue
queue = record { Queue = Bounded; new = made; push = pushed; pop = λ p. popped p p.items }

queue-IsArrayQueue : IsArrayQueue queue
queue-IsArrayQueue = record {
  contents = λ p. p.items;
  capacity = λ p. p.limit;
  new_zero = refl;
  new_suc = made_positive;
  push_contents = λ p b. (refl, refl);
  pop_nil = λ p e. ap (popped p) e;
  pop_cons = λ p b bs e. (
    ap (λ (items : List (List ℕ)). (popped p items).0) e,
    ap (λ (items : List (List ℕ)). (popped p items).1.items) e,
    ap (λ (items : List (List ℕ)). (popped p items).1.limit) e,
  );
}

-- Three buffers of a pool of two, and two returned.
abbrev uses : List Use
uses = getting ∷ getting ∷ getting ∷ putting (1 ∷ 2 ∷ []) ∷ putting (3 ∷ []) ∷ putting [] ∷ []

run-new_example :
    (p : Bounded) × (BufferPool.new queue 2 ≡ ok p)
    × ((run queue p uses).0 ≡ empty_buffers (gets uses))
    × IsPool queue queue-IsArrayQueue 2 (pooled 2 2 uses) (run queue p uses).1
run-new_example = run-new queue queue-IsArrayQueue 2 uses (omega arith)
