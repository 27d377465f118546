-- ===== src/Node/BufferPool/Uses.antt =====
-- A pool in use: every buffer that it gives is empty, and it never grows.
use cryprq.Base.{
  ℕ, zero, suc, ◌+◌, ◌≤◌, ◌≡◌, refl, ap, ◌∙◌, arith, List, [], ◌∷◌, ◌++◌, length, replicate,
  length-replicate, min, ◌-◌, ap₂, ltb, if◌then◌else◌, Option, none, some, Bool-cases, subst, sym,
  inl, inr, ◌<◌, ok, panicked,
}
use cryprq.Node.BufferPool.{ArrayQueue, fill, new, get, put}

-- The documentation of crossbeam.
pub record IsArrayQueue (q : ArrayQueue) : Type 0 where
  pub contents : q.Queue → List (List ℕ)
  pub capacity : q.Queue → ℕ
  pub new_zero : q.new 0 ≡ panicked
  pub new_suc :
      (n : ℕ) → 0 < n → (p : q.Queue) × (q.new n ≡ ok p) × (contents p ≡ []) × (capacity p ≡ n)
  pub push_contents :
      (p : q.Queue) (b : List ℕ)
      → (contents (q.push p b)
          ≡ (if ltb (length (contents p)) (capacity p) then contents p ++ (b ∷ []) else contents p))
        × (capacity (q.push p b) ≡ capacity p)
  pub pop_nil : (p : q.Queue) → contents p ≡ [] → q.pop p ≡ (none, p)
  pub pop_cons :
      (p : q.Queue) (b : List ℕ) (bs : List (List ℕ))
      → contents p ≡ b ∷ bs
      → ((q.pop p).0 ≡ some b) × (contents (q.pop p).1 ≡ bs) × (capacity (q.pop p).1 ≡ capacity p)

-- A call: a buffer is asked for, or one is returned with what it holds.
pub data Use : Type 0 where
  getting : Use
  putting : List ℕ → Use

-- How many of the calls ask for a buffer.
abbrev pub gets : List Use → ℕ
gets [] = 0
gets (getting ∷ uses) = suc (gets uses)
gets (putting buf ∷ uses) = gets uses

-- The buffers in a pool of a capacity after these calls, from a number of them on.
abbrev pub pooled : ℕ → ℕ → List Use → ℕ
pooled n k [] = k
pooled n k (getting ∷ uses) = pooled n (k - 1) uses
pooled n k (putting buf ∷ uses) = pooled n (min n (k + 1)) uses

abbrev pub empty_buffers : ℕ → List (List ℕ)
empty_buffers k = replicate k []

empty_buffers-snoc : (k : ℕ) → empty_buffers k ++ ([] ∷ []) ≡ empty_buffers (suc k)
empty_buffers-snoc zero = refl
empty_buffers-snoc (suc k) = ap (λ (bs : List (List ℕ)). [] ∷ bs) (empty_buffers-snoc k)

module _ (q : ArrayQueue) where
  -- The buffers that these calls give, and the pool after them.
  abbrev pub run : q.Queue → List Use → List (List ℕ) × q.Queue
  run pool [] = ([], pool)
  run pool (getting ∷ uses) =
      let (buf, pool') = get q pool in let (bufs, last) = run pool' uses in (buf ∷ bufs, last)
  run pool (putting buf ∷ uses) = run (put q pool buf) uses

  module _ (laws : IsArrayQueue q) where
    -- A pool of this capacity with this many empty buffers.
    abbrev pub IsPool : ℕ → ℕ → q.Queue → Type 0
    IsPool n k p = (k ≤ n) × ((laws.contents p ≡ empty_buffers k) × (laws.capacity p ≡ n))

    push-IsPool : (n k : ℕ) (p : q.Queue) → IsPool n k p → IsPool n (min n (k + 1)) (q.push p [])
    push-IsPool n k p (fits, (same, size)) =
        let (pushed, kept) = laws.push_contents p [] in
        let many : length (laws.contents p) ≡ k = ap length same ∙ length-replicate k [] in
        elim (Bool-cases (ltb k n)) [
          | inl room ↦
              let next : min n (k + 1) ≡ suc k = ground arith in
              (
                omega (arith, next),
                (
                  ground (arith, pushed, many, size, room)
                      ∙ ap (λ (bs : List (List ℕ)). bs ++ ([] ∷ [])) same
                      ∙ empty_buffers-snoc k
                      ∙ ap empty_buffers (sym next),
                  kept ∙ size,
                ),
              )
          | inr full ↦
              let next : min n (k + 1) ≡ k = ground arith in
              (
                omega (arith, next, fits),
                (
                  ground (arith, pushed, many, size, full) ∙ same ∙ ap empty_buffers (sym next),
                  kept ∙ size,
                ),
              )
        ]

    get-IsPool :
        (n k : ℕ) (p : q.Queue) → IsPool n k p → ((get q p).0 ≡ []) × IsPool n (k - 1) (get q p).1
    unfolding get
    get-IsPool n zero p (fits, (same, size)) =
        let popped = laws.pop_nil p same in
        let stays : (q.pop p).1 ≡ p = ap (λ (r : Option (List ℕ) × q.Queue). r.1) popped in
        (rw popped refl, (fits, (ap laws.contents stays ∙ same, ap laws.capacity stays ∙ size)))
    get-IsPool n (suc k) p (fits, (same, size)) =
        let (popped, rest, kept) = laws.pop_cons p [] (empty_buffers k) same in
        let same_count : k ≡ suc k - 1 = omega arith in
        (rw popped refl, (omega arith, (rest ∙ ap empty_buffers same_count, kept ∙ size)))

    fill-IsPool : (n c k : ℕ) (p : q.Queue) → c + k ≡ n → IsPool n k p → IsPool n n (fill q c p)
    fill-IsPool n zero k p e h =
        let same : k ≡ n = omega (arith, e) in subst (λ m. IsPool n m p) same h
    fill-IsPool n (suc c) k p e h =
        let next : min n (k + 1) ≡ k + 1 = ground arith in
        let one_more = push-IsPool n k p h in
        fill-IsPool n c (k + 1) (q.push p []) (omega (arith, e))
          (subst (λ m. IsPool n m (q.push p [])) next one_more)

    run-IsPool :
        (n k : ℕ) (p : q.Queue) (uses : List Use)
        → IsPool n k p
        → let (bufs, last) = run p uses in
          (bufs ≡ empty_buffers (gets uses)) × IsPool n (pooled n k uses) last
    unfolding put
    run-IsPool n k p [] h = (refl, h)
    run-IsPool n k p (getting ∷ uses) h =
        let (empty, h') = get-IsPool n k p h in
        let (bufs, last) = run-IsPool n (k - 1) (get q p).1 uses h' in
        (ap₂ (λ (b : List ℕ) (bs : List (List ℕ)). b ∷ bs) empty bufs, last)
    run-IsPool n k p (putting buf ∷ uses) h =
        run-IsPool n (min n (k + 1)) (put q p buf) uses (push-IsPool n k p h)

    -- A new pool of a capacity above 0 is made without a panic and holds as many empty buffers as
    -- its capacity; whatever is asked for and returned, with whatever it holds, each buffer that
    -- it gives is empty, and it holds one less for each buffer asked for, if it has any, and one
    -- more for each returned, up to its capacity, over a queue with its documented behaviour.
    pub run-new :
        (n : ℕ) (uses : List Use)
        → 0 < n
        → (p : q.Queue) × (new q n ≡ ok p)
          × ((run p uses).0 ≡ empty_buffers (gets uses))
          × IsPool n (pooled n n uses) (run p uses).1
    unfolding new
    run-new n uses positive =
        let (p, made, none_yet, size) = laws.new_suc n positive in
        let full = fill-IsPool n n 0 p (omega arith) (omega arith, (none_yet, size)) in
        let (bufs, last) = run-IsPool n n (fill q n p) uses full in
        (fill q n p, rw made refl, bufs, last)
