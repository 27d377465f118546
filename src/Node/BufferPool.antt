-- ===== src/Node/BufferPool.antt =====
-- `BufferPool` of node/src/lib.rs. The tunnel takes a pool as a parameter, which this one is.
pub mod Uses
mod Tests
use cryprq.Base.{ℕ, zero, suc, List, [], Option, none, some}
use cryprq.Base.{Outcome, ok, err, panicked, ◌>>=◌}
use cryprq.Node.Error.{TunnelError}

-- `ArrayQueue<BytesMut>` of crossbeam: `new` panics on a capacity of 0; `push` to a full queue gives the buffer back, which the pool
-- ignores, and leaves the queue as it is.
pub record ArrayQueue : Type 1 where
  pub Queue : Type 0
  pub new : ℕ → Outcome TunnelError Queue
  pub push : Queue → List ℕ → Queue
  pub pop : Queue → Option (List ℕ) × Queue

module _ (q : ArrayQueue) where
  -- The loop of `new`: a buffer of no bytes each time.
  abbrev pub fill : ℕ → q.Queue → q.Queue
  fill zero pool = pool
  fill (suc n) pool = fill n (q.push pool [])

  unfoldable pub new : ℕ → Outcome TunnelError q.Queue
  new capacity = q.new capacity >>= λ pool. ok (fill capacity pool)

  unfoldable pub get : q.Queue → List ℕ × q.Queue
  get pool = let (popped, pool') = q.pop pool in (elim popped [ some buf ↦ buf | none ↦ [] ], pool')

  -- The buffer is cleared.
  unfoldable pub put : q.Queue → List ℕ → q.Queue
  put pool buf = q.push pool []
