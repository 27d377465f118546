-- ===== src/Node/Tunnel/Tasks/Numbers.antt =====
-- The sequence numbers of the packets over every interleaving of the tasks.
use cryprq.Base.{ℕ, zero, suc, ◌+◌, ◌%◌, ◌≤◌, ◌<◌, ◌^◌, ◌≡◌, refl, ap, ◌∙◌, arith}
use cryprq.Base.{
  List, [], ◌∷◌, length, set, get_elem?, replicate, All, length-set, length-replicate, some,
}
use cryprq.Crypto.Kdf.{Hkdf}
use cryprq.Node.SeqCounters.{max_nonce_value, reset}
use cryprq.Node.Tunnel.Tasks

-- The tasks that have found the counter below its limit, and have not drawn yet.
abbrev weight : Tasks.Sender → ℕ
weight Tasks.idle = 0
weight (Tasks.with_epoch e) = 0
weight (Tasks.with_keys e k) = 0
weight (Tasks.below_limit e k) = 1

abbrev waiting : List Tasks.Sender → ℕ
waiting [] = 0
waiting (p ∷ ps) = weight p + waiting ps

weight_le : (p : Tasks.Sender) → weight p ≤ 1
weight_le p = ground arith

waiting-le-length : (ps : List Tasks.Sender) → waiting ps ≤ length ps
waiting-le-length [] = omega arith
waiting-le-length (p ∷ ps) = omega (arith, weight_le p, waiting-le-length ps)

waiting-set :
    (ps : List Tasks.Sender) (i : ℕ) (p q : Tasks.Sender)
    → get_elem? ps i ≡ some p
    → waiting (set ps i q) + weight p ≡ waiting ps + weight q
waiting-set [] i p q e = absurd (cc)
waiting-set (r ∷ ps) zero p q e = let same : r ≡ p = cc in omega (arith, ap weight same)
waiting-set (r ∷ ps) (suc i) p q e = omega (arith, waiting-set ps i p q e)

waiting-replicate : (n : ℕ) → waiting (replicate n Tasks.idle) ≡ 0
waiting-replicate zero = refl
waiting-replicate (suc n) = omega (arith, waiting-replicate n)

-- No reset lies ahead of the present, and a number drawn since the last one is below the counter.
abbrev IsPast : Tasks.System → Tasks.Sealing → Type 0
IsPast s f = (f.resets ≤ s.resets) × (f.resets ≡ s.resets → f.number < s.cells.seq_counters.vpn)

-- Each number is higher than those drawn before it between the same two resets; the last one comes first.
abbrev pub Increasing : List Tasks.Sealing → Type 0
Increasing [] = Unit
Increasing (e ∷ es) =
    All (λ (f : Tasks.Sealing). f.resets ≡ e.resets → f.number < e.number) es × Increasing es

record Inv (n : ℕ) (s : Tasks.System) : Type 0 where
  count : length s.senders ≡ n
  margin : s.cells.seq_counters.vpn + waiting s.senders < max_nonce_value + n
  past : All (IsPast s) s.sealed
  increasing : Increasing s.sealed

All-map :
    {P Q : Tasks.Sealing → Type 0}
    → (es : List Tasks.Sealing) → ((f : Tasks.Sealing) → P f → Q f)
    → All P es
    → All Q es
All-map [] h a = tt
All-map (f ∷ es) h a = (h f a.0, All-map es h a.1)

module _ (hkdf : Hkdf) (master : List ℕ) (n : ℕ) (few : n ≤ 1000) (some_task : 0 < n) where
  Step-Inv : {s t : Tasks.System} → Tasks.Step hkdf master s t → Inv n s → Inv n t
  unfolding reset
  Step-Inv {s} (Tasks.read_epoch i at) inv = record {
    count = length-set s.senders i _ ∙ inv.count;
    margin =
        omega (arith, waiting-set s.senders i _ (Tasks.with_epoch s.cells.epoch) at, inv.margin);
    past = inv.past;
    increasing = inv.increasing;
  }
  Step-Inv {s} (Tasks.read_keys i e at) inv = record {
    count = length-set s.senders i _ ∙ inv.count;
    margin =
        omega (
          arith,
          waiting-set s.senders i _ (Tasks.with_keys e s.cells.keys_outbound) at,
          inv.margin,
        );
    past = inv.past;
    increasing = inv.increasing;
  }
  Step-Inv {s} (Tasks.load_counter i e k at below) inv = record {
    count = length-set s.senders i _ ∙ inv.count;
    margin = omega (
      arith,
      waiting-le-length (set s.senders i (Tasks.below_limit e k)),
      length-set s.senders i (Tasks.below_limit e k),
      inv.count,
    );
    past = inv.past;
    increasing = inv.increasing;
  }
  Step-Inv {s} (Tasks.overflow i e k at above) inv = record {
    count = length-set s.senders i _ ∙ inv.count;
    margin = omega (arith, waiting-set s.senders i _ Tasks.idle at, inv.margin);
    past = inv.past;
    increasing = inv.increasing;
  }
  Step-Inv {s} (Tasks.draw_number i e k at) inv =
      let moved = waiting-set s.senders i _ Tasks.idle at in
      let c = s.cells.seq_counters.vpn in
      let next : (c + 1) % 2 ^ 64 ≡ c + 1 = omega (arith, inv.margin) in
      record {
        count = length-set s.senders i _ ∙ inv.count;
        margin = omega (arith, moved, inv.margin);
        past = (
          (omega arith, λ same. omega arith),
          All-map s.sealed (λ f p. (p.0, λ same. let below = p.1 same in omega arith)) inv.past,
        );
        increasing = (All-map s.sealed (λ f p. p.1) inv.past, inv.increasing);
      }
  Step-Inv {s} (Tasks.store_epoch k at derived) inv = record {
    count = inv.count;
    margin = inv.margin;
    past = inv.past;
    increasing = inv.increasing;
  }
  Step-Inv {s} (Tasks.store_outbound k at) inv = record {
    count = inv.count;
    margin = inv.margin;
    past = inv.past;
    increasing = inv.increasing;
  }
  Step-Inv {s} (Tasks.store_inbound k at) inv = record {
    count = inv.count;
    margin = inv.margin;
    past = inv.past;
    increasing = inv.increasing;
  }
  Step-Inv {s} (Tasks.reset_counters at) inv = record {
    count = inv.count;
    margin = omega (arith, waiting-le-length s.senders, inv.count);
    past =
        All-map s.sealed (λ f p. (omega (arith, p.0), λ same. absurd (omega (arith, p.0))))
          inv.past;
    increasing = inv.increasing;
  }

  start-Inv : (c : Tasks.Cells) → c.seq_counters.vpn ≤ max_nonce_value → Inv n (Tasks.start c n)
  start-Inv c fits = record {
    count = length-replicate n Tasks.idle;
    margin = omega (arith, waiting-replicate n);
    past = tt;
    increasing = tt;
  }

  Reach-Inv :
      (c : Tasks.Cells)
      → c.seq_counters.vpn ≤ max_nonce_value
      → {s : Tasks.System} → Tasks.Reach hkdf master (Tasks.start c n) s
      → Inv n s
  Reach-Inv c fits Tasks.here = start-Inv c fits
  Reach-Inv c fits (Tasks.later r st) = Step-Inv st (Reach-Inv c fits r)

  -- In every interleaving of 1 to 1000 tasks that send packets, started with the counter at most
  -- at its limit, and of the rotation task, each packet gets a higher number than the packets
  -- that got theirs before it between the same two resets of the counter, and the counter never
  -- wraps.
  pub numbers_increase :
      (c : Tasks.Cells)
      → c.seq_counters.vpn ≤ max_nonce_value
      → {s : Tasks.System} → Tasks.Reach hkdf master (Tasks.start c n) s
      → Increasing s.sealed × (s.cells.seq_counters.vpn + 1 < 2 ^ 64)
  numbers_increase c fits r =
      let inv = Reach-Inv c fits r in (inv.increasing, omega (arith, inv.margin))
