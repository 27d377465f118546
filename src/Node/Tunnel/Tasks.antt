-- ===== src/Node/Tunnel/Tasks.antt =====
-- The tasks that send packets of the VPN and the task that rotates the keys, lock by lock: `send_record`
-- and the spawned loop of `create_tunnel_with_output_dir` in node/src/lib.rs, and `next_vpn` of
-- node/src/seq_counters.rs.
pub mod Numbers
pub mod Races
use cryprq.Base.{ℕ, ◌+◌, ◌≤◌, ◌<◌, ◌≡◌, List, [], ◌∷◌, set, get_elem?, replicate, some, ok}
use cryprq.Crypto.Kdf.{Hkdf, TrafficKeys, derive_epoch_keys}
use cryprq.Node.CryptoUtils.{Epoch, next}
use cryprq.Node.Error.{TunnelError}
use cryprq.Node.RecordLayer.{DirectionKeys}
use cryprq.Node.SeqCounters.{SeqCounters, reset, fetch_add, max_nonce_value}
use cryprq.Node.Tunnel.Setup.{keys_ir, keys_ri}

-- What the tasks share: each field is behind its own lock, the counters are atomic.
pub record Cells : Type 0 where
  pub epoch : Epoch
  pub keys_outbound : DirectionKeys
  pub keys_inbound : DirectionKeys
  pub seq_counters : SeqCounters

-- Where a task in `send_record` stands: between packets, after the lock of the epoch, after that of
-- the keys, and after the load of the counter that was below its limit.
pub data Sender : Type 0 where
  idle : Sender
  with_epoch : Epoch → Sender
  with_keys : Epoch → DirectionKeys → Sender
  below_limit : Epoch → DirectionKeys → Sender

-- Where the rotation task stands: between rotations, or with the new keys after the lock of the epoch,
-- of the outbound keys, and of the inbound keys.
pub data Rotator : Type 0 where
  resting : Rotator
  epoch_stored : TrafficKeys → Rotator
  outbound_stored : TrafficKeys → Rotator
  inbound_stored : Rotator

-- What goes into a record: the epoch of its header, the keys and the number; and how many resets there
-- were when the number was drawn.
pub record Sealing : Type 0 where
  pub epoch : Epoch
  pub keys : DirectionKeys
  pub number : ℕ
  pub resets : ℕ

pub record System : Type 0 where
  pub cells : Cells
  pub senders : List Sender
  pub rotator : Rotator
  pub resets : ℕ
  pub sealed : List Sealing

-- So many idle tasks, and no packet yet.
abbrev pub start : Cells → ℕ → System
start cells n = record {
  cells = cells;
  senders = replicate n idle;
  rotator = resting;
  resets = 0;
  sealed = [];
}

-- The counters after `fetch_add` on the one for packets of the VPN.
abbrev pub drawn : SeqCounters → SeqCounters
drawn c = record c { vpn = fetch_add c.vpn }

module _ (hkdf : Hkdf) (master_secret : List ℕ) where
  -- One step of one task. A record is sealed and sent by the task alone, from what it has read.
  pub data Step (s : System) : System → Type 0 where
    read_epoch :
        (i : ℕ)
        → get_elem? s.senders i ≡ some idle
        → Step s (record s { senders = set s.senders i (with_epoch s.cells.epoch) })
    read_keys :
        (i : ℕ) (e : Epoch)
        → get_elem? s.senders i ≡ some (with_epoch e)
        → Step s (record s { senders = set s.senders i (with_keys e s.cells.keys_outbound) })
    load_counter :
        (i : ℕ) (e : Epoch) (k : DirectionKeys)
        → get_elem? s.senders i ≡ some (with_keys e k)
        → s.cells.seq_counters.vpn < max_nonce_value
        → Step s (record s { senders = set s.senders i (below_limit e k) })
    overflow :
        (i : ℕ) (e : Epoch) (k : DirectionKeys)
        → get_elem? s.senders i ≡ some (with_keys e k)
        → max_nonce_value ≤ s.cells.seq_counters.vpn
        → Step s (record s { senders = set s.senders i idle })
    draw_number :
        (i : ℕ) (e : Epoch) (k : DirectionKeys)
        → get_elem? s.senders i ≡ some (below_limit e k)
        → Step s (record s {
          senders = set s.senders i idle;
          cells = record s.cells { seq_counters = drawn s.cells.seq_counters };
          sealed =
              record { epoch = e; keys = k; number = s.cells.seq_counters.vpn; resets = s.resets }
              ∷ s.sealed;
        })
    store_epoch :
        (k : TrafficKeys)
        → s.rotator ≡ resting
        → derive_epoch_keys hkdf {E = TunnelError} master_secret (next s.cells.epoch).value 32 12
          ≡ ok k
        → Step s (record s {
          cells = record s.cells { epoch = next s.cells.epoch };
          rotator = epoch_stored k;
        })
    store_outbound :
        (k : TrafficKeys)
        → s.rotator ≡ epoch_stored k
        → Step s (record s {
          cells = record s.cells { keys_outbound = keys_ir k };
          rotator = outbound_stored k;
        })
    store_inbound :
        (k : TrafficKeys)
        → s.rotator ≡ outbound_stored k
        → Step s (record s {
          cells = record s.cells { keys_inbound = keys_ri k };
          rotator = inbound_stored;
        })
    reset_counters :
        s.rotator ≡ inbound_stored
        → Step s (record s {
          cells = record s.cells { seq_counters = reset s.cells.seq_counters };
          rotator = resting;
          resets = s.resets + 1;
        })

  -- Any number of steps, in any order of the tasks.
  pub data Reach (start : System) : System → Type 0 where
    here : Reach start start
    later : {s t : System} → Reach start s → Step s t → Reach start t
