-- ===== src/Core/Ffi.antt =====
-- The C interface: core/src/ffi.rs, handle.rs, util.rs and error.rs. A pointer is an option, `none`
-- for null, to what it points to.
pub mod Init
pub mod Outcomes
pub mod Connect
use cryprq.Base.{ℕ, suc, ◌+◌, List, [], ◌∷◌, ◌++◌, take, ltb, Bool, true, false, not, ◌&&◌}
use cryprq.Base.{Option, none, some, Outcome, ok, err, panicked, ◌>>=◌, ◌>>◌, reject_if}
use cryprq.Base.{if◌then◌else◌}
use cryprq.Base.Utf8.{is_utf8}

-- `CrypRqErrorCode`
pub data ErrorCode : Type 0 where
  code_ok err_null err_utf8 err_invalid_argument err_already_connected : ErrorCode
  err_unsupported err_runtime err_internal : ErrorCode

unfoldable pub discriminant : ErrorCode → ℕ
discriminant code_ok = 0
discriminant err_null = 1
discriminant err_utf8 = 2
discriminant err_invalid_argument = 3
discriminant err_already_connected = 4
discriminant err_unsupported = 5
discriminant err_runtime = 6
discriminant err_internal = 255

unfoldable pub is_ok : ErrorCode → Bool
is_ok code_ok = true
is_ok _ = false

-- `CStr::to_str` and `str::from_utf8`, with the conversion of their error.
unfoldable pub to_str : List ℕ → Outcome ErrorCode (List ℕ)
to_str bytes = if is_utf8 bytes then ok bytes else err err_utf8

unfoldable pub read_optional_cstr : Option (List ℕ) → Outcome ErrorCode (Option (List ℕ))
read_optional_cstr none = ok none
read_optional_cstr (some bytes) = do value ← to_str bytes; ok (some value)

-- `CrypRqStrView`: the bytes from the pointer on.
pub record StrView : Type 0 where
  pub data' : Option (List ℕ)
  pub len : ℕ

unfoldable pub str_view_to_string : StrView → Outcome ErrorCode (List ℕ)
str_view_to_string view = elim view.data' [
  | none ↦ err err_null
  | some bytes ↦ to_str (take view.len bytes)
]

-- `map` and `collect` up to the first error.
unfoldable pub collect_views : List StrView → Outcome ErrorCode (List (List ℕ))
collect_views [] = ok []
collect_views (view ∷ views) = do
  first ← str_view_to_string view
  rest ← collect_views views
  ok (first ∷ rest)

-- `CrypRqConfig`: the views from the pointer on.
pub record Config : Type 0 where
  pub log_level : Option (List ℕ)
  pub allow_peers : Option (List StrView)
  pub allow_peers_len : ℕ

-- `ConnectionState`, with the number of the task.
pub data ConnectionState : Type 0 where
  listener dialer : ℕ → ConnectionState

abbrev pub task_of : ConnectionState → ℕ
task_of (listener task) = task
task_of (dialer task) = task

-- `CrypRqHandle`; `spawned` counts the tasks of its runtime and `aborted` lists those that were
-- stopped. `poisoned` says whether the lock of the connection is.
pub record Handle : Type 0 where
  pub allow_peers : List (List ℕ)
  pub connection : Option ConnectionState
  pub poisoned : Bool
  pub spawned : ℕ
  pub aborted : List ℕ

-- `CrypRqHandle::new`, if the runtime can be created.
unfoldable pub new_handle : Bool → List (List ℕ) → Outcome ErrorCode Handle
new_handle can_create allow_peers =
    if can_create
    then ok (record {
      allow_peers = allow_peers;
      connection = none;
      poisoned = false;
      spawned = 0;
      aborted = [];
    })
    else err err_runtime

-- The allow list of a configuration.
unfoldable pub allow_list : Config → Outcome ErrorCode (List (List ℕ))
allow_list cfg = elim cfg.allow_peers [
  | none ↦ ok []
  | some views ↦
      if ltb 0 cfg.allow_peers_len then collect_views (take cfg.allow_peers_len views) else ok []
]

abbrev pub is_null : {A : Type 0} → Option A → Bool
is_null none = true
is_null (some a) = false

-- `init_inner` with the variable `RUST_LOG`, which is set before the rest is read.
unfoldable pub init_inner :
    Bool → Option (List ℕ) → Config → Outcome ErrorCode Handle × Option (List ℕ)
init_inner can_create rust_log cfg =
    if ltb 0 cfg.allow_peers_len && is_null cfg.allow_peers
    then (err err_null, rust_log)
    else elim (read_optional_cstr cfg.log_level) [
      | err e ↦ (err e, rust_log)
      | panicked ↦ (panicked, rust_log)
      | ok level ↦ (
        allow_list cfg >>= λ allow. new_handle can_create allow,
        elim level [ none ↦ rust_log | some value ↦ some value ],
      )
    ]

-- What a call of `cryprq_init` leaves: its code, the handle at `out_handle`, and the variable. A
-- call that panics does not return.
unfoldable pub cryprq_init :
    Bool
    → Option (List ℕ)
    → Option Config
    → Bool
    → Option ErrorCode × (Option Handle × Option (List ℕ))
cryprq_init can_create rust_log none out_handle = (some err_null, (none, rust_log))
cryprq_init can_create rust_log (some cfg) false = (some err_null, (none, rust_log))
cryprq_init can_create rust_log (some cfg) true =
    let (result, rust_log') = init_inner can_create rust_log cfg in
    elim result [
      | ok handle ↦ (some code_ok, (some handle, rust_log'))
      | err code ↦ (some code, (none, rust_log'))
      | panicked ↦ (none, (none, rust_log'))
    ]

unfoldable pub set_connection : Handle → ConnectionState → ErrorCode × Handle
set_connection h state = if h.poisoned then (err_internal, h) else elim h.connection [
  | some connected ↦ (err_already_connected, h)
  | none ↦ (code_ok, record h { connection = some state })
]

-- `clear_connection`, and `drop`: the task of the connection is stopped.
unfoldable pub clear_connection : Handle → Handle
clear_connection h = if h.poisoned then h else elim h.connection [
  | none ↦ h
  | some state ↦ record h { connection = none; aborted = task_of state ∷ h.aborted }
]

-- A task is spawned first, whatever becomes of the connection.
unfoldable pub spawn_listener : Handle → List ℕ → ErrorCode × Handle
spawn_listener h addr = set_connection (record h { spawned = suc h.spawned }) (listener h.spawned)

unfoldable pub spawn_dialer : Handle → List ℕ → ErrorCode × Handle
spawn_dialer h addr = set_connection (record h { spawned = suc h.spawned }) (dialer h.spawned)

pub data ConnectionMode : Type 0 where
  mode_listen mode_dial : ConnectionMode

pub record PeerParams : Type 0 where
  pub mode : ConnectionMode
  pub multiaddr : Option (List ℕ)

-- The address and the mode, behind the checks for null.
unfoldable pub connect_to : Handle → PeerParams → ErrorCode × Handle
connect_to h params = elim params.multiaddr [
  | none ↦ (err_null, h)
  | some addr ↦
      if is_utf8 addr
      then elim params.mode [
        | mode_listen ↦ spawn_listener h addr
        | mode_dial ↦ spawn_dialer h addr
      ]
      else (err_utf8, h)
]

unfoldable pub cryprq_connect : Option Handle → Option PeerParams → ErrorCode × Option Handle
cryprq_connect none params = (err_null, none)
cryprq_connect (some h) none = (err_null, some h)
cryprq_connect (some h) (some params) = let (code, h') = connect_to h params in (code, some h')

unfoldable pub cryprq_read_packet : Option Handle → ErrorCode
cryprq_read_packet handle = err_unsupported

unfoldable pub cryprq_write_packet : Option Handle → ErrorCode
cryprq_write_packet handle = err_unsupported

unfoldable pub cryprq_on_network_change : Option Handle → ErrorCode
cryprq_on_network_change handle = code_ok

-- `cryprq_close`: the handle as it is dropped.
unfoldable pub cryprq_close : Option Handle → ErrorCode × Option Handle
cryprq_close none = (err_null, none)
cryprq_close (some h) = (code_ok, some (clear_connection h))
