-- ===== src/Core/Ffi/Connect.antt =====
-- The connections of a handle: at most one, and the tasks behind them.
use cryprq.Base.{ℕ, suc, ◌+◌, List, [], ◌∷◌, Bool, true, false, not, Option, none, some}
use cryprq.Base.{◌≡◌, refl, ap, arith, Option-cases, Bool-cases, inl, inr}
use cryprq.Base.{if◌then◌else◌}
use cryprq.Base.Utf8.{is_utf8}
use cryprq.Core.Ffi

-- The codes of a sequence of connects with one handle, and the handle after it.
abbrev pub connect_all :
    Option Ffi.Handle → List (Option Ffi.PeerParams) → List Ffi.ErrorCode × Option Ffi.Handle
connect_all h [] = ([], h)
connect_all h (params ∷ calls) =
    let (code, h') = Ffi.cryprq_connect h params in
    let (codes, h'') = connect_all h' calls in (code ∷ codes, h'')

-- Why a call is refused before it gets to the connection: its parameters or its address are
-- missing, or the address is no text.
abbrev pub rejected : Option Ffi.PeerParams → Option Ffi.ErrorCode
rejected none = some Ffi.err_null
rejected (some params) = elim params.multiaddr [
  | none ↦ some Ffi.err_null
  | some addr ↦ if is_utf8 addr then none else some Ffi.err_utf8
]

-- What a handle promises: the first call that is not rejected connects, the later ones are told so.
abbrev pub promised : Bool → List (Option Ffi.PeerParams) → List Ffi.ErrorCode
promised connected [] = []
promised connected (params ∷ calls) = elim (rejected params) [
  | some code ↦ code ∷ promised connected calls
  | none ↦ (if connected then Ffi.err_already_connected else Ffi.code_ok) ∷ promised true calls
]

-- How many calls get to the connection.
abbrev pub reaching : List (Option Ffi.PeerParams) → ℕ
reaching [] = 0
reaching (params ∷ calls) = elim (rejected params) [
  | some code ↦ reaching calls
  | none ↦ suc (reaching calls)
]

-- Whether a handle has a connection.
abbrev pub is_connected : Ffi.Handle → Bool
is_connected h = not (Ffi.is_null h.connection)

cryprq_connect-rejected :
    (h : Ffi.Handle) (params : Option Ffi.PeerParams) (code : Ffi.ErrorCode)
    → rejected params ≡ some code
    → Ffi.cryprq_connect (some h) params ≡ (code, some h)
unfolding Ffi.cryprq_connect Ffi.connect_to
cryprq_connect-rejected h none code e = let same : Ffi.err_null ≡ code = cc in rw same refl
cryprq_connect-rejected h (some params) code e = ground (arith, e)

set_connection_lem :
    (h : Ffi.Handle) (state : Ffi.ConnectionState)
    → h.poisoned ≡ false
    → let (code, h') = Ffi.set_connection h state in
      (code ≡ (if is_connected h then Ffi.err_already_connected else Ffi.code_ok))
      × (h'.poisoned ≡ false)
      × (h'.spawned ≡ h.spawned)
      × (is_connected h' ≡ true)
unfolding Ffi.set_connection
set_connection_lem h state healthy = ground arith

spawn_lem :
    (h : Ffi.Handle) (addr : List ℕ) (mode : Ffi.ConnectionMode)
    → h.poisoned ≡ false
    → let params : Ffi.PeerParams = record { mode = mode; multiaddr = some addr } in
      is_utf8 addr ≡ true
      → let (code, h') = Ffi.connect_to h params in
        (code ≡ (if is_connected h then Ffi.err_already_connected else Ffi.code_ok))
        × (h'.poisoned ≡ false)
        × (h'.spawned ≡ suc h.spawned)
        × (is_connected h' ≡ true)
unfolding Ffi.connect_to Ffi.spawn_listener Ffi.spawn_dialer
spawn_lem h addr Ffi.mode_listen healthy text =
    rw text
      (set_connection_lem (record h { spawned = suc h.spawned }) (Ffi.listener h.spawned) healthy)
spawn_lem h addr Ffi.mode_dial healthy text =
    rw text
      (set_connection_lem (record h { spawned = suc h.spawned }) (Ffi.dialer h.spawned) healthy)

-- A call that is not rejected makes the connection, if there is none, and its task in any case.
cryprq_connect-reaching :
    (h : Ffi.Handle) (params : Option Ffi.PeerParams)
    → h.poisoned ≡ false
    → rejected params ≡ none
    → (h' : Ffi.Handle) × (Ffi.cryprq_connect (some h) params
        ≡ (if is_connected h then Ffi.err_already_connected else Ffi.code_ok, some h'))
      × (h'.poisoned ≡ false)
      × (h'.spawned ≡ suc h.spawned)
      × (is_connected h' ≡ true)
unfolding Ffi.cryprq_connect
cryprq_connect-reaching h none healthy e = absurd (ground (arith, e))
cryprq_connect-reaching h (some params) healthy e = elim (Option-cases params.multiaddr) [
  | inl missing ↦ absurd (ground (arith, e, missing))
  | inr (addr, named) ↦ elim (Bool-cases (is_utf8 addr)) [
    | inr garbled ↦ absurd (ground (arith, e, named, garbled))
    | inl text ↦
        let full : Ffi.PeerParams = record { mode = params.mode; multiaddr = some addr } in
        let whole : params ≡ full =
          ap (λ (a : Option (List ℕ)). record { mode = params.mode; multiaddr = a }) named in
        let (code, healthy', spawned, connected) = spawn_lem h addr params.mode healthy text in
        rw whole (
          (Ffi.connect_to h full).1,
          ap (λ c. (c, some (Ffi.connect_to h full).1)) code,
          healthy',
          spawned,
          connected,
        )
  ]
]

promised-reaching :
    (connected : Bool) (params : Option Ffi.PeerParams) (calls : List (Option Ffi.PeerParams))
    → rejected params ≡ none
    → promised connected (params ∷ calls)
      ≡ (if connected then Ffi.err_already_connected else Ffi.code_ok) ∷ promised true calls
promised-reaching connected params calls e = ground (arith, e)

promised-rejected :
    (connected : Bool) (params : Option Ffi.PeerParams) (calls : List (Option Ffi.PeerParams))
    (code : Ffi.ErrorCode)
    → rejected params ≡ some code
    → promised connected (params ∷ calls) ≡ code ∷ promised connected calls
promised-rejected connected params calls code e = ground (arith, e)

-- A handle whose lock is not poisoned answers any sequence of connects as promised: the first
-- call with an address in UTF-8 connects, if there is no connection yet, later ones are told that
-- there is one, and the others get the code of what is missing; every call with such an address
-- spawns a task, also one that is refused.
pub connect_all-promised :
    (h : Ffi.Handle) (calls : List (Option Ffi.PeerParams))
    → h.poisoned ≡ false
    → (h' : Ffi.Handle) × (connect_all (some h) calls ≡ (promised (is_connected h) calls, some h'))
      × (h'.spawned ≡ h.spawned + reaching calls)
connect_all-promised h [] healthy = (h, refl, omega arith)
connect_all-promised h (params ∷ calls) healthy = elim (Option-cases (rejected params)) [
  | inr (code, e) ↦
      let (h', run, tasks) = connect_all-promised h calls healthy in
      (
        h',
        rw
            (
              cryprq_connect-rejected h params code e,
              run,
              promised-rejected (is_connected h) params calls code e,
            )
            refl,
        ground (arith, e, tasks),
      )
  | inl e ↦
      let (next, call, healthy', spawned, connected) = cryprq_connect-reaching h params healthy e in
      let (h', run, tasks) = connect_all-promised next calls healthy' in
      (
        h',
        rw (call, run, connected, promised-reaching (is_connected h) params calls e) refl,
        ground (arith, e, tasks, spawned),
      )
]
