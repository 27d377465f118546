-- ===== src/Core/Tests/Ffi.antt =====
-- The theorems on the C interface at concrete inputs.
use cryprq.Base.{◌+◌, ◌≡◌, ◌≢◌, ◌⊎◌, refl, List, [], ◌∷◌, true, false, Option, none, some}
use cryprq.Core.Ffi
use cryprq.Core.Ffi.Connect.{connect_all, promised, is_connected, reaching, connect_all-promised}
use cryprq.Core.Ffi.Outcomes.{Granted, cryprq_init_lem}

abbrev handle : Ffi.Handle
handle = record { allow_peers = []; connection = none; poisoned = false; spawned = 0; aborted = [] }

abbrev calls : List (Option Ffi.PeerParams)
calls =
    none
    ∷ some (record { mode = Ffi.mode_dial; multiaddr = some (0x2f ∷ []) })
    ∷ some (record { mode = Ffi.mode_listen; multiaddr = some (0xff ∷ []) })
    ∷ some (record { mode = Ffi.mode_listen; multiaddr = some (0x2f ∷ []) })
    ∷ []

connect_all-promised_example :
    (h' : Ffi.Handle) × (connect_all (some handle) calls
      ≡ (promised (is_connected handle) calls, some h'))
    × (h'.spawned ≡ handle.spawned + reaching calls)
connect_all-promised_example = connect_all-promised handle calls refl

abbrev config : Ffi.Config
config = record {
  log_level = some (0x61 ∷ []);
  allow_peers = some (record { data' = some (0x62 ∷ 0x63 ∷ []); len = 1 } ∷ []);
  allow_peers_len = 1;
}

cryprq_init_lem_example :
    let (code, (h, rust_log')) = Ffi.cryprq_init true none (some config) true in
    ((cfg : Ffi.Config) × ((h' : Ffi.Handle) × (some config ≡ some cfg)
        × (code ≡ some Ffi.code_ok)
        × (h ≡ some h')
        × Granted cfg h'.allow_peers
        × (h'.connection ≡ none)
        × (true ≡ true)))
    ⊎ ((e : Ffi.ErrorCode) × (code ≡ some e) × (e ≢ Ffi.code_ok) × (h ≡ none))
cryprq_init_lem_example = cryprq_init_lem true none (some config) true
