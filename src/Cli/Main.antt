-- ===== src/Cli/Main.antt =====
-- `main` of cli/src/main.rs, from the parsed arguments on: which services it starts, in which order.
use cryprq.Base.{ℕ, ◌≡◌, arith, List, [], ◌∷◌, ◌++◌, Bool, Option, none, some}
use cryprq.Base.{if◌then◌else◌}
use cryprq.Base.Text.{parse_decimal}
use cryprq.Node.Tun.Configure.{TunConfig, cli_config}

pub data Command : Type 0 where
  send_file : List ℕ → List ℕ → Command
  receive_file : List ℕ → List ℕ → Command

pub record Args : Type 0 where
  pub command : Option Command
  pub peer : Option (List ℕ)
  pub listen : Option (List ℕ)
  pub vpn : Bool
  pub tun_name : List ℕ
  pub tun_address : List ℕ
  pub metrics : Option (List ℕ)

-- What `main` calls, in order.
pub data Service : Type 0 where
  handle_send_file handle_receive_file : List ℕ → List ℕ → Service
  start_metrics_server : List ℕ → Service
  start_key_rotation : ℕ → Service
  create_tun configure_ip : TunConfig → Service
  set_connection_callback : Service
  start_listener dial_peer : List ℕ → Service
  ctrl_c : Service

-- The seconds between rotations, of the text of `CRYPRQ_ROTATE_SECS`, if it is set.
unfoldable pub rotation_interval : Option (List ℕ) → ℕ
rotation_interval none = 300
rotation_interval (some text) = elim (parse_decimal 18446744073709551615 text) [
  | none ↦ 300
  | some secs ↦ secs
]

-- The listener, or else the dialer, with the callback of the VPN mode; `dials` is whether the dialer
-- returns without an error.
unfoldable pub connect : Bool → Args → List Service
connect dials args =
    let callback : List Service = if args.vpn then set_connection_callback ∷ [] else [] in
    elim args.listen [
      | some addr ↦ callback ++ (start_listener addr ∷ [])
      | none ↦ elim args.peer [
        | none ↦ []
        | some peer_addr ↦
            callback
            ++ (dial_peer peer_addr
                ∷ (if dials then (if args.vpn then ctrl_c ∷ [] else []) else []))
      ]
    ]

-- The TUN device of the VPN mode, which ends `main` if it cannot be created; an error of its
-- configuration is only logged.
unfoldable pub start_vpn : Bool → Bool → Args → List Service
start_vpn created dials args =
    let config = cli_config args.tun_name args.tun_address in
    if args.vpn
    then create_tun config ∷ (if created then configure_ip config ∷ connect dials args else [])
    else connect dials args

-- `main`: a subcommand is all that is run.
unfoldable pub main : Option (List ℕ) → Bool → Bool → Args → List Service
main rotate_secs created dials args =
    let metrics : List Service = elim args.metrics [
      | none ↦ []
      | some addr ↦ start_metrics_server addr ∷ []
    ] in
    let services =
      metrics
      ++ (start_key_rotation (rotation_interval rotate_secs) ∷ start_vpn created dials args) in
    elim args.command [
      | some (send_file peer file) ↦ handle_send_file peer file ∷ []
      | some (receive_file listen output_dir) ↦ handle_receive_file listen output_dir ∷ []
      | none ↦ services
    ]

-- The services that talk to a peer.
abbrev pub talks : List Service → List Service
talks [] = []
talks (start_listener addr ∷ rest) = start_listener addr ∷ talks rest
talks (dial_peer addr ∷ rest) = dial_peer addr ∷ talks rest
talks (handle_send_file peer file ∷ rest) = handle_send_file peer file ∷ talks rest
talks (handle_receive_file listen dir ∷ rest) = handle_receive_file listen dir ∷ talks rest
talks (_ ∷ rest) = talks rest

-- What is asked for: a subcommand, or else the listener, or else the dialer.
abbrev pub asked : Args → List Service
asked args = elim args.command [
  | some (send_file peer file) ↦ handle_send_file peer file ∷ []
  | some (receive_file listen output_dir) ↦ handle_receive_file listen output_dir ∷ []
  | none ↦ elim args.listen [
    | some addr ↦ start_listener addr ∷ []
    | none ↦ elim args.peer [ none ↦ [] | some addr ↦ dial_peer addr ∷ [] ]
  ]
]

-- At most one service that talks to a peer is started, the one that is asked for; in the VPN mode
-- it is started only if the TUN device was created, unless a subcommand is given.
main-talks :
    (rotate_secs : Option (List ℕ)) (created dials : Bool) (args : Args)
    → talks (main rotate_secs created dials args) ≡ (
        if args.vpn
        then elim args.command [
          | none ↦ if created then asked args else []
          | some command ↦ asked args
        ]
        else asked args)
unfolding main start_vpn connect
main-talks rotate_secs created dials args = ground arith
