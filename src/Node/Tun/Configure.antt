-- ===== src/Node/Tun/Configure.antt =====
-- node/src/tun.rs: creating the TUN device, and giving it its address by commands.
use cryprq.Base.{ℕ, ◌≤◌, ◌≡◌, arith, List, [], ◌∷◌, ◌++◌, Bool, true, false, Option, none, some}
use cryprq.Base.{Outcome, ok, err, panicked, ◌>>=◌, ◌>>◌, reject_if, not, if◌then◌else◌}
use cryprq.Base.Bytes.{bytes_of}
use cryprq.Base.Text.{decimal}
use cryprq.Node.Tun
use cryprq.Node.Tun.Netmask.{prefix_mask, netmask_to_cidr-prefix_mask}

pub record TunConfig : Type 0 where
  pub name : List ℕ
  pub address : List ℕ
  pub netmask : List ℕ
  pub mtu : ℕ

pub data TunError : Type 0 where
  invalid_address bad_netmask create_failed command_not_run command_failed : TunError

-- The configuration that `main` uses, for a name and an address.
abbrev pub cli_config : List ℕ → List ℕ → TunConfig
cli_config name address = record {
  name = name;
  address = address;
  netmask = bytes_of "255.255.255.0";
  mtu = 1420;
}

-- `TunInterface`: its device is there once it was created, with these settings.
pub record TunInterface : Type 0 where
  pub config : TunConfig
  pub interface_name : List ℕ
  pub device : Option TunConfig

-- `create_device`, the same on both systems: `is_ipv4` is the parsing of the standard library, and the
-- crate tun makes the device or not.
unfoldable pub create_device : (List ℕ → Bool) → Bool → TunConfig → Outcome TunError TunConfig
create_device is_ipv4 made config = do
  reject_if (not (is_ipv4 config.address)) invalid_address
  reject_if (not (is_ipv4 config.netmask)) bad_netmask
  reject_if (not made) create_failed
  ok config

unfoldable pub create : (List ℕ → Bool) → Bool → TunConfig → Outcome TunError TunInterface
create is_ipv4 made config = do
  device ← create_device is_ipv4 made config
  ok (record { config = config; interface_name = config.name; device = some device })

abbrev pub Command : Type 0
Command = List (List ℕ)

abbrev pub ip_addr_add : TunInterface → ℕ → Command
ip_addr_add t cidr =
    bytes_of "sudo"
    ∷ bytes_of "ip"
    ∷ bytes_of "addr"
    ∷ bytes_of "add"
    ∷ (t.config.address ++ (0x2f ∷ decimal cidr))
    ∷ bytes_of "dev"
    ∷ t.interface_name
    ∷ []

abbrev pub ip_link_up : TunInterface → Command
ip_link_up t =
    bytes_of "sudo"
    ∷ bytes_of "ip"
    ∷ bytes_of "link"
    ∷ bytes_of "set"
    ∷ t.interface_name
    ∷ bytes_of "up"
    ∷ []

abbrev pub ifconfig : TunInterface → Command
ifconfig t =
    bytes_of "sudo"
    ∷ bytes_of "ifconfig"
    ∷ t.interface_name
    ∷ t.config.address
    ∷ bytes_of "netmask"
    ∷ t.config.netmask
    ∷ bytes_of "mtu"
    ∷ decimal t.config.mtu
    ∷ bytes_of "up"
    ∷ []

-- `output()` and the test of the status: `none` is a command that cannot be started.
abbrev pub run : (Command → Option Bool) → Command → Outcome TunError (Unit {0})
run system command = elim (system command) [
  | none ↦ err command_not_run
  | some success ↦ if success then ok tt else err command_failed
]

-- `configure_ip_macos`, with the commands that it runs.
unfoldable pub configure_ip_macos :
    (Command → Option Bool) → TunInterface → Outcome TunError (Unit {0}) × List Command
configure_ip_macos system t = (run system (ifconfig t), ifconfig t ∷ [])

-- `configure_ip_linux`, with the commands that it runs.
unfoldable pub configure_ip_linux :
    (Command → Option Bool) → TunInterface → Outcome TunError (Unit {0}) × List Command
configure_ip_linux system t = elim (Tun.netmask_to_cidr t.config.netmask) [
  | err e ↦ (err bad_netmask, [])
  | panicked ↦ (panicked, [])
  | ok cidr ↦ elim (run system (ip_addr_add t cidr)) [
    | err e ↦ (err e, ip_addr_add t cidr ∷ [])
    | panicked ↦ (panicked, ip_addr_add t cidr ∷ [])
    | ok done ↦ (run system (ip_link_up t), ip_addr_add t cidr ∷ ip_link_up t ∷ [])
  ]
]

-- An interface whose netmask is that of a prefix is given its address with the length of this
-- prefix, and is brought up only once it has its address; the call succeeds just if both commands
-- do.
configure_ip_linux-prefix_mask :
    (system : Command → Option Bool) (t : TunInterface) (k : ℕ)
    → k ≤ 32
    → t.config.netmask ≡ prefix_mask k
    → let added = system (ip_addr_add t k) in
      let up = system (ip_link_up t) in
      let (result, commands) = configure_ip_linux system t in
      (commands ≡ elim added [
        | some true ↦ ip_addr_add t k ∷ ip_link_up t ∷ []
        | some false ↦ ip_addr_add t k ∷ []
        | none ↦ ip_addr_add t k ∷ []
      ])
      × (result ≡ ok tt → (added ≡ some true) × (up ≡ some true))
      × (added ≡ some true → up ≡ some true → result ≡ ok tt)
unfolding configure_ip_linux
configure_ip_linux-prefix_mask system t k le mask =
    let cidr : Tun.netmask_to_cidr t.config.netmask ≡ ok k =
      rw mask (netmask_to_cidr-prefix_mask k le) in
    (ground (arith, cidr), λ e. ground (arith, cidr), λ a u. ground (arith, cidr))
