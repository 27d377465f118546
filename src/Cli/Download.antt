-- ===== src/Cli/Download.antt =====
-- `handle_receive_file` of cli/src/main.rs: the receiving end of a tunnel for files.
pub mod Arrivals
pub mod Loop
pub mod Transfers
mod Tests
use cryprq.Base.{ℕ, List, [], ◌∷◌, replicate, Bool, Option, some}
use cryprq.Base.{Outcome, ok, err, panicked, ◌>>=◌, ◌>>◌, map_err, reject_if, not}
use cryprq.Node.Error.{TunnelError}
use cryprq.Node.Externals.{Externals}
use cryprq.Node.Tunnel.{Tunnel}
use cryprq.Node.Tunnel.Setup.{create_tunnel, rotate}
use cryprq.Node.Tunnel.Incoming.{recv_and_handle_record}
use cryprq.Cli.Send.{AddressError, parse_udp_addr}

pub data DownloadError : Type 0 where
  directory_failed : DownloadError
  address_error : AddressError → DownloadError
  create_failed : TunnelError → DownloadError

-- What happens while the receiving loop runs: a datagram with its sender, or an error of the socket,
-- at an instant; and a round of the rotation task that `create_tunnel` has spawned, which comes
-- first 300 seconds after the creation, and then every 300 seconds.
pub data Happening (x : Externals) : Type 0 where
  arrives : x.timing.Instant → Option (List ℕ × x.Address) → Happening x
  rotates : Happening x

module _ (x : Externals) where
  -- The spawned loop, up to the last arrival, with the results of its calls: an error is logged, and
  -- the loop goes on. The rotation has the master secret of the tunnel.
  unfoldable pub receive_loop :
      List ℕ → Tunnel x → List (Happening x) → List (Outcome TunnelError (Unit {0})) × Tunnel x
  receive_loop master_secret t [] = ([], t)
  receive_loop master_secret t (rotates ∷ happenings) =
      receive_loop master_secret (rotate x master_secret t).1 happenings
  receive_loop master_secret t (arrives now datagram ∷ happenings) =
      let (result, t') = recv_and_handle_record x t now datagram in
      let (results, t'') = receive_loop master_secret t' happenings in
      elim result [
        | panicked ↦ (panicked ∷ [], t')
        | ok done ↦ (ok done ∷ results, t'')
        | err e ↦ (err e ∷ results, t'')
      ]

  -- The tunnel with its test keys, which writes to the output directory, and its master secret.
  unfoldable pub listen :
      Bool → Bool → x.timing.Instant → List ℕ → List ℕ → Outcome DownloadError (Tunnel x × List ℕ)
  listen can_create_dir bound now listen_addr output_dir = do
    reject_if (not can_create_dir) directory_failed
    udp_addr ← map_err address_error (parse_udp_addr listen_addr)
    map_err create_failed (
        create_tunnel x bound (replicate 32 2) (replicate 32 3) (replicate 64 4) now
          (some output_dir))

  -- `handle_receive_file`, up to Ctrl+C: what became of each arrival, and the tunnel.
  unfoldable pub handle_receive_file :
      Bool
      → Bool
      → x.timing.Instant
      → List ℕ
      → List ℕ
      → List (Happening x)
      → Outcome DownloadError (List (Outcome TunnelError (Unit {0})) × Tunnel x)
  handle_receive_file can_create_dir bound now listen_addr output_dir happenings = do
    (t, master_secret) ← listen can_create_dir bound now listen_addr output_dir
    ok (receive_loop master_secret t happenings)
