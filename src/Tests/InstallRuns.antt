-- ===== src/Tests/InstallRuns.antt =====
-- Installations of enos-flight-control on a target that counts its runs.
use terraform_provider_enos.Prelude.{
  arith, lookup, insert, ◌≡◌, ◌≢◌, ◌↔◌, Some, ap, refl, inl, ℕ, suc, true, false, Option, none,
  some, [], ◌∷◌, Bytes, codes, bytes_eq, if◌then◌else◌,
}
use terraform_provider_enos.Go.{Err, new, returned, panicked}
use terraform_provider_enos.Transport.{Run}
use terraform_provider_enos.Stages.{Read}
use terraform_provider_enos.Retry.{active, retry_turn}
use terraform_provider_enos.Flight.Target.{one_command}
use terraform_provider_enos.Flight.Target.Request.{Told}
use terraform_provider_enos.Flight.OsRelease.{to_lower, format_arch}
use terraform_provider_enos.Flight.Paths.{join_paths}
use terraform_provider_enos.Flight.Install.Embedded.{Binaries, supported_target, all_words}
use terraform_provider_enos.Flight.Install.{Host, install_flight_control}
use terraform_provider_enos.Flight.Install.Laws.{Installed, install_flight_control-Installed}
use terraform_provider_enos.Flight.Install.Composed.{
  state_install_request, InstallsBy, get_state_needs_home, get_consul_state_needs_home,
}
use terraform_provider_enos.Consul.Requests.{run_readers}
use terraform_provider_enos.Consul.GetState.{ConsulStateRequest, get_consul_state}
use terraform_provider_enos.Tests.Samples.{
  output, decoders, node, cli, other_readers, request, state_of_node,
}
use terraform_provider_enos.Vault.NodeReaders.{node_readers}
use terraform_provider_enos.Vault.GetState.{get_state}
use terraform_provider_enos.Flight.Install.Embedded.Laws.{
  IsBinary, supported_target_iff, target_file-supported,
}
use terraform_provider_enos.Tests.RequestRuns.{consul_decoders, printer, read_state}
use terraform_provider_enos.Tests.ConsulRuns.{consul_readers, consul_request}

abbrev target : Run ℕ
target command n = (
  if bytes_eq command.cmd (codes "uname -s")
      then output (codes "Linux") none
      else if bytes_eq command.cmd (codes "uname -m")
      then output (codes "x86_64") none
      else if bytes_eq command.cmd (codes "echo $HOME")
      then output (codes "/home/me") none
      else if bytes_eq command.cmd (codes "test -f '/home/me/enos-flight-control'")
      then output [] (some (new "exit 1"))
      else output [] none,
  suc n,
)

abbrev embedded : Binaries
embedded = record {
  read_dir = ((codes "enos-flight-control_linux_amd64", false) ∷ [], none);
  read_file = λ name. (name, none);
}

abbrev host : Host ℕ Bytes
host = record {
  fuel = 4;
  env = record { poll = λ n. active; sleep = λ d n. n };
  tr = record { run = target; copy = λ content path n. (none, suc n) };
  binaries = embedded;
  sha256 = λ s. s;
  nothing = [];
  new_reader = λ s. s;
  id = codes "1";
  wide = λ n. n;
}

install_flight_control-Installed_example :
    Installed host (state_install_request host none) 0 (codes "/home/me/enos-flight-control") 8
unfolding install_flight_control retry_turn one_command lookup insert to_lower format_arch
    join_paths
install_flight_control-Installed_example =
    install_flight_control-Installed host (state_install_request host none) 0 (λ w. inl refl) refl

supported_target_iff_example :
    (supported_target embedded (codes "linux") (codes "amd64") ≡ (true, none))
    ↔ Some (IsBinary (codes "linux") (codes "amd64")) embedded.read_dir.0
supported_target_iff_example =
    supported_target_iff (codes "linux") (codes "amd64") embedded embedded.read_dir.0 refl

target_file-supported_example :
    supported_target embedded (codes "linux") (codes "amd64") ≡ (true, none)
unfolding all_words
target_file-supported_example =
    target_file-supported (codes "linux") (codes "amd64") embedded embedded.read_dir.0 refl refl
      refl (ground arith) (inl (refl, refl))

-- A reader that installs, and has an error where the installation does not end.
abbrev read_told : ℕ → Told ℕ → Bytes × Option Err × ℕ
read_told w none = ([], some (new "no end"), w)
read_told w (some panicked) = ([], some (new "panic"), w)
read_told w (some (returned r)) = r

abbrev installer : Option Bytes → Read ℕ Bytes
installer o w = read_told w (install_flight_control host (state_install_request host o) w)

read_told-returned :
    (w : ℕ) (o : Told ℕ) (p : Bytes) (w' : ℕ)
    → read_told w o ≡ (p, none, w')
    → o ≡ some (returned (p, none, w'))
read_told-returned w none p w' h = absurd (cc h)
read_told-returned w (some panicked) p w' h = absurd (cc h)
read_told-returned w (some (returned r)) p w' h =
    ap (λ (x : Bytes × Option Err × ℕ). some (returned x)) h

installer-InstallsBy : InstallsBy host installer
installer-InstallsBy o w p w' h = read_told-returned w _ p w' h

abbrev at_path : ConsulStateRequest
at_path = record consul_request { flight_control_use_home_dir = false }

get_consul_state_needs_home_example :
    get_consul_state
      (run_readers consul_decoders printer
        (record consul_readers { install_flight_control = installer }))
      at_path
      0
    ≢ returned (some read_state, none, 9)
get_consul_state_needs_home_example =
    get_consul_state_needs_home host consul_decoders printer
      (record consul_readers { install_flight_control = installer }) at_path (λ w. inl refl)
      installer-InstallsBy refl 0 read_state 9

get_state_needs_home_example :
    get_state
      (node_readers
        (decoders false)
        (node false)
        cli
        (record other_readers { install_flight_control = installer }))
      request
      0
    ≢ returned (some (state_of_node false), none, 9)
get_state_needs_home_example =
    get_state_needs_home host (decoders false) (node false) cli
      (record other_readers { install_flight_control = installer }) request (λ w. inl refl)
      installer-InstallsBy refl 0 (state_of_node false) 9
