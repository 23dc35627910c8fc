-- ===== src/Tests/TargetRuns.antt =====
-- Runs of the questions to a target.
use terraform_provider_enos.Prelude.{
  ℕ, suc, ◌≡◌, refl, inl, ◌↔◌, Option, none, some, List, [], ◌∷◌, Bytes, codes, bytes_eq,
  if◌then◌else◌,
}
use terraform_provider_enos.Go.{Err, returned}
use terraform_provider_enos.Transport.{Output, Run}
use terraform_provider_enos.Retry.{Env, active, retry_turn}
use terraform_provider_enos.Retry.Outcome.{SaysWhy}
use terraform_provider_enos.Flight.User.Find.{has_prefix}
use terraform_provider_enos.Flight.Target.{
  ssh, target_architecture, target_hostname, target_process_manager, target_platform,
  target_platform_version,
}
use terraform_provider_enos.Flight.Target.Distro.{target_distro, target_distro_version}
use terraform_provider_enos.Flight.Target.Request.{HostInfo, TargetRequest, new_target_request}
use terraform_provider_enos.Flight.Target.HomeDir.{target_home_dir}
use terraform_provider_enos.Flight.Target.Gather.{target_host_info}
use terraform_provider_enos.Flight.Target.Laws.{target_home_dir_ignores_whoami}
use terraform_provider_enos.Flight.Target.Answers.{SevenTold, target_host_info_iff}

-- The target is the log of its commands, the last one first.
abbrev Log : Type 0
Log = List Bytes

abbrev env : {W : Type 0} → Env W
env = record { poll = λ w. active; sleep = λ d w. w }

abbrev says_why : {W : Type 0} → SaysWhy (env {W = W})
says_why w = inl refl

abbrev outcome : Bytes → Option Err → Output
outcome stdout err = record { stdout = stdout; stderr = []; err = err }

-- A target on which whoami prints a name, uname a machine, and nothing else prints anything.
abbrev quiet : Run Log
quiet command log = (
  outcome
      (if has_prefix command.cmd (codes "whoami")
        then codes "root"
        else if has_prefix command.cmd (codes "uname")
        then codes "aarch64"
        else [])
      none,
  command.cmd ∷ log,
)

abbrev ask : {W : Type 0} → TargetRequest W
ask = new_target_request (λ n. 0) []

target_home_dir_ignores_whoami_example :
    target_home_dir 1 env quiet ask []
    ≡ some (returned ([], none, codes "whoami" ∷ codes "echo ~" ∷ codes "echo $HOME" ∷ []))
target_home_dir_ignores_whoami_example =
    target_home_dir_ignores_whoami 0 env quiet ask (codes "root") refl (refl, refl, refl)
      (refl, refl, refl) (refl, refl, refl)

-- A target that answers every question, over the number of its commands.
abbrev answers : Run ℕ
answers command n = (
  outcome
      (if has_prefix command.cmd (codes "cat /etc/os-release")
        then codes "ID=\"rhel\"\nVERSION_ID=\"8\"\n"
        else if has_prefix command.cmd (codes "uname -m")
        then codes "aarch64"
        else if has_prefix command.cmd (codes "uname -s")
        then codes "Linux"
        else codes "other")
      none,
  suc n,
)

abbrev answered_info : HostInfo
answered_info = record {
  arch = some (codes "arm64");
  distro = some (codes "rhel");
  distro_version = some (codes "8");
  hostname = some (codes "other");
  pid1 = some (codes "other");
  platform = some (codes "linux");
  platform_version = some (codes "other");
}

target_host_info_iff_example :
    (target_host_info 1 env ssh answers ask 0 ≡ some (returned (answered_info, none, 7)))
    ↔ SevenTold 1 env ssh answers ask 0 answered_info 7
target_host_info_iff_example = target_host_info_iff 1 env ssh answers ask 0 answered_info 7

-- The left side of it holds.
target_host_info_run :
    target_host_info 1 env ssh answers ask 0 ≡ some (returned (answered_info, none, 7))
unfolding target_host_info bytes_eq target_architecture retry_turn target_distro
    target_distro_version target_hostname target_process_manager target_platform
    target_platform_version
target_host_info_run = refl
