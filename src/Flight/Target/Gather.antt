-- ===== src/Flight/Target/Gather.antt =====
-- TargetHostInfo of internal/remoteflight/target.go: all that the other functions tell, and their errors.
use terraform_provider_enos.Prelude.{ℕ, Option, none, some, List, [], ◌∷◌, Bytes}
use terraform_provider_enos.Go.{Err, join, Ran, returned, panicked}
use terraform_provider_enos.Transport.{Run}
use terraform_provider_enos.Retry.{Env}
use terraform_provider_enos.Flight.Target.{
  TransportType, target_architecture, target_hostname, target_platform, target_platform_version,
  target_process_manager,
}
use terraform_provider_enos.Flight.Target.Request.{TargetRequest, Told, HostInfo, clone}
use terraform_provider_enos.Flight.Target.Distro.{target_distro, target_distro_version}

abbrev pub no_info : HostInfo
no_info = record {
  arch = none;
  distro = none;
  distro_version = none;
  hostname = none;
  pid1 = none;
  platform = none;
  platform_version = none;
}

-- The information so far, the errors so far, and the target.
abbrev pub Gathered : Type 0 → Type 0
Gathered W = Option (Ran (HostInfo × Option Err × W))

-- Questions with the fields that their answers set, in the order in which they are asked.
abbrev pub Questions : Type 0 → Type 0
Questions W = List ((W → Told W) × (Bytes → HostInfo → HostInfo))

module _ {W : Type 0} where
  abbrev pub add : (Bytes → HostInfo → HostInfo) → HostInfo → Option Err → Told W → Gathered W
  add put info errs none = none
  add put info errs (some panicked) = some panicked
  add put info errs (some (returned (t, e, w))) = some (returned (put t info, join errs e, w))

  -- One more text: its error is joined, and the field is set whether there is one or not.
  abbrev pub gather : Gathered W → (W → Told W) → (Bytes → HostInfo → HostInfo) → Gathered W
  gather none ask put = none
  gather (some panicked) ask put = some panicked
  gather (some (returned (info, errs, w))) ask put = add put info errs (ask w)

  abbrev pub gather_all : Questions W → Gathered W → Gathered W
  gather_all [] g = g
  gather_all ((ask, put) ∷ questions) g = gather_all questions (gather g ask put)

  abbrev pub questions : ℕ → Env W → TransportType → Run W → TargetRequest W → Questions W
  questions fuel env type tr req =
      (target_architecture fuel env tr (clone req), λ t info. record info { arch = some t })
      ∷ (target_distro fuel env tr (clone req), λ t info. record info { distro = some t })
      ∷ (
        target_distro_version fuel env tr (clone req),
        λ t info. record info { distro_version = some t },
      )
      ∷ (target_hostname fuel env tr (clone req), λ t info. record info { hostname = some t })
      ∷ (
        target_process_manager fuel env type tr (clone req),
        λ t info. record info { pid1 = some t },
      )
      ∷ (target_platform fuel env tr (clone req), λ t info. record info { platform = some t })
      ∷ (
        target_platform_version fuel env tr (clone req),
        λ t info. record info { platform_version = some t },
      )
      ∷ []

  unfoldable pub target_host_info :
      ℕ → Env W → TransportType → Run W → TargetRequest W → W → Gathered W
  target_host_info fuel env type tr req w =
      gather_all (questions fuel env type tr req) (some (returned (no_info, none, w)))
