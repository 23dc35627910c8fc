-- ===== src/Flight/Install.antt =====
-- internal/remoteflight/flightcontrol.go: enos-flight-control is installed on a target, unless it is there
-- with the checksum of the embedded binary. The checksum, the reader of a text and the random name of
-- a temporary file are arguments.
pub mod Checksum
pub mod Embedded
pub mod UpToDate
pub mod Laws
pub mod Composed
use terraform_provider_enos.Prelude.{
  ℕ, Bool, true, false, Option, none, some, List, [], ◌∷◌, Bytes, codes,
}
use terraform_provider_enos.Go.{apply_opts, Err, errorf, wrap, text, end, Ran, returned, panicked}
use terraform_provider_enos.Retry.{
  Poll, active, done, Env, Retrier, with_max_retries, with_interval_func, with_only_retry_errors,
}
use terraform_provider_enos.Flight.Paths.{join_paths}
use terraform_provider_enos.Flight.Attempts.{Transport}
use terraform_provider_enos.Flight.File.{
  CopyFileRequest, new_copy_file_request, with_copy_file_content, with_copy_file_destination,
  with_copy_file_chmod, with_copy_file_retry_options, copy_file,
}
use terraform_provider_enos.Flight.OsRelease.{format_platform, format_arch}
use terraform_provider_enos.Flight.Target.{
  platform_question, architecture_question, unless_error, unless_nil,
}
use terraform_provider_enos.Flight.Target.Request.{
  TargetRequest, Told, new_target_request, asked_sharing,
}
use terraform_provider_enos.Flight.Target.HomeDir.{target_home_dir}
use terraform_provider_enos.Flight.Unzip.{default_flight_control_path}
use terraform_provider_enos.Flight.Install.Embedded.{Binaries, supported_target, read_target_file}
use terraform_provider_enos.Flight.Install.Checksum.{is_current}

pub record InstallRequest (W : Type 0) : Type 0 where
  pub path : Bytes
  pub use_home_dir : Bool
  pub target_request : TargetRequest W

abbrev pub InstallOpt : Type 0 → Type 0
InstallOpt W = InstallRequest W → InstallRequest W

module _ {W : Type 0} where
  -- NewInstallFlightControlRequest; `wide` is that of a new target request.
  abbrev pub new_install_request : (ℕ → ℕ) → List (InstallOpt W) → InstallRequest W
  new_install_request wide opts = apply_opts opts (record {
    path = default_flight_control_path;
    use_home_dir = false;
    target_request = new_target_request wide [];
  })

  abbrev pub with_install_path : Bytes → InstallOpt W
  with_install_path path ir = record ir { path = path }

  abbrev pub with_use_home_dir : InstallOpt W
  with_use_home_dir ir = record ir { use_home_dir = true }

  abbrev pub with_target_request : TargetRequest W → InstallOpt W
  with_target_request req ir = record ir { target_request = req }

-- What an installation runs on: fuel, the context and the clock, the transport, the embedded binaries,
-- the checksum, a reader of a text and one of nothing, the random name of a temporary file, and what
-- an interval makes of a number that is too large.
pub record Host (W C : Type 0) : Type 0 where
  pub fuel : ℕ
  pub env : Env W
  pub tr : Transport W C
  pub binaries : Binaries
  pub sha256 : Bytes → Bytes
  pub nothing : C
  pub new_reader : Bytes → C
  pub id : Bytes
  pub wide : ℕ → ℕ

module _ {W C : Type 0} (host : Host W C) where
  -- The options that come from the retrier of the request.
  abbrev pub copy_request : Bytes → Bytes → Retrier W Bytes → CopyFileRequest W C
  copy_request path content r = new_copy_file_request host.nothing (
      with_copy_file_content (host.new_reader content)
      ∷ with_copy_file_destination path
      ∷ with_copy_file_chmod (codes "+x")
      ∷ with_copy_file_retry_options (
          with_max_retries r.max_retries
          ∷ with_interval_func r.retry_interval
          ∷ with_only_retry_errors r.only_retry_error
          ∷ [])
      ∷ [])

  abbrev pub after_copy : Bytes → Option (Ran (Option Err × W)) → Told W
  after_copy res_path none = none
  after_copy res_path (some panicked) = some panicked
  after_copy res_path (some (returned (none, w))) = some (returned (res_path, none, w))
  after_copy res_path (some (returned (some e, w))) =
      some (returned (res_path, some (wrap "copying binary to target host: %w" end e), w))

  abbrev pub unless_current : Bytes → Bytes → Bytes → Retrier W Bytes → Bool × W → Told W
  unless_current res_path path content r (true, w) = some (returned (res_path, none, w))
  unless_current res_path path content r (false, w) =
      after_copy res_path
        (copy_file host.fuel host.env host.tr host.id (some (copy_request path content r)) w)

  -- From the test of the path on; `res_path` is the path of the response.
  unfoldable pub install_at : Bytes → Bytes → Bytes → Retrier W Bytes → W → Told W
  unfolding is_current copy_file
  install_at res_path path content r w =
      unless_current res_path path content r (is_current host.tr.run path (host.sha256 content) w)

  abbrev pub in_home_dir : Bytes → Retrier W Bytes → Told W → Told W
  in_home_dir content r none = none
  in_home_dir content r (some panicked) = some panicked
  in_home_dir content r (some (returned (home_dir, some e, w))) = some (
      returned
        ([], some (wrap "getting home directory to install enos-flight-control: %w" end e), w))
  in_home_dir content r (some (returned (home_dir, none, w))) =
      let path = join_paths home_dir (codes "enos-flight-control") in
      install_at path path content r w

  -- The response has a path only where the binary goes to the home directory.
  abbrev pub choose_path : InstallRequest W → Bool → Bytes → Retrier W Bytes → W → Told W
  choose_path ir true content r w =
      in_home_dir content r
        (target_home_dir host.fuel host.env host.tr.run (new_target_request host.wide []) w)
  choose_path ir false content r w = install_at [] ir.path content r w

  abbrev pub with_binary : InstallRequest W → Bytes × Option Err → Retrier W Bytes → W → Told W
  with_binary ir (content, some e) r w =
      some (returned ([], some (wrap "reading embedded enos-flight-control binary: %w" end e), w))
  with_binary ir (content, none) r w = choose_path ir ir.use_home_dir content r w

  abbrev pub if_supported :
      InstallRequest W → Bytes → Bytes → Bool × Option Err → Retrier W Bytes → W → Told W
  if_supported ir platform arch (supported, some e) r w = some (
      returned (
        [],
        some (wrap "determining if target host is a supported platform and architecture: %w" end e),
        w,
      ))
  if_supported ir platform arch (false, none) r w = some (
      returned (
        [],
        some (
            errorf "install error: %s_%s is not a supported target"
              (text platform (text arch end))),
        w,
      ))
  if_supported ir platform arch (true, none) r w =
      with_binary ir (read_target_file host.binaries platform arch) r w

  abbrev pub with_arch :
      InstallRequest W → Bytes → Option (Ran (Bytes × Option Err × TargetRequest W × W)) → Told W
  with_arch ir platform none = none
  with_arch ir platform (some panicked) = some panicked
  with_arch ir platform (some (returned (arch, some e, req, w))) =
      some (returned ([], some (wrap "determining target host architecture: %w" end e), w))
  with_arch ir platform (some (returned (arch, none, req, w))) =
      if_supported ir platform arch (supported_target host.binaries platform arch) req.retrier w

  abbrev pub with_platform :
      InstallRequest W → Option (Ran (Bytes × Option Err × TargetRequest W × W)) → Told W
  with_platform ir none = none
  with_platform ir (some panicked) = some panicked
  with_platform ir (some (returned (platform, some e, req, w))) =
      some (returned ([], some (wrap "determining target host platform: %w" end e), w))
  with_platform ir (some (returned (platform, none, req, w))) = with_arch ir platform (
      asked_sharing host.fuel host.env req (architecture_question host.tr.run)
        (unless_nil format_arch) w)

  abbrev pub unless_done : InstallRequest W → Poll → W → Told W
  unless_done ir (done e) w = some (returned ([], e, w))
  unless_done ir active w = with_platform ir (
      asked_sharing host.fuel host.env ir.target_request (platform_question host.tr.run)
        (unless_error format_platform) w)

  -- InstallFlightControl: the path of its response, its error, and the target after it.
  unfoldable pub install_flight_control : InstallRequest W → W → Told W
  unfolding install_at target_home_dir asked_sharing supported_target
  install_flight_control ir w = unless_done ir (host.env.poll w) w
