-- ===== src/Consul/Cli.antt =====
-- internal/remoteflight/consul/version.go and validate.go: what is asked of the consul binary. The parser
-- of versions, semver.Make, is an argument.
pub mod Laws
use terraform_provider_enos.Prelude.{
  ◌==◌, Option, none, some, List, [], ◌∷◌, ◌++◌, Bytes, codes, if◌then◌else◌,
}
use terraform_provider_enos.Go.{apply_opts, Err, errorf, text, end, new}
use terraform_provider_enos.Transport.{Output, Run, new_command}
use terraform_provider_enos.Flight.Errors.{wrap_error_with}
use terraform_provider_enos.Flight.Paths.{split}

pub record ValidateFileRequest : Type 0 where
  pub bin_path : Bytes
  pub file_path : Bytes
  pub username : Bytes

abbrev pub ValidateFileRequestOpt : Type 0
ValidateFileRequestOpt = ValidateFileRequest → ValidateFileRequest

abbrev pub new_validate_file_request : List ValidateFileRequestOpt → ValidateFileRequest
new_validate_file_request opts =
    apply_opts opts (record { bin_path = []; file_path = []; username = codes "consul" })

abbrev pub with_validate_bin_path : Bytes → ValidateFileRequestOpt
with_validate_bin_path path u = record u { bin_path = path }

abbrev pub with_validate_file_path : Bytes → ValidateFileRequestOpt
with_validate_file_path path u = record u { file_path = path }

abbrev pub with_validate_username : Bytes → ValidateFileRequestOpt
with_validate_username name u = record u { username = name }

-- strings.TrimLeft(s, "v")
unfoldable pub trim_left_v : Bytes → Bytes
trim_left_v [] = []
trim_left_v (c ∷ s) = let rest = trim_left_v s in if c == b'v' then rest else c ∷ s

abbrev unparsed : Bytes → Err
unparsed version = errorf "failed to parse version from consul version %s" (text version end)

abbrev pub made : {V : Type 0} → Bytes → V × Option Err → V × Option Err
made part (ver, none) = (ver, none)
made part (ver, some e) = (ver, some (unparsed part))

module _ {V : Type 0} (make : Bytes → V × Option Err) (zero_version : V) where
  abbrev pub second_part : Bytes → List Bytes → V × Option Err
  second_part version [] = (zero_version, some (unparsed version))
  second_part version (a ∷ []) = (zero_version, some (unparsed version))
  second_part version (a ∷ (part ∷ parts)) = made part (make (trim_left_v part))

  -- parseConsulVersion
  unfoldable pub parse_consul_version : Bytes → V × Option Err
  unfolding split trim_left_v
  parse_consul_version version = second_part version (split b' ' version)

module _ {W : Type 0} (tr : Run W) where
  abbrev pub only_stderr : Output × W → Option Err → Option Err × W
  only_stderr (out, w) none = (none, w)
  only_stderr (out, w) (some e) = (some (wrap_error_with e (out.stderr ∷ [])), w)

  abbrev pub run_for_error : Bytes → W → Option Err × W
  run_for_error cmd w = let ran = tr (new_command cmd) w in only_stderr ran ran.0.err

  -- ValidateConsulConfig
  unfoldable pub validate_consul_config : ValidateFileRequest → W → Option Err × W
  validate_consul_config req w =
      run_for_error
        (codes "sudo -u "
          ++ (req.username
              ++ (codes " " ++ (req.bin_path ++ (codes " validate " ++ req.file_path)))))
        w

  abbrev pub license_unless : Bytes → ValidateFileRequest → W → Option Err × W
  license_unless [] req w = (some (new "you must provide a license file path "), w)
  license_unless (c ∷ path) req w =
      run_for_error (req.bin_path ++ (codes " license inspect " ++ req.file_path)) w

  -- ValidateConsulLicense
  unfoldable pub validate_consul_license : ValidateFileRequest → W → Option Err × W
  validate_consul_license req w = license_unless req.file_path req w

  module _ {V : Type 0} (make : Bytes → V × Option Err) (zero_version : V) where
    abbrev pub version_of : Output × W → Option Err → V × Option Err × W
    version_of (out, w) none =
        let (ver, e) = parse_consul_version make zero_version out.stdout in (ver, e, w)
    version_of (out, w) (some e) =
        (zero_version, some (wrap_error_with e (out.stdout ∷ out.stderr ∷ [])), w)

    -- Version, for a path of the binary.
    unfoldable pub version : Bytes → W → V × Option Err × W
    unfolding parse_consul_version
    version bin_path w =
        let ran = tr (new_command (codes "sudo " ++ (bin_path ++ codes " version"))) w in
        version_of ran ran.0.err
