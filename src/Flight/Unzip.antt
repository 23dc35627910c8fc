-- ===== src/Flight/Unzip.antt =====
-- internal/remoteflight/unzip.go.
use terraform_provider_enos.Prelude.{
  Bool, true, false, Option, none, some, List, [], ◌∷◌, ◌++◌, Bytes, codes,
}
use terraform_provider_enos.Go.{apply_opts, Err, bool_text}
use terraform_provider_enos.Transport.{Run, Output, new_command}
use terraform_provider_enos.Retry.{Poll, active, done}
use terraform_provider_enos.Flight.Errors.{wrap_error_with}
use terraform_provider_enos.Flight.Attempts.{with_sudo}

abbrev pub default_flight_control_path : Bytes
default_flight_control_path = codes "/opt/qti/bin/enos-flight-control"

pub record UnzipRequest : Type 0 where
  pub flight_control_path : Bytes
  pub source_path : Bytes
  pub destination_directory : Bytes
  pub file_mode : Bytes
  pub destination_directory_mode : Bytes
  pub sudo : Bool
  pub create_destination_directory : Bool
  pub replace : Bool

abbrev pub UnzipOpt : Type 0
UnzipOpt = UnzipRequest → UnzipRequest

abbrev pub new_unzip_request : List UnzipOpt → UnzipRequest
new_unzip_request opts = apply_opts opts (record {
  flight_control_path = default_flight_control_path;
  source_path = [];
  destination_directory = [];
  file_mode = codes "0755";
  destination_directory_mode = codes "0755";
  sudo = false;
  create_destination_directory = true;
  replace = false;
})

abbrev pub with_flight_control_path : Bytes → UnzipOpt
with_flight_control_path path ur = record ur { flight_control_path = path }

abbrev pub with_source_path : Bytes → UnzipOpt
with_source_path path ur = record ur { source_path = path }

abbrev pub with_destination_dir : Bytes → UnzipOpt
with_destination_dir dir ur = record ur { destination_directory = dir }

abbrev pub with_file_mode : Bytes → UnzipOpt
with_file_mode mode ur = record ur { file_mode = mode }

abbrev pub with_destination_dir_mode : Bytes → UnzipOpt
with_destination_dir_mode mode ur = record ur { destination_directory_mode = mode }

abbrev pub with_create_destination_dir : Bool → UnzipOpt
with_create_destination_dir create ur = record ur { create_destination_directory = create }

abbrev pub with_use_sudo : Bool → UnzipOpt
with_use_sudo use_sudo ur = record ur { sudo = use_sudo }

abbrev pub with_replace : Bool → UnzipOpt
with_replace replace ur = record ur { replace = replace }

abbrev pub sudo_if : Bool → Bytes → Bytes
sudo_if true cmd = with_sudo cmd
sudo_if false cmd = cmd

unfoldable pub unzip_command : UnzipRequest → Bytes
unzip_command ur = sudo_if ur.sudo (
    ur.flight_control_path
    ++ (codes " unzip --source '"
        ++ (ur.source_path
            ++ (codes "' --destination '"
                ++ (ur.destination_directory
                    ++ (codes "' --mode '"
                        ++ (ur.file_mode
                            ++ (codes "' --destination-mode '"
                                ++ (ur.destination_directory_mode
                                    ++ (codes "' --create-destination="
                                        ++ (bool_text ur.create_destination_directory
                                            ++ (codes " --replace="
                                                ++ bool_text ur.replace))))))))))))

abbrev pub or_wrapped : Output → Option Err → Option Err
or_wrapped out none = none
or_wrapped out (some e) = some (wrap_error_with e (out.stdout ∷ out.stderr ∷ []))

module _ {W : Type 0} where
  abbrev run_result : Output × W → Option Err × W
  run_result (out, w) = (or_wrapped out out.err, w)

  -- Unzip, with what the context says at its start.
  unfoldable pub unzip : Poll → Run W → UnzipRequest → W → Option Err × W
  unfolding unzip_command
  unzip (done e) tr ur w = (e, w)
  unzip active tr ur w = run_result (tr (new_command (unzip_command ur)) w)
