-- ===== src/Flight/Directory.antt =====
-- internal/remoteflight/directory.go.
use terraform_provider_enos.Prelude.{Option, none, some, List, [], ◌∷◌, ◌++◌, Bytes, codes}
use terraform_provider_enos.Go.{apply_opts, Err, new}
use terraform_provider_enos.Transport.{Run, Output, new_command}
use terraform_provider_enos.Flight.Attempts.{wrapped}

pub record CreateDirectoryRequest : Type 0 where
  pub dir_name : Bytes
  pub dir_owner : Bytes

abbrev pub CreateDirectoryRequestOpt : Type 0
CreateDirectoryRequestOpt = CreateDirectoryRequest → CreateDirectoryRequest

abbrev pub with_dir_name : Bytes → CreateDirectoryRequestOpt
with_dir_name directory cdir = record cdir { dir_name = directory }

abbrev pub with_dir_chown : Bytes → CreateDirectoryRequestOpt
with_dir_chown owner cdir = record cdir { dir_owner = owner }

abbrev pub new_create_directory_request : List CreateDirectoryRequestOpt → CreateDirectoryRequest
new_create_directory_request opts = apply_opts opts (record { dir_name = []; dir_owner = [] })

abbrev pub mkdir_command : Bytes → Bytes
mkdir_command name =
    codes "mkdir -p '" ++ (name ++ (codes "' || sudo mkdir -p '" ++ (name ++ codes "'")))

abbrev owned : Bytes → Bytes → Bytes
owned owner name = owner ++ (codes " " ++ name)

abbrev pub chown_command : Bytes → Bytes → Bytes
chown_command owner name =
    codes "chown -R " ++ (owned owner name ++ (codes " || sudo chown -R " ++ owned owner name))

abbrev or_wrapped : Output → Option Err → Bytes → Option Err
or_wrapped out none message = none
or_wrapped out (some e) message = some (wrapped e out message)

module _ {W : Type 0} where
  abbrev chown_result : Output × W → Option Err × W
  chown_result (out, w) = (or_wrapped out out.err (codes "changing file ownership"), w)

  abbrev chown : Run W → CreateDirectoryRequest → Bytes → W → Option Err × W
  chown tr dir [] w = (none, w)
  chown tr dir (c ∷ owner) w =
      chown_result (tr (new_command (chown_command (c ∷ owner) dir.dir_name)) w)

  abbrev made : Run W → CreateDirectoryRequest → Option Err → Output → W → Option Err × W
  made tr dir (some e) out w = (some (wrapped e out (codes "creating directory on target host")), w)
  made tr dir none out w = chown tr dir dir.dir_owner w

  abbrev mkdir_result : Run W → CreateDirectoryRequest → Output × W → Option Err × W
  mkdir_result tr dir (out, w) = made tr dir out.err out w

  abbrev named : Run W → CreateDirectoryRequest → Bytes → W → Option Err × W
  named tr dir [] w = (some (new "no directory provided"), w)
  named tr dir (c ∷ name) w = mkdir_result tr dir (tr (new_command (mkdir_command (c ∷ name))) w)

  unfoldable pub create_directory : Run W → Option CreateDirectoryRequest → W → Option Err × W
  create_directory tr none w = (some (new "no directory or owner provided"), w)
  create_directory tr (some dir) w = named tr dir dir.dir_name w
