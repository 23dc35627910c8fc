-- ===== src/Systemd/Systemctl.antt =====
-- internal/remoteflight/systemd/systemctl.go: requests and the command lines that they stand for.
pub mod Names
use terraform_provider_enos.Prelude.{
  ℕ, Bool, true, false, not, List, [], ◌∷◌, ◌++◌, Option, none, some, Bytes, codes, bytes_eq,
  any_of, ◌==◌, ◌&&◌, if◌then◌else◌,
}
use terraform_provider_enos.Go.{Err, errorf, num, end, new}

-- SystemctlSubCommand, an int: its constants in their order, and any other int.
pub data SystemctlSubCommand : Type 0 where
  not_set daemon_reload enable is_active kill list_units reload : SystemctlSubCommand
  restart show start status stop : SystemctlSubCommand
  other : ℕ → SystemctlSubCommand

-- UnitType of unit.go, an int: its constants, and any other int.
pub data UnitType : Type 0 where
  type_not_set service socket device mount automount : UnitType
  swap target path timer slice scope : UnitType
  other_type : ℕ → UnitType

unfoldable pub type_to_string : UnitType → Bytes
type_to_string type_not_set = codes "service"
type_to_string service = codes "service"
type_to_string socket = codes "socket"
type_to_string device = codes "device"
type_to_string mount = codes "mount"
type_to_string automount = codes "automount"
type_to_string swap = codes "swap"
type_to_string target = codes "target"
type_to_string path = codes "path"
type_to_string timer = codes "timer"
type_to_string slice = codes "slice"
type_to_string scope = codes "scope"
type_to_string (other_type _) = codes "service"

pub record SystemctlCommandReq : Type 0 where
  pub user : Bool
  pub name : Bytes
  pub type : UnitType
  pub sub_command : SystemctlSubCommand
  pub pattern : Bytes
  pub options : Bytes
  pub env : List (Bytes × Bytes)

-- NewRunSystemctlCommand with no options; an option is the record with a field set.
abbrev pub new_run_systemctl_command : SystemctlCommandReq
new_run_systemctl_command = record {
  user = false;
  name = [];
  type = service;
  sub_command = not_set;
  pattern = [];
  options = [];
  env = [];
}

abbrev pub with_user : SystemctlCommandReq → SystemctlCommandReq
with_user c = record c { user = true }

abbrev pub with_unit_name : Bytes → SystemctlCommandReq → SystemctlCommandReq
with_unit_name unit c = record c { name = unit }

abbrev pub with_unit_type : UnitType → SystemctlCommandReq → SystemctlCommandReq
with_unit_type typ c = record c { type = typ }

abbrev pub with_sub_command : SystemctlSubCommand → SystemctlCommandReq → SystemctlCommandReq
with_sub_command cmd c = record c { sub_command = cmd }

abbrev pub with_pattern : Bytes → SystemctlCommandReq → SystemctlCommandReq
with_pattern pattern c = record c { pattern = pattern }

abbrev pub with_options : Bytes → SystemctlCommandReq → SystemctlCommandReq
with_options options c = record c { options = options }

-- SystemctlStatusCode, an int that is not negative.
abbrev pub status_ok : ℕ
status_ok = 0

abbrev pub status_not_failed : ℕ
status_not_failed = 1

abbrev pub status_not_active : ℕ
status_not_active = 3

abbrev pub status_no_such_unit : ℕ
status_no_such_unit = 4

abbrev pub status_unknown : ℕ
status_unknown = 9

-- SystemctlStatusCode.String
unfoldable pub status_to_string : ℕ → Bytes
status_to_string s =
    if s == status_ok
    then codes "ok"
    else if s == status_not_failed
    then codes "not-failed"
    else if s == status_not_active
    then codes "not-active"
    else if s == status_no_such_unit
    then codes "no-such-unit"
    else codes "unknown"

abbrev is_empty : Bytes → Bool
is_empty [] = true
is_empty (_ ∷ _) = false

-- filepath.Ext: from the last dot behind the last separator.
unfoldable pub ext : Bytes → Bytes
ext [] = []
ext (c ∷ s) =
    let found = ext s in
    if is_empty found && c == b'.' && not (any_of (λ d. d == b'/') s) then c ∷ s else found

-- The unit's name with its type behind it, if it does not end in it.
unfoldable pub unit_name : SystemctlCommandReq → Bytes
unfolding ext bytes_eq type_to_string
unit_name c =
    let suffix : Bytes = codes "." ++ type_to_string c.type in
    if bytes_eq (ext c.name) suffix then c.name else c.name ++ suffix

pub data Words : Type 0 where
  words : Bytes → Words
  refused : Err → Words

abbrev pub sub_command_words : SystemctlCommandReq → SystemctlSubCommand → Words
sub_command_words c not_set = refused (new "sub command is not set")
sub_command_words c daemon_reload = words (codes "daemon-reload")
sub_command_words c is_active = words (codes "is-active " ++ unit_name c)
sub_command_words c enable = words (codes "enable " ++ unit_name c)
sub_command_words c kill = words (codes "kill " ++ unit_name c)
sub_command_words c list_units = words (codes "list-units -t " ++ type_to_string c.type)
sub_command_words c reload = words (codes "reload " ++ unit_name c)
sub_command_words c restart = words (codes "restart " ++ unit_name c)
sub_command_words c show = words (codes "show " ++ unit_name c)
sub_command_words c start = words (codes "start " ++ unit_name c)
sub_command_words c status =
    words (codes "status" ++ (if is_empty (unit_name c) then [] else codes " " ++ unit_name c))
sub_command_words c stop = words (codes "stop " ++ unit_name c)
sub_command_words c (other n) = refused (errorf "unknown command: %d" (num n end))

abbrev finish : SystemctlCommandReq → Words → Bytes × Option Err
finish c (refused e) = ([], some e)
finish c (words w) = (
  codes "sudo systemctl "
      ++ ((if c.user then codes "--user " else [])
          ++ ((if is_empty c.options then [] else c.options ++ codes " ")
              ++ (w ++ (if is_empty c.pattern then [] else codes " " ++ c.pattern)))),
  none,
)

-- SystemctlCommandReq.String
unfoldable pub to_string : SystemctlCommandReq → Bytes × Option Err
unfolding unit_name
to_string c = finish c (sub_command_words c c.sub_command)
