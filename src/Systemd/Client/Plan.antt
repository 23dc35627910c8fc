-- ===== src/Systemd/Client/Plan.antt =====
-- The commands that RestartService of systemd/client.go is to run for the properties of a unit, and a
-- transport that keeps a log.
use terraform_provider_enos.Prelude.{
  Bool, true, false, List, [], ◌∷◌, ◌++◌, Option, Bytes, if◌then◌else◌, is_some,
}
use terraform_provider_enos.Go.{Err}
use terraform_provider_enos.Transport.{Command, Output, Run, new_command}
use terraform_provider_enos.Systemd.Properties.{UnitProperties, has_properties}
use terraform_provider_enos.Systemd.Systemctl
use terraform_provider_enos.Systemd.Systemctl.{SystemctlCommandReq, SystemctlSubCommand}
use terraform_provider_enos.Systemd.Client.{
  unit_command, enable_command, loaded_and_active, file_status_enabled,
}

-- A transport that answers by a function and appends each command to its log.
abbrev pub recording : (Command → Output) → Run (List Command)
recording f c log = (f c, log ++ c ∷ [])

-- The command that a request runs.
abbrev pub command_of : SystemctlCommandReq → Command
command_of req = new_command (Systemctl.to_string req).0

-- Whether there was an error, and the log.
abbrev pub view : Option Err × List Command → Bool × List Command
view (e, log) = (is_some e, log)

-- Commands in order, up to the first that fails.
abbrev pub run_plan : (Command → Output) → List Command → List Command → Bool × List Command
run_plan f log [] = (false, log)
run_plan f log (c ∷ cs) =
    let rest = run_plan f (log ++ c ∷ []) cs in
    if is_some (f c).err then (true, log ++ c ∷ []) else rest

abbrev pub show_command : Bytes → Command
show_command unit = command_of (unit_command SystemctlSubCommand.show unit)

abbrev pub stop_command : Bytes → Command
stop_command unit = command_of (unit_command SystemctlSubCommand.stop unit)

abbrev pub start_command : Bytes → Command
start_command unit = command_of (unit_command SystemctlSubCommand.start unit)

abbrev pub enable_now : Bytes → Command
enable_now unit = command_of (enable_command unit)

-- What a restart is to run after the properties were shown.
abbrev pub restart_plan : Bytes → UnitProperties → List Command
restart_plan unit props =
    (if has_properties props loaded_and_active then stop_command unit ∷ [] else [])
    ++ ((if has_properties props file_status_enabled then [] else enable_now unit ∷ [])
        ++ start_command unit ∷ [])
