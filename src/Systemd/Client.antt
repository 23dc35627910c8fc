-- ===== src/Systemd/Client.antt =====
-- internal/remoteflight/systemd/client.go: the client runs systemctl through a transport, whose
-- target has a state `W`. GetUnitJournal, CreateUnitFile and ListServices are not here.
pub mod Plan
pub mod Restart
use terraform_provider_enos.Prelude.{
  ℕ, String, [], ◌∷◌, Option, none, some, Bytes, codes, if◌then◌else◌,
}
use terraform_provider_enos.Go.{Err, errorf, wrap, text, end, new, join, exit_code}
use terraform_provider_enos.Transport.{Run, new_command, with_env_vars}
use terraform_provider_enos.Systemd.Properties.{UnitProperties, has_properties, to_string}
use terraform_provider_enos.Systemd.Decode.{decode_unit_properties_from_show}
use terraform_provider_enos.Systemd.Systemctl
use terraform_provider_enos.Systemd.Systemctl.{
  SystemctlCommandReq, SystemctlSubCommand, new_run_systemctl_command, with_unit_name,
  with_sub_command, with_options, status_ok, status_unknown,
}

pub record SystemctlCommandRes : Type 0 where
  pub stdout : Bytes
  pub stderr : Bytes
  pub status : ℕ

abbrev pub code_or_unknown : Option ℕ → ℕ
code_or_unknown none = status_unknown
code_or_unknown (some c) = c

-- The status of a command that ran.
abbrev pub run_status : Option Err → ℕ
run_status none = status_ok
run_status (some e) = code_or_unknown (exit_code e)

-- The requests of the client's methods.
abbrev pub unit_command : SystemctlSubCommand → Bytes → SystemctlCommandReq
unit_command sub unit = with_sub_command sub (with_unit_name unit new_run_systemctl_command)

abbrev pub enable_command : Bytes → SystemctlCommandReq
enable_command unit = with_options (codes "--now") (unit_command SystemctlSubCommand.enable unit)

abbrev pub failed_command :
    {W : Type 0} → String → Bytes → SystemctlCommandRes × Option Err × W → Option Err × W
failed_command format unit (res, none, w) = (none, w)
failed_command format unit (res, some e, w) =
    (join (some (errorf format (text unit (text res.stderr end)))) (some e), w)

abbrev pub no_output : Bytes → Option Err
no_output [] = some (new "no show result was written to STDOUT")
no_output (_ ∷ _) = none

abbrev pub decode_if_ok : Bytes → Option Err → UnitProperties × Option Err
decode_if_ok stdout (some e) = ([], some e)
decode_if_ok stdout none = decode_unit_properties_from_show stdout

abbrev pub wrap_show : UnitProperties × Option Err → UnitProperties × Option Err
wrap_show (props, none) = (props, none)
wrap_show (props, some e) = ([], some (wrap "showing systemd properties: %w" end e))

abbrev pub restarting : Bytes → UnitProperties → Err → Err
restarting unit props e =
    wrap "restarting %s, systemd properties: %s, %w" (text unit (text (to_string props) end)) e

abbrev pub loaded_and_active : UnitProperties
loaded_and_active = (codes "LoadState", codes "loaded") ∷ (codes "ActiveState", codes "active") ∷ []

abbrev pub file_status_enabled : UnitProperties
file_status_enabled = (codes "UnitFileStatus", codes "enabled") ∷ []

-- `x, err := f(); if err != nil { return }; g()`
abbrev pub and_then : {W : Type 0} → Option Err × W → (W → Option Err × W) → Option Err × W
and_then (none, w) g = g w
and_then (some e, w) g = (some e, w)

abbrev pub wrap_restart : {W : Type 0} → Bytes → UnitProperties → Option Err × W → Option Err × W
wrap_restart unit props (none, w) = (none, w)
wrap_restart unit props (some e, w) = (some (restarting unit props e), w)

module _ {W : Type 0} (tr : Run W) where
  abbrev run_string :
      SystemctlCommandReq → Bytes × Option Err → W → SystemctlCommandRes × Option Err × W
  run_string req (cmd, some e) w =
      (record { stdout = []; stderr = []; status = status_unknown }, some e, w)
  run_string req (cmd, none) w =
      let (out, w') = tr (with_env_vars req.env (new_command cmd)) w in
      (
        record { stdout = out.stdout; stderr = out.stderr; status = run_status out.err },
        out.err,
        w',
      )

  -- RunSystemctlCommand
  unfoldable pub run_systemctl_command :
      SystemctlCommandReq → W → SystemctlCommandRes × Option Err × W
  run_systemctl_command req w = run_string req (Systemctl.to_string req) w

  unfoldable pub enable_service : Bytes → W → Option Err × W
  unfolding run_systemctl_command
  enable_service unit w =
      failed_command "enabling %s, stderr: %s" unit (run_systemctl_command (enable_command unit) w)

  unfoldable pub start_service : Bytes → W → Option Err × W
  unfolding run_systemctl_command
  start_service unit w =
      failed_command "starting %s, stderr: %s" unit
        (run_systemctl_command (unit_command SystemctlSubCommand.start unit) w)

  unfoldable pub stop_service : Bytes → W → Option Err × W
  unfolding run_systemctl_command
  stop_service unit w =
      failed_command "stopping %s, stderr: %s" unit
        (run_systemctl_command (unit_command SystemctlSubCommand.stop unit) w)

  -- ServiceStatus drops the error.
  unfoldable pub service_status : Bytes → W → ℕ × W
  unfolding run_systemctl_command
  service_status unit w =
      let (res, _, w') = run_systemctl_command (unit_command SystemctlSubCommand.show unit) w in
      (res.status, w')

  -- ShowProperties: a nil map, which reads as an empty one, with an error.
  unfoldable pub show_properties : Bytes → W → UnitProperties × Option Err × W
  unfolding run_systemctl_command
  show_properties unit w =
      let (res, err, w') = run_systemctl_command (unit_command SystemctlSubCommand.show unit) w in
      let (props, e) = wrap_show (decode_if_ok res.stdout (join err (no_output res.stdout))) in
      (props, e, w')

  -- RestartService with the properties that were shown: stop what runs, enable, start.
  unfoldable pub restart_from : Bytes → UnitProperties → Option Err → W → Option Err × W
  unfolding stop_service enable_service start_service
  restart_from unit props (some e) w = (some (restarting unit props e), w)
  restart_from unit props none w = wrap_restart unit props (
      and_then (if has_properties props loaded_and_active then stop_service unit w else (none, w))
        λ w1.
          and_then
            (if has_properties props file_status_enabled
              then (none, w1)
              else enable_service unit w1)
            (start_service unit))

  unfoldable pub restart_service : Bytes → W → Option Err × W
  unfolding show_properties restart_from
  restart_service unit w =
      let (props, err, w1) = show_properties unit w in restart_from unit props err w1
