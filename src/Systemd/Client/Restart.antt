-- ===== src/Systemd/Client/Restart.antt =====
-- What RestartService of systemd/client.go runs on its target, over a transport that keeps a log.
use terraform_provider_enos.Prelude.{
  ◌≡◌, refl, ◌∙◌, ap, ◌≢◌, true, List, [], ◌∷◌, ◌++◌, Option, none, some, Bytes, codes,
  if◌then◌else◌, is_some, lookup, Bool-cases, inl, inr, ◌⊎◌, arith, String,
}
use terraform_provider_enos.Go.{Err, join}
use terraform_provider_enos.Transport.{Command, Output}
use terraform_provider_enos.Systemd.Properties.{UnitProperties, has_properties}
use terraform_provider_enos.Systemd.Decode.{decode_unit_properties_from_show}
use terraform_provider_enos.Systemd.Systemctl
use terraform_provider_enos.Systemd.Systemctl.{SystemctlSubCommand}
use terraform_provider_enos.Systemd.Client.{
  SystemctlCommandRes, unit_command, enable_command, run_systemctl_command, failed_command,
  and_then, wrap_restart, enable_service, start_service, stop_service, show_properties,
  decode_if_ok, no_output, wrap_show, restart_from, restart_service, loaded_and_active,
  file_status_enabled,
}
use terraform_provider_enos.Systemd.Client.Plan.{
  recording, view, run_plan, show_command, stop_command, start_command, enable_now, restart_plan,
}

-- ShowProperties on what the query gave back.
shown : Bytes → Option Err → UnitProperties × Option Err
shown stdout err = wrap_show (decode_if_ok stdout (join err (no_output stdout)))

shown_ok :
    (stdout : Bytes) (err : Option Err)
    → err ≡ none
    → stdout ≢ []
    → shown stdout err ≡ ((decode_unit_properties_from_show stdout).0, none)
unfolding shown decode_unit_properties_from_show
shown_ok [] err e h = absurd (h refl)
shown_ok (c ∷ s) (some x) e h = ground arith
shown_ok (c ∷ s) none e h = refl

shown_blind :
    (stdout : Bytes) (err : Option Err)
    → (stdout ≡ []) ⊎ (err ≢ none)
    → (e : Err) × (shown stdout err ≡ ([], some e))
unfolding shown
shown_blind [] none h = (_, refl)
shown_blind [] (some x) h = (_, refl)
shown_blind (c ∷ s) (some x) h = (_, refl)
shown_blind (c ∷ s) none (inl h) = ground arith
shown_blind (c ∷ s) none (inr h) = absurd (h refl)

module _ (f : Command → Output) where
  failed_view :
      (format : String) (unit : Bytes) (r : SystemctlCommandRes × Option Err × List Command)
      → view (failed_command format unit r) ≡ (is_some r.1, r.2)
  failed_view format unit (res, none, log) = refl
  failed_view format unit (res, some e, log) = refl

  stop_view :
      (unit : Bytes) (log : List Command)
      → view (stop_service (recording f) unit log)
        ≡ (is_some (f (stop_command unit)).err, log ++ stop_command unit ∷ [])
  unfolding stop_service Systemctl.to_string
  stop_view unit log =
      failed_view _ unit
        (run_systemctl_command (recording f) (unit_command SystemctlSubCommand.stop unit) log)

  enable_view :
      (unit : Bytes) (log : List Command)
      → view (enable_service (recording f) unit log)
        ≡ (is_some (f (enable_now unit)).err, log ++ enable_now unit ∷ [])
  unfolding enable_service Systemctl.to_string
  enable_view unit log =
      failed_view _ unit (run_systemctl_command (recording f) (enable_command unit) log)

  start_view :
      (unit : Bytes) (log : List Command)
      → view (start_service (recording f) unit log)
        ≡ (is_some (f (start_command unit)).err, log ++ start_command unit ∷ [])
  unfolding start_service Systemctl.to_string
  start_view unit log =
      failed_view _ unit
        (run_systemctl_command (recording f) (unit_command SystemctlSubCommand.start unit) log)

  wrap_view :
      (unit : Bytes) (props : UnitProperties) (r : Option Err × List Command)
      → view (wrap_restart unit props r) ≡ view r
  wrap_view unit props (none, log) = refl
  wrap_view unit props (some e, log) = refl

  -- One command and then the rest of a plan.
  and_then_plan :
      (c : Command) (cs log : List Command) (r : Option Err × List Command)
      (g : List Command → Option Err × List Command)
      → view r ≡ (is_some (f c).err, log ++ c ∷ [])
      → ((l : List Command) → view (g l) ≡ run_plan f l cs)
      → view (and_then r g) ≡ run_plan f log (c ∷ cs)
  and_then_plan c cs log (none, l) g e h = ground (arith, h l)
  and_then_plan c cs log (some x, l) g e h = ground arith

  start_plan :
      (unit : Bytes) (log : List Command)
      → view (start_service (recording f) unit log) ≡ run_plan f log (start_command unit ∷ [])
  start_plan unit log = start_view unit log ∙ ground arith

  enable_plan :
      (unit : Bytes) (props : UnitProperties) (log : List Command)
      → view (
          and_then
            (if has_properties props file_status_enabled
              then (none, log)
              else enable_service (recording f) unit log)
            (start_service (recording f) unit))
        ≡ run_plan f log (
            (if has_properties props file_status_enabled then [] else enable_now unit ∷ [])
            ++ start_command unit ∷ [])
  enable_plan unit props log = elim (Bool-cases (has_properties props file_status_enabled)) [
    | inl e ↦ rw e (start_plan unit log)
    | inr e ↦ rw e (
        and_then_plan (enable_now unit) (start_command unit ∷ []) log _ _ (enable_view unit log)
          (start_plan unit))
  ]

  restart_from_plan :
      (unit : Bytes) (props : UnitProperties) (log : List Command)
      → view (restart_from (recording f) unit props none log)
        ≡ run_plan f log (restart_plan unit props)
  unfolding restart_from
  restart_from_plan unit props log =
      wrap_view unit props _ ∙ elim (Bool-cases (has_properties props loaded_and_active)) [
        | inl e ↦ rw e (
            and_then_plan (stop_command unit) _ log _ _ (stop_view unit log)
              (enable_plan unit props))
        | inr e ↦ rw e (enable_plan unit props log)
      ]

  show_lem :
      (unit : Bytes) (log : List Command)
      → show_properties (recording f) unit log ≡ (
        (shown (f (show_command unit)).stdout (f (show_command unit)).err).0,
        (shown (f (show_command unit)).stdout (f (show_command unit)).err).1,
        log ++ show_command unit ∷ [],
      )
  unfolding show_properties shown Systemctl.to_string
  show_lem unit log = refl

  -- Where the properties can be shown, a restart runs its plan in order up to the first command that
  -- fails, and returns an error exactly when one fails: it stops a unit that is loaded and active,
  -- enables the unit, and starts it.
  pub restart_service_plan :
      (unit : Bytes) (log : List Command)
      → (f (show_command unit)).err ≡ none
      → (f (show_command unit)).stdout ≢ []
      → view (restart_service (recording f) unit log)
        ≡ run_plan f
            (log ++ show_command unit ∷ [])
            (restart_plan unit (decode_unit_properties_from_show (f (show_command unit)).stdout).0)
  unfolding restart_service
  restart_service_plan unit log ok out =
      ap view (
        ap
          (λ (r : UnitProperties × Option Err × List Command).
            restart_from (recording f) unit r.0 r.1 r.2)
          (show_lem unit log
            ∙ ap (λ (r : UnitProperties × Option Err). (r.0, r.1, log ++ show_command unit ∷ []))
                (shown_ok _ _ ok out)))
      ∙ restart_from_plan unit _ (log ++ show_command unit ∷ [])

  -- Where they cannot, nothing but the query is run, and the restart fails.
  pub restart_service_blind :
      (unit : Bytes) (log : List Command)
      → (((f (show_command unit)).stdout ≡ []) ⊎ ((f (show_command unit)).err ≢ none))
      → view (restart_service (recording f) unit log) ≡ (true, log ++ show_command unit ∷ [])
  unfolding restart_service
  restart_service_blind unit log h =
      let (e, blind) = shown_blind _ _ h in
      ap view (
        ap
          (λ (r : UnitProperties × Option Err × List Command).
            restart_from (recording f) unit r.0 r.1 r.2)
          (show_lem unit log
            ∙ ap (λ (r : UnitProperties × Option Err). (r.0, r.1, log ++ show_command unit ∷ []))
                blind))

  -- `systemctl show` has the key UnitFileState, and the test of RestartService asks for
  -- UnitFileStatus: where that key is missing, the restart enables the unit whatever its file's state is.
  pub restart_service_enables :
      (unit : Bytes) (log : List Command)
      → (f (show_command unit)).err ≡ none
      → (f (show_command unit)).stdout ≢ []
      → let props = (decode_unit_properties_from_show (f (show_command unit)).stdout).0 in
        lookup (codes "UnitFileStatus") props ≡ none
        → view (restart_service (recording f) unit log)
          ≡ run_plan f (log ++ show_command unit ∷ []) (
              (if has_properties props loaded_and_active then stop_command unit ∷ [] else [])
              ++ enable_now unit ∷ start_command unit ∷ [])
  unfolding has_properties
  restart_service_enables unit log ok out missing =
      restart_service_plan unit log ok out ∙ rw missing
