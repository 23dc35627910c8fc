-- ===== src/Vault/Checks/Node.antt =====
-- The checks of vault/checks.go on the node itself: status, systemd unit, seal, health, configuration.
pub mod Laws
use terraform_provider_enos.Prelude.{
  ℕ, Bool, true, false, not, Option, none, some, List, [], ◌∷◌, Bytes, bytes_eq, ◌==◌, ◌&&◌,
  if◌then◌else◌,
}
use terraform_provider_enos.Go.{
  Err, errorf, text, num, nums, cause, end, new, Ran, returned, ◌>>=◌, deref,
}
use terraform_provider_enos.Systemd.Properties.{
  UnitProperties, enabled_and_running_properties, find_properties, has_properties, to_string,
}
use terraform_provider_enos.Vault.Health.{HealthResponse, status_is_one_of}
use terraform_provider_enos.Vault.Health.Request.{health_status_to_string}
use terraform_provider_enos.Vault.Responses.{
  ConfigListener, ConfigListenerConfig, ConfigStateSanitizedResponseData,
}
use terraform_provider_enos.Vault.SealStatus.{SealStatusResponseData}
use terraform_provider_enos.Vault.State.{State, is_initialized, is_sealed}
use terraform_provider_enos.Vault.Checks.Base.{CheckStater, pass, fail}

-- CheckStateHasStatusCode
unfoldable pub check_has_status_code : ℕ → CheckStater
check_has_status_code code state = do
  s ← deref state
  st ← deref s.status
  if st.status_code == code
      then pass
      else fail (
          errorf "checking vault status code, expected status %v, got %v"
            (num code (num st.status_code end)))

abbrev unit_result : UnitProperties × Option Err → Ran (Option Err)
unit_result (props, some e) = fail (
    errorf
      "checking vault systemd state, expected vault systemd unit to be enabled and running, got %s"
      (cause e end))
unit_result (props, none) =
    if has_properties props enabled_and_running_properties
    then pass
    else fail (
        errorf
          "checking vault systemd state, expected vault system unit to be enabled and running, got %s"
          (text (to_string props) end))

-- CheckStateHasSystemdEnabledAndRunningProperties
unfoldable pub check_has_systemd_enabled_and_running_properties : CheckStater
check_has_systemd_enabled_and_running_properties state = do
  s ← deref state
  unit_result (find_properties s.unit_properties enabled_and_running_properties)

abbrev initialized_result : Bool × Option Err → Ran (Option Err)
initialized_result (initialized, some e) =
    fail (errorf "checking vault init state: %s" (cause e end))
initialized_result (true, none) = pass
initialized_result (false, none) =
    fail (new "checking vault init state, expected initialized, vault is not initialized")

-- CheckStateIsInitialized
unfoldable pub check_is_initialized : CheckStater
check_is_initialized state = initialized_result (is_initialized state)

abbrev seal_error : Err → Ran (Option Err)
seal_error e = fail (errorf "checking vault seal state: %s" (cause e end))

abbrev unsealed_result : Bool × Option Err → Ran (Option Err)
unsealed_result (sealed, some e) = seal_error e
unsealed_result (true, none) =
    fail (new "checking vault seal state, expected unsealed, vault is sealed")
unsealed_result (false, none) = pass

-- CheckStateIsUnsealed
unfoldable pub check_is_unsealed : CheckStater
check_is_unsealed state = unsealed_result (is_sealed state)

abbrev sealed_result : Bool × Option Err → Ran (Option Err)
sealed_result (sealed, some e) = seal_error e
sealed_result (true, none) = pass
sealed_result (false, none) =
    fail (new "checking vault seal state, expected sealed, vault is unsealed")

-- CheckStateIsSealed
unfoldable pub check_is_sealed : CheckStater
check_is_sealed state = sealed_result (is_sealed state)

abbrev known_result : Bool × Option Err → Ran (Option Err)
known_result (sealed, some e) = seal_error e
known_result (sealed, none) = pass

-- CheckStateSealStateIsKnown
unfoldable pub check_seal_state_is_known : CheckStater
check_seal_state_is_known state = known_result (is_sealed state)

-- `s.SealStatus == nil || s.SealStatus.Data == nil`, and the data otherwise.
abbrev pub seal_data : State → Option SealStatusResponseData
seal_data s = elim s.seal_status [ none ↦ none | some r ↦ r.body ]

abbrev seal_type_result : Bytes → Option SealStatusResponseData → Ran (Option Err)
seal_type_result stype none = fail (
    errorf "checking vault seal type, expected %s, no seal status data was found in state"
      (text stype end))
seal_type_result stype (some d) =
    if bytes_eq d.type stype
    then pass
    else fail (
        errorf "checking vault seal type, expected type %s, found %s"
          (text stype (text d.type end)))

-- CheckStateHasSealType
unfoldable pub check_has_seal_type : Bytes → CheckStater
check_has_seal_type stype state = do s ← deref state; seal_type_result stype (seal_data s)

abbrev storage_type_result : Bytes → Option SealStatusResponseData → Ran (Option Err)
storage_type_result stype none = fail (
    errorf
      "checking vault storage type, expected %s, no seal status storage data was found in state"
      (text stype end))
storage_type_result stype (some d) =
    if bytes_eq d.storage_type stype
    then pass
    else fail (
        errorf "checking vault storage type, expected of %s, found %s"
          (text stype (text d.storage_type end)))

-- CheckStateHasStorageType
unfoldable pub check_has_storage_type : Bytes → CheckStater
check_has_storage_type stype state = do s ← deref state; storage_type_result stype (seal_data s)

-- The statuses are printed as numbers, `%v`.
abbrev health_result : List ℕ → Option HealthResponse → Ran (Option Err)
health_result statuses none =
    fail (new "checking vault health status: state has no /v1/sys/health data")
health_result statuses (some h) =
    if status_is_one_of h statuses
    then pass
    else fail (
        errorf
          "checking vault health status: expected one of /v1/sys/health statuses: %v, got /v1/sys/health status: %s"
          (nums statuses (text (health_status_to_string h.health_status) end)))

-- CheckStateHasHealthStatusOf
unfoldable pub check_has_health_status_of : List ℕ → CheckStater
check_has_health_status_of [] state =
    fail (new "checking vault health status: no desired statuses were given")
check_has_health_status_of (s ∷ statuses) state = do
  st ← deref state
  health_result (s ∷ statuses) st.health

-- `s.ConfigSanitized == nil || s.ConfigSanitized.Data == nil`, and the data otherwise.
abbrev pub config_data : State → Option ConfigStateSanitizedResponseData
config_data s = elim s.config_sanitized [ none ↦ none | some r ↦ r.body ]

abbrev ui_result : Option ConfigStateSanitizedResponseData → Ran (Option Err)
ui_result none =
    fail (new "checking if vault UI is enabled: no configuration data was found in state")
ui_result (some d) =
    if d.enable_ui then pass else fail (new "checking vault UI is enabled: vault UI is disabled")

-- CheckStateHasEnableUIInConfig
unfoldable pub check_has_enable_ui_in_config : CheckStater
check_has_enable_ui_in_config state = do s ← deref state; ui_result (config_data s)

-- The fields of two listeners that are compared, after their types.
abbrev pub same_config : ConfigListenerConfig → ConfigListenerConfig → Bool
same_config a b = bytes_eq a.address b.address && bytes_eq a.tls_disable b.tls_disable

-- One turn: whether the listener matches, or what the rest of the loop gives.
abbrev compare_listener : Ran Bool → ConfigListener → ConfigListener → Ran Bool
compare_listener rest have want =
    if bytes_eq have.type want.type
    then (deref have.config >>= λ a.
        deref want.config >>= λ b. if same_config a b then returned true else rest)
    else rest

-- The loop over the listeners. The pointers of the wanted listener and of
-- those in the state are dereferenced as far as the comparison gets.
unfoldable pub find_listener : Option ConfigListener → List (Option ConfigListener) → Ran Bool
find_listener wanted [] = returned false
find_listener wanted (l ∷ ls) =
    let rest = find_listener wanted ls in
    deref l >>= λ have. deref wanted >>= λ want. compare_listener rest have want

abbrev listener_result : Bool → Ran (Option Err)
listener_result true = pass
listener_result false =
    -- The two listeners that the message prints are left out.
    fail (
      new
        "checking if vault config has matching listener: no matching listener config was found in state, expected: %#v, got: %#v")

abbrev listener_data :
    Option ConfigListener → Option ConfigStateSanitizedResponseData → Ran (Option Err)
listener_data wanted none =
    fail (
      new
        "checking if vault config has matching listener: no configuration data was found in state")
listener_data wanted (some d) = find_listener wanted d.listeners >>= listener_result

-- CheckStateHasMatchingListenerInConfig
unfoldable pub check_has_matching_listener_in_config : Option ConfigListener → CheckStater
unfolding find_listener
check_has_matching_listener_in_config listener state = do
  s ← deref state
  listener_data listener (config_data s)
