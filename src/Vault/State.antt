-- ===== src/Vault/State.antt =====
-- internal/remoteflight/vault/state.go: the state of a node and what it says of itself.
pub mod Laws
use terraform_provider_enos.Prelude.{
  ℕ, Bool, true, false, not, Option, none, some, List, Bytes, bytes_eq, bool_eq, ◌&&◌, ◌||◌,
  if◌then◌else◌,
}
use terraform_provider_enos.Go.{Err, errorf, flag, end, new}
use terraform_provider_enos.Systemd.Properties.{UnitProperties}
use terraform_provider_enos.Vault.Responses.{
  RaftAutopilotConfigurationResponse, RaftAutopilotStateResponse, RaftConfigurationResponse,
  ConfigStateSanitizedResponse, ReplicationResponse, HaStatusResponse, HostInfoResponse,
}
use terraform_provider_enos.Vault.Status.{StatusResponse, status_unknown}
use terraform_provider_enos.Vault.Status
use terraform_provider_enos.Vault.SealStatus.{SealStatusResponse, SealStatusResponseData}
use terraform_provider_enos.Vault.SealStatus
use terraform_provider_enos.Vault.Health.{HealthResponse}
use terraform_provider_enos.Vault.Health.Request.{
  replication_mode_unset, replication_mode_unknown, replication_mode_disabled,
}
use terraform_provider_enos.Vault.Health

-- What the checks read of a k8s v1.PodList.
pub record ContainerStatus : Type 0 where
  pub name : Bytes
  pub ready : Bool

pub record Pod : Type 0 where
  pub name : Bytes
  pub phase : Bytes
  pub message : Bytes
  pub reason : Bytes
  pub container_statuses : Option (List ContainerStatus)

pub record PodList : Type 0 where
  pub items : Option (List Pod)

pub record ListPodsResponse : Type 0 where
  pub pods : Option PodList

pub record State : Type 0 where
  pub autopilot_config : Option RaftAutopilotConfigurationResponse
  pub autopilot_state : Option RaftAutopilotStateResponse
  pub config_sanitized : Option ConfigStateSanitizedResponse
  pub replication_status : Option ReplicationResponse
  pub health : Option HealthResponse
  pub ha_status : Option HaStatusResponse
  pub host_info : Option HostInfoResponse
  pub perf_replication : Option ReplicationResponse
  pub pod_list : Option ListPodsResponse
  pub raft_config : Option RaftConfigurationResponse
  pub seal_status : Option SealStatusResponse
  pub status : Option StatusResponse
  pub unit_properties : UnitProperties

abbrev pub new_state : State
new_state = record {
  autopilot_config = none;
  autopilot_state = none;
  config_sanitized = none;
  replication_status = none;
  health = none;
  ha_status = none;
  host_info = none;
  perf_replication = none;
  pod_list = none;
  raft_config = none;
  seal_status = none;
  status = none;
  unit_properties = List.[];
}

abbrev pub err_unknown : Err
err_unknown = new "state is unknown"

abbrev pub err_no_status : Err
err_no_status = new "state does not include 'vault status' response"

abbrev pub err_no_health : Err
err_no_health = new "state has no /v1/sys/health data"

-- The answers of the three sources, which must agree.
abbrev agree : Bool → Bool → Bool → Bool × Option Err
agree status_sealed seal_status_sealed health_sealed =
    if not (bool_eq status_sealed health_sealed) || not (bool_eq status_sealed seal_status_sealed)
    then (
      true,
      some (
          errorf
            "vault status sealed: %t, /v1/sys/health sealed: %t, /v1/sys/seal-status sealed: %t do not agree"
            (flag status_sealed (flag health_sealed (flag seal_status_sealed end)))),
    )
    else (status_sealed, none)

abbrev agree3 : Bool × Option Err → Bool × Option Err → Bool × Option Err → Bool × Option Err
agree3 (a, some e) s h = (true, some e)
agree3 (a, none) (b, some e) h = (true, some e)
agree3 (a, none) (b, none) (c, some e) = (true, some e)
agree3 (a, none) (b, none) (c, none) = agree a b c

abbrev sealed_from :
    Option StatusResponse → Option HealthResponse → Option SealStatusResponse → Bool × Option Err
sealed_from none h s = (true, some err_no_status)
sealed_from (some st) none s = (false, some err_no_health)
sealed_from (some st) (some h) none = (false, some (new "state has no /v1/sys/seal-status data"))
sealed_from (some st) (some h) (some s) =
    agree3 (Status.is_sealed (some st)) (SealStatus.is_sealed (some s)) (Health.is_sealed (some h))

-- State.IsSealed, on a pointer that may be nil.
unfoldable pub is_sealed : Option State → Bool × Option Err
is_sealed none = (true, some err_unknown)
is_sealed (some s) = sealed_from s.status s.health s.seal_status

abbrev initialized_from : Option StatusResponse → Option HealthResponse → Bool × Option Err
initialized_from none h = (true, some err_no_status)
initialized_from (some st) none = (false, some err_no_health)
initialized_from (some st) (some h) =
    if bool_eq st.initialized h.initialized then (st.initialized, none) else (
      false,
      some (
          errorf "vault status initialized: %t and /v1/sys/health initialized: %t do not agree"
            (flag st.initialized (flag h.initialized end))),
    )

-- State.IsInitialized
unfoldable pub is_initialized : Option State → Bool × Option Err
is_initialized none = (false, some err_unknown)
is_initialized (some s) = initialized_from s.status s.health

abbrev pub mode_is_on : Bytes → Bool
mode_is_on mode =
    not (bytes_eq mode replication_mode_unset)
    && (not (bytes_eq mode replication_mode_unknown)
        && not (bytes_eq mode replication_mode_disabled))

abbrev pub replication_from : Option HealthResponse → Bool × Option Err
replication_from none = (false, some err_no_health)
replication_from (some h) =
    (mode_is_on h.replication_dr_mode || mode_is_on h.replication_performance_mode, none)

-- State.ReplicationEnabled
unfoldable pub replication_enabled : Option State → Bool × Option Err
replication_enabled none = (false, some err_unknown)
replication_enabled (some s) = replication_from s.health

abbrev ha_from : Option StatusResponse → Bool × Option Err
ha_from none = (true, some err_no_status)
ha_from (some st) = (st.ha_enabled, none)

-- State.HAEnabled
unfoldable pub ha_enabled : Option State → Bool × Option Err
ha_enabled none = (false, some err_unknown)
ha_enabled (some s) = ha_from s.status

abbrev storage_of_data : Option SealStatusResponseData → Bytes × Option Err
storage_of_data none = (List.[], some (new "state has no /v1/sys/seal-status data"))
storage_of_data (some d) = (d.storage_type, none)

abbrev storage_from : Option SealStatusResponse → Bytes × Option Err
storage_from none = (List.[], some (new "state has no /v1/sys/seal-status response data"))
storage_from (some s) = storage_of_data s.body

-- State.StorageType
unfoldable pub storage_type : Option State → Bytes × Option Err
storage_type none = (List.[], some err_unknown)
storage_type (some s) = storage_from s.seal_status

abbrev status_code_from : Option StatusResponse → ℕ × Option Err
status_code_from none = (status_unknown, some err_no_status)
status_code_from (some st) = (st.status_code, none)

-- State.StatusCode
unfoldable pub status_code : Option State → ℕ × Option Err
status_code none = (status_unknown, some err_unknown)
status_code (some s) = status_code_from s.status
