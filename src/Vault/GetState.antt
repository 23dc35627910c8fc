-- ===== src/Vault/GetState.antt =====
-- GetState of internal/remoteflight/vault/state.go: how the state of a node is put together from what
-- the target answers. The readers are an interface over the state `W` of the target, which NodeReaders
-- fills but for the context, the process manager, the pods and the installation.
pub mod Guards
pub mod Privileged
use terraform_provider_enos.Prelude.{
  Bool, true, false, Option, none, some, [], ◌∷◌, Bytes, codes, bytes_eq, if◌then◌else◌, not,
}
use terraform_provider_enos.Go.{Err, wrap, end, new, Ran, returned, panicked}
use terraform_provider_enos.Stages.{
  Read, Progress, proceed, finish, crash, Result, as_is, ◌then◌, fetch, value, value_of, result_of,
}
use terraform_provider_enos.Systemd.Properties.{UnitProperties}
use terraform_provider_enos.Vault.Responses.{
  RaftAutopilotConfigurationResponse, RaftAutopilotStateResponse, RaftConfigurationResponse,
  ConfigStateSanitizedResponse, ReplicationResponse, HaStatusResponse, HostInfoResponse,
}
use terraform_provider_enos.Vault.Status.{StatusResponse}
use terraform_provider_enos.Vault.SealStatus.{SealStatusResponse}
use terraform_provider_enos.Vault.Health.{HealthResponse, status_is_one_of}
use terraform_provider_enos.Vault.Health.Request.{
  health_initialized_unsealed_active, health_dr_replication_secondary_active,
}
use terraform_provider_enos.Vault.State.{
  State, ListPodsResponse, new_state, is_initialized, is_sealed, replication_enabled, ha_enabled,
  storage_type,
}

-- The fields of a StateRequest that GetState itself reads.
pub record StateRequest : Type 0 where
  pub token : Bytes
  pub flight_control_path : Bytes
  pub flight_control_use_home_dir : Bool
  pub systemd_unit_name : Bytes

-- What GetState reads of the target. `list_pods` is there if the transport is the one for Kubernetes;
-- enos-flight-control is installed at a path, or in the home directory where there is none.
pub record Readers (W : Type 0) : Type 0 where
  pub ctx_err : W → Option Err
  pub process_manager : Read W Bytes
  pub show_properties : Bytes → Read W UnitProperties
  pub list_pods : Option (Read W (Option ListPodsResponse))
  pub status : Read W (Option StatusResponse)
  pub install_flight_control : Option Bytes → Read W Bytes
  pub seal_status : Bytes → Read W (Option SealStatusResponse)
  pub health : Bytes → Read W (Option HealthResponse)
  pub replication_status : Read W (Option ReplicationResponse)
  pub config_sanitized : Read W (Option ConfigStateSanitizedResponse)
  pub host_info : Read W (Option HostInfoResponse)
  pub ha_status : Read W (Option HaStatusResponse)
  pub raft_config : Read W (Option RaftConfigurationResponse)
  pub autopilot_config : Read W (Option RaftAutopilotConfigurationResponse)
  pub autopilot_state : Read W (Option RaftAutopilotStateResponse)

abbrev pub GetStateResult : Type 0 → Type 0
GetStateResult W = Result State W

module _ {W : Type 0} where
  module _ (readers : Readers W) (req : StateRequest) where
    abbrev pub pods_stage : Option (Read W (Option ListPodsResponse)) → State → W → Progress State W
    pods_stage none s w =
        finish s (some (new "getting the kubernetes pods state: type mismatch between transport")) w
    pods_stage (some list_pods) s w =
        fetch (list_pods w) (λ r. record s { pod_list = r })
          (λ e. wrap "getting the kubernetes pod information: %w" end e)

    -- The switch on the process manager.
    unfoldable pub by_process_manager : Bytes → State → W → Progress State W
    by_process_manager manager s w =
        if bytes_eq manager (codes "systemd")
        then fetch (readers.show_properties req.systemd_unit_name w)
            (λ r. record s { unit_properties = r })
            (λ e. wrap "getting the systemd unit properties: %w" end e)
        else if bytes_eq manager (codes "kubernetes")
        then pods_stage readers.list_pods s w
        else proceed s w

    unfoldable pub process_stage : State → W → Progress State W
    unfolding by_process_manager
    process_stage s w =
        value_of s (readers.process_manager w)
          (λ e. wrap "getting vault state: unable to determine target process manager: %w" end e)
          (λ manager w. by_process_manager manager s w)

    unfoldable pub status_stage : State → W → Progress State W
    status_stage s w = fetch (readers.status w) (λ r. record s { status = r }) as_is

    -- The two endpoints that enos-flight-control reads.
    unfoldable pub endpoints_stage : State → W → Progress State W
    endpoints_stage s w =
        value_of s
          (readers.install_flight_control
            (if req.flight_control_use_home_dir then none else some req.flight_control_path) w)
          (λ e. wrap "getting vault state: failed to install enos-flight-control binary: %w" end e)
          λ path w.
            fetch (readers.seal_status path w) (λ r. record s { seal_status = r }) as_is then λ s w.
            fetch (readers.health path w) (λ r. record s { health = r }) as_is

    -- A node that is not initialized, or is sealed, answers nothing more.
    unfoldable pub seal_stage : State → W → Progress State W
    unfolding is_initialized is_sealed
    seal_stage s w = value s w (is_initialized (some s)) λ initialized.
        if not initialized
        then finish s none w
        else value s w (is_sealed (some s))
            λ sealed. if sealed then finish s none w else proceed s w

    abbrev pub is_active : Option HealthResponse → Ran Bool
    is_active none = panicked
    is_active (some h) = returned (
        status_is_one_of h
          (health_initialized_unsealed_active ∷ health_dr_replication_secondary_active ∷ []))

    abbrev pub replication_if : State → W → Ran Bool → Progress State W
    replication_if s w panicked = crash
    replication_if s w (returned false) = proceed s w
    replication_if s w (returned true) =
        fetch (readers.replication_status w) (λ r. record s { replication_status = r }) as_is

    unfoldable pub replication_stage : State → W → Progress State W
    unfolding replication_enabled status_is_one_of
    replication_stage s w =
        value s w (replication_enabled (some s))
          λ enabled. replication_if s w (if enabled then is_active s.health else returned false)

    abbrev pub token_stage_of : Bytes → State → W → Progress State W
    token_stage_of [] s w = finish s none w
    token_stage_of (_ ∷ _) s w = proceed s w

    -- What follows needs a token.
    unfoldable pub token_stage : State → W → Progress State W
    token_stage s w = token_stage_of req.token s w

    abbrev pub ha_if : State → W → Bool → Progress State W
    ha_if s w false = proceed s w
    ha_if s w true = fetch (readers.ha_status w) (λ r. record s { ha_status = r }) as_is

    unfoldable pub config_stage : State → W → Progress State W
    unfolding ha_enabled
    config_stage s w =
        fetch (readers.config_sanitized w) (λ r. record s { config_sanitized = r }) as_is
        then (λ s w. fetch (readers.host_info w) (λ r. record s { host_info = r }) as_is)
        then λ s w. value s w (ha_enabled (some s)) (ha_if s w)

    abbrev pub raft_if : State → W → Bool → Progress State W
    raft_if s w false = proceed s w
    raft_if s w true =
        fetch (readers.raft_config w) (λ r. record s { raft_config = r }) as_is
        then (λ s w.
            fetch (readers.autopilot_config w) (λ r. record s { autopilot_config = r }) as_is)
        then λ s w. fetch (readers.autopilot_state w) (λ r. record s { autopilot_state = r }) as_is

    unfoldable pub raft_stage : State → W → Progress State W
    unfolding storage_type
    raft_stage s w =
        value s w (storage_type (some s)) λ storage. raft_if s w (bytes_eq storage (codes "raft"))

    -- The stages in their order.
    unfoldable pub stages : W → Progress State W
    unfolding process_stage status_stage endpoints_stage seal_stage replication_stage token_stage
        config_stage raft_stage
    stages w =
        process_stage new_state w
        then status_stage
        then endpoints_stage
        then seal_stage
        then replication_stage
        then token_stage
        then config_stage
        then raft_stage

    abbrev pub get_state_unless : Option Err → W → GetStateResult W
    get_state_unless (some e) w = returned (none, some (wrap "getting vault state: %w" end e), w)
    get_state_unless none w = result_of (stages w)

    -- GetState
    unfoldable pub get_state : W → GetStateResult W
    unfolding stages
    get_state w = get_state_unless (readers.ctx_err w) w
