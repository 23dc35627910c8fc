-- ===== src/Tests/Samples.antt =====
-- Concrete nodes, pods and servers for the runs.
use terraform_provider_enos.Prelude.{
  ℕ, suc, Bool, true, false, Option, none, some, List, [], ◌∷◌, Bytes, codes, bytes_eq,
  if◌then◌else◌,
}
use terraform_provider_enos.Go.{Err, exec_error, new}
use terraform_provider_enos.Transport.{Output, Run}
use terraform_provider_enos.Systemd.Properties.{enabled_and_running_properties}
use terraform_provider_enos.Vault.Responses.{
  RaftConfigurationServer, RaftConfigurationDataConfig, RaftAutopilotStateServer,
}
use terraform_provider_enos.Vault.Status.{StatusResponse, CliRequest, Unmarshal}
use terraform_provider_enos.Vault.SealStatus.{SealStatusResponse, new_seal_status_response_data}
use terraform_provider_enos.Vault.Health.{HealthResponse, new_health_response}
use terraform_provider_enos.Vault.Health.Request.{health_initialized_unsealed_active, health_sealed}
use terraform_provider_enos.Vault.State.{State, Pod, ContainerStatus, new_state}
use terraform_provider_enos.Vault.GetState.{Readers, StateRequest}
use terraform_provider_enos.Vault.NodeReaders.{NodeDecoders}

abbrev pub status_body : Bool → StatusResponse → StatusResponse
status_body sealed s = record s { initialized = true; sealed = sealed; ha_enabled = true }

abbrev pub status_decoder : Bool → Unmarshal StatusResponse
status_decoder sealed bytes s = (status_body sealed s, none)

abbrev pub health_body : Bool → HealthResponse → HealthResponse
health_body sealed h = record h {
  initialized = true;
  sealed = sealed;
  replication_dr_mode = codes "disabled";
}

abbrev pub health_decoder : Bool → Unmarshal HealthResponse
health_decoder sealed bytes h = (health_body sealed h, none)

abbrev pub seal_body : Bool → SealStatusResponse
seal_body sealed = record {
  body = some (record new_seal_status_response_data {
    sealed = sealed;
    storage_type = codes "raft";
    type = codes "shamir";
  });
}

abbrev pub decoders : Bool → NodeDecoders
decoders sealed = record {
  status = status_decoder sealed;
  seal_status = record {
    response = λ bytes s. (seal_body sealed, none);
    response_data = λ bytes d. (d, none);
  };
  health = health_decoder sealed;
}

abbrev pub cli : CliRequest
cli = record {
  vault_addr = codes "http://127.0.0.1:8200";
  token = codes "root";
  bin_path = codes "vault";
}

abbrev pub output : Bytes → Option Err → Output
output stdout err = record { stdout = stdout; stderr = []; err = err }

-- A transport to a node, which counts its runs.
abbrev pub node : Bool → Run ℕ
node sealed command n = (
  if bytes_eq command.cmd (codes "vault status -format=json")
      then output (codes "{}") (if sealed then some (exec_error 2 (new "exit")) else none)
      else if bytes_eq command.cmd
          (codes "fc download --stdout --url 'http://127.0.0.1:8200/v1/sys/seal-status'")
      then output (codes "{}") none
      else output (codes "{}") (
          some (
            exec_error (if sealed then health_sealed else health_initialized_unsealed_active)
              (new "exit"))),
  suc n,
)

-- The readers that are not modelled, on a node without systemd or Kubernetes.
abbrev pub other_readers : Readers ℕ
other_readers = record {
  ctx_err = λ w. none;
  process_manager = λ w. (codes "nomad", none, w);
  show_properties = λ unit w. ([], none, w);
  list_pods = none;
  status = λ w. (none, none, w);
  install_flight_control = λ path w. (codes "fc", none, w);
  seal_status = λ path w. (none, none, w);
  health = λ path w. (none, none, w);
  replication_status = λ w. (none, none, w);
  config_sanitized = λ w. (some (record { body = none }), none, w);
  host_info = λ w. (some (record { body = none }), none, w);
  ha_status = λ w. (some (record { body = none }), none, w);
  raft_config = λ w. (some (record { body = none }), none, w);
  autopilot_config = λ w. (some (record { body = none }), none, w);
  autopilot_state = λ w. (some (record { body = none }), none, w);
}

abbrev pub request : StateRequest
request = record {
  token = codes "root";
  flight_control_path = codes "fc";
  flight_control_use_home_dir = false;
  systemd_unit_name = codes "vault";
}

abbrev pub status_of_node : Bool → StatusResponse
status_of_node sealed = record {
  status_code = if sealed then 2 else 0;
  seal_type = [];
  initialized = true;
  sealed = sealed;
  version = [];
  ha_enabled = true;
}

abbrev pub health_of_node : Bool → HealthResponse
health_of_node sealed = health_body sealed (record new_health_response {
  health_status = if sealed then health_sealed else health_initialized_unsealed_active;
})

abbrev pub container : Bytes → Bool → ContainerStatus
container name ready = record { name = name; ready = ready }

abbrev pub pod : Bytes → Bytes → List ContainerStatus → Pod
pod name phase statuses = record {
  name = name;
  phase = phase;
  message = [];
  reason = [];
  container_statuses = some statuses;
}

abbrev pub running : Pod
running =
    pod (codes "vault-0") (codes "Running")
      (container (codes "vault") true ∷ container (codes "agent") false ∷ [])

abbrev pub state_of_node : Bool → State
state_of_node sealed = record new_state {
  status = some (status_of_node sealed);
  health = some (health_of_node sealed);
  seal_status = some (seal_body sealed);
  pod_list = some (record { pods = some (record { items = some (running ∷ []) }) });
  unit_properties = enabled_and_running_properties;
}

abbrev pub server : Bool → Bool → RaftConfigurationServer
server leader voter = record {
  address = codes "127.0.0.1:8201";
  leader = leader;
  node_id = codes "node_1";
  protocol_version = codes "3";
  voter = voter;
}

abbrev pub servers : List RaftConfigurationServer
servers = server true true ∷ server false true ∷ server false false ∷ []

abbrev pub raft : RaftConfigurationDataConfig
raft = record {
  index = codes "0";
  servers = some (server true true) ∷ some (server false true) ∷ some (server false false) ∷ [];
}

abbrev pub raft_state : State
raft_state = record new_state {
  raft_config = some (record { body = some (record { config = some raft }) });
}

abbrev pub autopilot_server : Bytes → Bytes → RaftAutopilotStateServer
autopilot_server name status = record {
  id = name;
  name = name;
  address = codes "127.0.0.1:8201";
  node_status = codes "alive";
  last_contact = codes "0s";
  last_term = codes "3";
  healthy = true;
  stable_since = [];
  status = status;
  meta = [];
}
