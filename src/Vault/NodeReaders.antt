-- ===== src/Vault/NodeReaders.antt =====
-- The readers of GetState that are modelled: ShowProperties, GetStatus, GetSealStatus, GetHealth and the
-- reads by `vault read` over one transport, put into an interface whose other fields are given.
use terraform_provider_enos.Transport.{Run}
use terraform_provider_enos.Systemd.Client.{show_properties}
use terraform_provider_enos.Vault.Status.{CliRequest, StatusResponse, Unmarshal, get_status}
use terraform_provider_enos.Vault.SealStatus.{Decoders, get_seal_status}
use terraform_provider_enos.Vault.Health.{HealthResponse, get_health}
use terraform_provider_enos.Vault.Health.Request.{new_health_request}
use terraform_provider_enos.Vault.GetState.{Readers}
use terraform_provider_enos.Vault.Responses.{
  HostInfoResponse, ConfigStateSanitizedResponse, HaStatusResponse, ReplicationResponse,
  RaftConfigurationResponse, RaftAutopilotConfigurationResponse, RaftAutopilotStateResponse,
}
use terraform_provider_enos.Vault.Endpoints.{
  replication_status, config_state_sanitized, host_info, ha_status,
}
use terraform_provider_enos.Vault.Endpoints.Raft.{
  raft_configuration, raft_autopilot_configuration, raft_autopilot_state,
}
use terraform_provider_enos.Vault.Endpoints.Read.{read_endpoint}
use terraform_provider_enos.Prelude.{[]}

pub record NodeDecoders : Type 0 where
  pub status : Unmarshal StatusResponse
  pub seal_status : Decoders
  pub health : Unmarshal HealthResponse

module _ {W : Type 0} where
  unfoldable pub node_readers : NodeDecoders → Run W → CliRequest → Readers W → Readers W
  unfolding show_properties get_status get_seal_status get_health new_health_request
  node_readers un tr cli others = record others {
    show_properties = λ unit w. show_properties tr unit w;
    status = λ w. get_status un.status tr (others.ctx_err w) cli w;
    seal_status = λ path w.
        get_seal_status un.seal_status tr (others.ctx_err w)
          (record { vault_addr = cli.vault_addr; flight_control_path = path }) w;
    health = λ path w.
        get_health un.health tr (others.ctx_err w) (new_health_request path cli.vault_addr) w;
  }

-- The decoders of the bodies that `vault read` prints.
pub record EndpointDecoders : Type 0 where
  pub replication_body : Unmarshal ReplicationResponse
  pub config_body : Unmarshal ConfigStateSanitizedResponse
  pub host_body : Unmarshal HostInfoResponse
  pub ha_body : Unmarshal HaStatusResponse
  pub raft_body : Unmarshal RaftConfigurationResponse
  pub autopilot_body : Unmarshal RaftAutopilotConfigurationResponse
  pub autopilot_state_body : Unmarshal RaftAutopilotStateResponse

-- The reads by `vault read`; the one of the replication is given no token.
unfoldable pub endpoint_readers :
    {W : Type 0} → EndpointDecoders → Run W → CliRequest → Readers W → Readers W
unfolding read_endpoint
endpoint_readers un tr cli others = record others {
  replication_status = λ w.
      read_endpoint replication_status un.replication_body tr (others.ctx_err w)
        (record cli { token = [] }) w;
  config_sanitized =
      λ w. read_endpoint config_state_sanitized un.config_body tr (others.ctx_err w) cli w;
  host_info = λ w. read_endpoint host_info un.host_body tr (others.ctx_err w) cli w;
  ha_status = λ w. read_endpoint ha_status un.ha_body tr (others.ctx_err w) cli w;
  raft_config = λ w. read_endpoint raft_configuration un.raft_body tr (others.ctx_err w) cli w;
  autopilot_config =
      λ w. read_endpoint raft_autopilot_configuration un.autopilot_body tr (others.ctx_err w) cli w;
  autopilot_state =
      λ w. read_endpoint raft_autopilot_state un.autopilot_state_body tr (others.ctx_err w) cli w;
}
