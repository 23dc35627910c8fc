-- ===== src/Vault/Endpoints/Raft.antt =====
-- internal/remoteflight/vault/raft.go: GetRaftConfiguration, GetRaftAutopilotConfiguration and
-- GetRaftAutopilotState.
use terraform_provider_enos.Prelude.{false, some, [], codes}
use terraform_provider_enos.Go.{new}
use terraform_provider_enos.Vault.Responses.{
  RaftConfigurationResponse, RaftAutopilotConfigurationResponse, RaftAutopilotStateResponse,
}
use terraform_provider_enos.Vault.Endpoints.Read.{Endpoint}
use terraform_provider_enos.Vault.Endpoints.{after_message, unexpected_upper, no_json_body}

abbrev pub new_raft_configuration_response : RaftConfigurationResponse
new_raft_configuration_response = record {
  body = some (record { config = some (record { index = []; servers = [] }) });
}

-- GetRaftConfiguration
abbrev pub raft_configuration : Endpoint RaftConfigurationResponse
raft_configuration = record {
  path = codes "sys/storage/raft/configuration";
  token_error =
      some
        (new "you must supply a vault token for the /v1/sys/storage/raft/configuration endpoint");
  stderr_error = unexpected_upper;
  no_body = no_json_body;
  failed = after_message "get vault raft configuration: vault read sys/storage/raft/configuration";
  blank = new_raft_configuration_response;
}

abbrev pub new_raft_autopilot_configuration_response : RaftAutopilotConfigurationResponse
new_raft_autopilot_configuration_response = record {
  body = some (record {
    cleanup_dead_servers = false;
    dead_server_last_contact_threshold = [];
    last_contact_threshold = [];
    max_trailing_logs = [];
    min_quorum = [];
    server_stabilization_time = [];
    disable_upgrade_migration = false;
  });
}

-- GetRaftAutopilotConfiguration
abbrev pub raft_autopilot_configuration : Endpoint RaftAutopilotConfigurationResponse
raft_autopilot_configuration = record {
  path = codes "sys/storage/raft/autopilot/configuration";
  token_error = some (
      new
        "you must supply a vault token for the /v1/sys/storage/raft/autopilot/configuration endpoint");
  stderr_error = unexpected_upper;
  no_body = no_json_body;
  failed =
      after_message
        "get vault autopilot configuration: vault read sys/storage/raft/autopilot/configuration";
  blank = new_raft_autopilot_configuration_response;
}

abbrev pub new_raft_autopilot_state_response : RaftAutopilotStateResponse
new_raft_autopilot_state_response = record {
  body = some (record {
    healthy = false;
    failure_tolerance = [];
    leader = [];
    optimistic_failure_tolerance = [];
    redundancy_zones = [];
    servers = [];
    upgrade_info = some (record {
      other_version_non_voters = [];
      other_version_voters = [];
      redundancy_zones = [];
      status = [];
      target_version = [];
      target_version_non_voters = [];
    });
    voters = [];
    non_voters = [];
  });
}

-- GetRaftAutopilotState
abbrev pub raft_autopilot_state : Endpoint RaftAutopilotStateResponse
raft_autopilot_state = record {
  path = codes "sys/storage/raft/autopilot/state";
  token_error =
      some
        (new "you must supply a vault token for the /v1/sys/storage/raft/autopilot/state endpoint");
  stderr_error = unexpected_upper;
  no_body = no_json_body;
  failed = after_message "get vault autopilot state: vault read sys/storage/raft/autopilot/state";
  blank = new_raft_autopilot_state_response;
}
