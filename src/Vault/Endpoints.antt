-- ===== src/Vault/Endpoints.antt =====
-- The reads of internal/remoteflight/vault that GetState makes by `vault read`: GetReplicationStatus of
-- replication.go, GetConfigStateSanitized of config_state.go, GetHostInfo of host_info.go, GetHAStatus of
-- ha_status.go, and the three of raft.go. The seven have one body, which differs by an endpoint.
pub mod Raft
pub mod Read
pub mod Laws
use terraform_provider_enos.Prelude.{false, none, some, [], Bytes, codes, String}
use terraform_provider_enos.Go.{Err, errorf, text, end, new}
use terraform_provider_enos.Vault.Responses.{
  HostInfoResponse, ConfigStateSanitizedResponse, HaStatusResponse, ReplicationDataStatus,
  ReplicationResponse,
}
use terraform_provider_enos.Vault.Endpoints.Read.{Endpoint}

abbrev pub unexpected_upper : Bytes → Err
unexpected_upper stderr = errorf "unexpected write to STDERR: %s" (text stderr end)

abbrev pub unexpected_lower : Bytes → Err
unexpected_lower stderr = errorf "unexpected write to stderr: %s" (text stderr end)

abbrev pub no_json_body : Err
no_json_body = new "no JSON body was written to STDOUT"

abbrev pub no_body_written : Err
no_body_written = new "no body was written to stdout"

-- The message in front of the error.
abbrev pub after_message : String → Err → Err
after_message message err = Err.joined (new message) err

abbrev pub new_replication_data_status : ReplicationDataStatus
new_replication_data_status = record {
  cluster_id = [];
  known_secondaries = [];
  last_wal = [];
  merkle_root = [];
  mode = [];
  secondaries = [];
}

abbrev pub new_replication_response : ReplicationResponse
new_replication_response = record {
  body = some (record {
    dr = some new_replication_data_status;
    performance = some new_replication_data_status;
  });
}

-- GetReplicationStatus, the one that takes no token and has the message last.
abbrev pub replication_status : Endpoint ReplicationResponse
replication_status = record {
  path = codes "sys/replication/status";
  token_error = none;
  stderr_error = unexpected_upper;
  no_body = no_json_body;
  failed =
      λ err. Err.joined err (new "get vault replication status: vault read sys/replication/status");
  blank = new_replication_response;
}

abbrev pub new_config_state_sanitized_response : ConfigStateSanitizedResponse
new_config_state_sanitized_response = record {
  body = some (record {
    api_addr = [];
    cache_size = [];
    cluster_addr = [];
    cluster_cipher_suites = [];
    cluster_name = [];
    default_lease_ttl = [];
    default_max_request_duration = [];
    disable_cache = false;
    disable_clustering = false;
    disable_indexing = false;
    disable_mlock = false;
    disable_performance_standby = false;
    disable_printable_check = false;
    disable_sealwrap = false;
    enable_ui = false;
    listeners = [];
    log_format = [];
    log_level = [];
    max_lease_ttl = [];
    pid_file = [];
    plugin_directory = [];
    raw_storage_endpoint = false;
    seals = [];
    storage =
        some
          (record { cluster_addr = []; disable_clustering = false; redirect_addr = []; type = [] });
  });
}

-- GetConfigStateSanitized, which returns its message alone.
abbrev pub config_state_sanitized : Endpoint ConfigStateSanitizedResponse
config_state_sanitized = record {
  path = codes "sys/config/state/sanitized";
  token_error =
      some (new "you must supply a vault token for the /v1/sys/config/state/sanitized endpoint");
  stderr_error = unexpected_lower;
  no_body = no_body_written;
  failed = λ err. new "get config state sanitized: vault read sys/config/state/sanitized";
  blank = new_config_state_sanitized_response;
}

abbrev pub new_host_info_response : HostInfoResponse
new_host_info_response = record {
  body = some (record {
    host = some (record {
      boot_time = [];
      host_id = [];
      hostname = [];
      kernel_arch = [];
      kernel_version = [];
      os = [];
      platform = [];
      platform_family = [];
      platform_version = [];
      procs = [];
      uptime = [];
      virtualization_role = [];
      virtualization_system = [];
    });
  });
}

-- GetHostInfo
abbrev pub host_info : Endpoint HostInfoResponse
host_info = record {
  path = codes "sys/host-info";
  token_error = some (new "you must supply a vault token for the /v1/sys/host-info endpoint");
  stderr_error = unexpected_upper;
  no_body = no_json_body;
  failed = after_message "get vault host info: vault read sys/host-info";
  blank = new_host_info_response;
}

abbrev pub new_ha_status_response : HaStatusResponse
new_ha_status_response = record { body = some (record { nodes = some [] }) }

-- GetHAStatus, which returns its message alone.
abbrev pub ha_status : Endpoint HaStatusResponse
ha_status = record {
  path = codes "sys/ha-status";
  token_error = some (new "you must supply a vault token for the /v1/sys/ha-status endpoint");
  stderr_error = unexpected_lower;
  no_body = no_body_written;
  failed = λ err. new "get vault ha-status: vault read sys/ha-status";
  blank = new_ha_status_response;
}
