-- ===== src/Vault/Responses.antt =====
-- The responses of the Vault endpoints: config_state.go, ha_status.go, host_info.go, raft.go and
-- replication.go of internal/remoteflight/vault, field by field. The field Data is `body`; a pointer
-- is an `Option`; a json.Number and a json.RawMessage are their text; a map is an association list in
-- the order of an iteration. A slice that the code compares with nil is an `Option` of a list.
use terraform_provider_enos.Prelude.{Bool, Option, List, Bytes}

pub record HostInfoHost : Type 0 where
  pub boot_time : Bytes
  pub host_id : Bytes
  pub hostname : Bytes
  pub kernel_arch : Bytes
  pub kernel_version : Bytes
  pub os : Bytes
  pub platform : Bytes
  pub platform_family : Bytes
  pub platform_version : Bytes
  pub procs : Bytes
  pub uptime : Bytes
  pub virtualization_role : Bytes
  pub virtualization_system : Bytes

pub record HostInfoData : Type 0 where
  pub host : Option HostInfoHost

pub record HostInfoResponse : Type 0 where
  pub body : Option HostInfoData

pub record ConfigListenerConfig : Type 0 where
  pub address : Bytes
  pub tls_disable : Bytes

pub record ConfigListener : Type 0 where
  pub config : Option ConfigListenerConfig
  pub type : Bytes

pub record ConfigSeals : Type 0 where
  pub disabled : Bool
  pub type : Bytes

pub record ConfigStorage : Type 0 where
  pub cluster_addr : Bytes
  pub disable_clustering : Bool
  pub redirect_addr : Bytes
  pub type : Bytes

pub record ConfigStateSanitizedResponseData : Type 0 where
  pub api_addr : Bytes
  pub cache_size : Bytes
  pub cluster_addr : Bytes
  pub cluster_cipher_suites : Bytes
  pub cluster_name : Bytes
  pub default_lease_ttl : Bytes
  pub default_max_request_duration : Bytes
  pub disable_cache : Bool
  pub disable_clustering : Bool
  pub disable_indexing : Bool
  pub disable_mlock : Bool
  pub disable_performance_standby : Bool
  pub disable_printable_check : Bool
  pub disable_sealwrap : Bool
  pub enable_ui : Bool
  pub listeners : List (Option ConfigListener)
  pub log_format : Bytes
  pub log_level : Bytes
  pub max_lease_ttl : Bytes
  pub pid_file : Bytes
  pub plugin_directory : Bytes
  pub raw_storage_endpoint : Bool
  pub seals : List (Option ConfigSeals)
  pub storage : Option ConfigStorage

pub record ConfigStateSanitizedResponse : Type 0 where
  pub body : Option ConfigStateSanitizedResponseData

pub record HaStatusNode : Type 0 where
  pub active_node : Bool
  pub api_address : Bytes
  pub cluster_address : Bytes
  pub hostname : Bytes
  pub last_echo : Bytes
  pub version : Bytes
  pub redundancy_zone : Bytes
  pub upgrade_version : Bytes

pub record HaStatusData : Type 0 where
  pub nodes : Option (List (Option HaStatusNode))

pub record HaStatusResponse : Type 0 where
  pub body : Option HaStatusData

pub record ReplicationSecondary : Type 0 where
  pub api_address : Bytes
  pub cluster_address : Bytes
  pub connection_status : Bytes
  pub last_heartbeat : Bytes
  pub node_id : Bytes

pub record ReplicationDataStatus : Type 0 where
  pub cluster_id : Bytes
  pub known_secondaries : List Bytes
  pub last_wal : Bytes
  pub merkle_root : Bytes
  pub mode : Bytes
  pub secondaries : List (Option ReplicationSecondary)

pub record ReplicationData : Type 0 where
  pub dr : Option ReplicationDataStatus
  pub performance : Option ReplicationDataStatus

pub record ReplicationResponse : Type 0 where
  pub body : Option ReplicationData

pub record RaftConfigurationServer : Type 0 where
  pub address : Bytes
  pub leader : Bool
  pub node_id : Bytes
  pub protocol_version : Bytes
  pub voter : Bool

pub record RaftConfigurationDataConfig : Type 0 where
  pub index : Bytes
  pub servers : List (Option RaftConfigurationServer)

pub record RaftConfigurationData : Type 0 where
  pub config : Option RaftConfigurationDataConfig

pub record RaftConfigurationResponse : Type 0 where
  pub body : Option RaftConfigurationData

pub record RaftAutopilotConfigurationData : Type 0 where
  pub cleanup_dead_servers : Bool
  pub dead_server_last_contact_threshold : Bytes
  pub last_contact_threshold : Bytes
  pub max_trailing_logs : Bytes
  pub min_quorum : Bytes
  pub server_stabilization_time : Bytes
  pub disable_upgrade_migration : Bool

pub record RaftAutopilotConfigurationResponse : Type 0 where
  pub body : Option RaftAutopilotConfigurationData

pub record RaftAutopilotStateRedundancyZone : Type 0 where
  pub servers : List Bytes
  pub voters : List Bytes
  pub failure_tolerance : Bytes

pub record RaftAutopilotStateServer : Type 0 where
  pub id : Bytes
  pub name : Bytes
  pub address : Bytes
  pub node_status : Bytes
  pub last_contact : Bytes
  pub last_term : Bytes
  pub healthy : Bool
  pub stable_since : Bytes
  pub status : Bytes
  pub meta : Bytes

pub record RaftAutopilotStateUpgradeInfoRedundancyZone : Type 0 where
  pub target_version_non_voters : List Bytes
  pub other_version_voters : List Bytes
  pub other_version_non_voters : List Bytes

pub record RaftAutopilotStateUpgradeInfo : Type 0 where
  pub other_version_non_voters : List Bytes
  pub other_version_voters : List Bytes
  pub redundancy_zones : List (Bytes × Option RaftAutopilotStateUpgradeInfoRedundancyZone)
  pub status : Bytes
  pub target_version : Bytes
  pub target_version_non_voters : List Bytes

pub record RaftAutopilotStateResponseData : Type 0 where
  pub healthy : Bool
  pub failure_tolerance : Bytes
  pub leader : Bytes
  pub optimistic_failure_tolerance : Bytes
  pub redundancy_zones : List (Bytes × Option RaftAutopilotStateRedundancyZone)
  pub servers : List (Bytes × Option RaftAutopilotStateServer)
  pub upgrade_info : Option RaftAutopilotStateUpgradeInfo
  pub voters : List Bytes
  pub non_voters : List Bytes

pub record RaftAutopilotStateResponse : Type 0 where
  pub body : Option RaftAutopilotStateResponseData
