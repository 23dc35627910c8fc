-- ===== src/Vault/Health/Request.antt =====
-- internal/remoteflight/vault/health.go: the status codes, the request that asks for them, and its command.
use terraform_provider_enos.Prelude.{ℕ, Bool, false, ◌++◌, Bytes, codes, ◌==◌, if◌then◌else◌}
use terraform_provider_enos.Go.{bool_text, decimal}

-- HealthStatus, an int that is not negative.
abbrev pub health_initialized_unsealed_active : ℕ
health_initialized_unsealed_active = 230

abbrev pub health_unsealed_standby : ℕ
health_unsealed_standby = 231

abbrev pub health_dr_replication_secondary_active : ℕ
health_dr_replication_secondary_active = 232

abbrev pub health_performance_standby : ℕ
health_performance_standby = 233

abbrev pub health_not_initialized : ℕ
health_not_initialized = 234

abbrev pub health_sealed : ℕ
health_sealed = 235

abbrev pub health_unknown : ℕ
health_unknown = 9

abbrev pub replication_mode_unset : Bytes
replication_mode_unset = codes ""

abbrev pub replication_mode_unknown : Bytes
replication_mode_unknown = codes "unknown"

abbrev pub replication_mode_disabled : Bytes
replication_mode_disabled = codes "disabled"

abbrev pub replication_mode_primary : Bytes
replication_mode_primary = codes "primary"

abbrev pub replication_mode_secondary : Bytes
replication_mode_secondary = codes "secondary"

-- HealthStatus.String
unfoldable pub health_status_to_string : ℕ → Bytes
health_status_to_string s =
    if s == health_initialized_unsealed_active
    then codes "initialized-unsealed-active"
    else if s == health_unsealed_standby
    then codes "unsealed-standby"
    else if s == health_dr_replication_secondary_active
    then codes "dr-replication-secondary-active"
    else if s == health_performance_standby
    then codes "performance-standby"
    else if s == health_not_initialized
    then codes "not-initialized"
    else if s == health_sealed
    then codes "sealed"
    else if s == health_unknown
    then codes "unknown"
    else codes "undefined"

pub record HealthRequest : Type 0 where
  pub vault_addr : Bytes
  pub flight_control_path : Bytes
  pub standby_ok : Bool
  pub perf_standby_ok : Bool
  pub active_code : ℕ
  pub standby_code : ℕ
  pub dr_secondary_code : ℕ
  pub performance_standby_code : ℕ
  pub sealed_code : ℕ
  pub un_init_code : ℕ

-- NewHealthRequest with the path and the address that its options set.
unfoldable pub new_health_request : Bytes → Bytes → HealthRequest
new_health_request path addr = record {
  vault_addr = addr;
  flight_control_path = path;
  standby_ok = false;
  perf_standby_ok = false;
  active_code = health_initialized_unsealed_active;
  standby_code = health_unsealed_standby;
  dr_secondary_code = health_dr_replication_secondary_active;
  performance_standby_code = health_performance_standby;
  sealed_code = health_sealed;
  un_init_code = health_not_initialized;
}

-- HealthRequest.String
unfoldable pub to_string : HealthRequest → Bytes
unfolding decimal
to_string r =
    r.flight_control_path
    ++ (codes " download --exit-with-status-code --stdout --url '"
        ++ (r.vault_addr
            ++ (codes "/v1/sys/health?standbyok="
                ++ (bool_text r.standby_ok
                    ++ (codes "&perfstandbyok="
                        ++ (bool_text r.perf_standby_ok
                            ++ (codes "&activecode="
                                ++ (decimal r.active_code
                                    ++ (codes "&standbycode="
                                        ++ (decimal r.standby_code
                                            ++ (codes "&drsecondarycode="
                                                ++ (decimal r.dr_secondary_code
                                                    ++ (codes "&performancestandbycode="
                                                        ++ (decimal r.performance_standby_code
                                                            ++ (codes "&sealedcode="
                                                            ++ (decimal r.sealed_code
                                                            ++ (codes "&uninitcode="
                                                            ++ (decimal r.un_init_code
                                                            ++ codes "'"))))))))))))))))))
