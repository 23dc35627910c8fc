-- ===== src/Vault/Health.antt =====
-- internal/remoteflight/vault/health.go: /v1/sys/health, read through enos-flight-control, whose
-- exit code is the status that the request asked the endpoint to answer with.
pub mod Request
pub mod Laws
use terraform_provider_enos.Prelude.{
  ℕ, Bool, true, false, Option, none, some, List, [], ◌∷◌, Bytes, ◌==◌, any_of, bool_eq,
  if◌then◌else◌,
}
use terraform_provider_enos.Go.{Err, errorf, wrap, num, flag, text, end, new, join, exit_code}
use terraform_provider_enos.Transport.{Command, Output, Run, new_command}
use terraform_provider_enos.Vault.Status.{Unmarshal, error_if_empty, unmarshal_stdout}
use terraform_provider_enos.Vault.Health.Request.{
  health_initialized_unsealed_active, health_unsealed_standby,
  health_dr_replication_secondary_active, health_performance_standby, health_not_initialized,
  health_sealed, health_unknown, HealthRequest, to_string,
}

-- The license is a pointer; its fields are not read by the code that is modelled.
pub record HealthResponse : Type 0 where
  pub health_status : ℕ
  pub cluster_id : Bytes
  pub cluster_name : Bytes
  pub initialized : Bool
  pub last_wal : ℕ
  pub performance_standby : Bool
  pub replication_dr_mode : Bytes
  pub replication_performance_mode : Bytes
  pub sealed : Bool
  pub server_time_utc : ℕ
  pub standby : Bool
  pub version : Bytes

abbrev pub new_health_response : HealthResponse
new_health_response = record {
  health_status = health_unknown;
  cluster_id = [];
  cluster_name = [];
  initialized = false;
  last_wal = 0;
  performance_standby = false;
  replication_dr_mode = [];
  replication_performance_mode = [];
  sealed = false;
  server_time_utc = 0;
  standby = false;
  version = [];
}

-- The codes that a health request asks for.
abbrev pub health_statuses : List ℕ
health_statuses =
    health_initialized_unsealed_active ∷ health_unsealed_standby
    ∷ health_dr_replication_secondary_active ∷ health_performance_standby ∷ health_not_initialized
    ∷ health_sealed ∷ []

abbrev pub health_of_exit : Err → Option ℕ → ℕ × Option Err
health_of_exit err none = (health_unknown, some (wrap "err did not include exit code: %w" end err))
health_of_exit err (some code) =
    if any_of (λ s. code == s) health_statuses
    then (code, none)
    else (code, some (errorf "invalid health status: %d (%[1]s)" (num code end)))

unfoldable pub health_status_from_error : Err → ℕ × Option Err
health_status_from_error err = health_of_exit err (exit_code err)

-- The status that a failed run sets, if its code is valid.
abbrev pub set_code : ℕ × Option Err → HealthResponse → HealthResponse
set_code (code, none) res = record res { health_status = code }
set_code (code, some e) res = res

abbrev pub after_decode : Option Err → HealthResponse × Option Err → HealthResponse × Option Err
after_decode code_err (res, json_err) = (res, join code_err json_err)

-- What GetHealth makes of a run: it must have failed, since the endpoint is asked for such codes.
abbrev pub health_from_output : Unmarshal HealthResponse → Output → HealthResponse × Option Err
health_from_output un out = elim out.err [
  | none ↦ (
    new_health_response,
    some (
        errorf "received expected response, stdout: %s, stderr: %s"
          (text out.stdout (text out.stderr end))),
  )
  | some e ↦
      let code = health_status_from_error e in
      after_decode code.1 (unmarshal_stdout un out.stdout (set_code code new_health_response))
]

abbrev pub health_result : HealthResponse × Option Err → Option HealthResponse × Option Err
health_result (res, none) = (some res, none)
health_result (res, some e) =
    (none, join (some (new "get vault health: vault read sys/health")) (some e))

abbrev pub missing_argument : Option Err → HealthRequest → Option Err
missing_argument ctx_err req =
    join
      (join ctx_err (
        error_if_empty req.flight_control_path (new "you must supply an enos-flight-control path")))
      (error_if_empty req.vault_addr (new "you must supply a vault listen address"))

abbrev pub run_health :
    {W : Type 0} → Unmarshal HealthResponse → Output × W → Option HealthResponse × Option Err × W
run_health un (out, w) = let (res, err) = health_result (health_from_output un out) in (res, err, w)

abbrev pub health_unless :
    {W : Type 0}
    → Option Err
    → Unmarshal HealthResponse
    → Run W
    → Command
    → W
    → Option HealthResponse × Option Err × W
health_unless (some e) un tr cmd w =
    (none, join (some (new "get vault health: vault read sys/health")) (some e), w)
health_unless none un tr cmd w = run_health un (tr cmd w)

-- GetHealth: `ctx_err` is ctx.Err() where the context is done.
unfoldable pub get_health :
    {W : Type 0}
    → Unmarshal HealthResponse
    → Run W
    → Option Err
    → HealthRequest
    → W
    → Option HealthResponse × Option Err × W
unfolding health_status_from_error to_string
get_health un tr ctx_err req w =
    health_unless (missing_argument ctx_err req) un tr (new_command (to_string req)) w

-- HealthResponse.StatusIsOneOf
unfoldable pub status_is_one_of : HealthResponse → List ℕ → Bool
status_is_one_of r [] = false
status_is_one_of r (s ∷ statuses) = any_of (λ t. t == r.health_status) (s ∷ statuses)

-- HealthResponse.IsSealed, on a pointer that may be nil.
unfoldable pub is_sealed : Option HealthResponse → Bool × Option Err
unfolding status_is_one_of
is_sealed none = (true, some (new "health status is unknown"))
is_sealed (some r) =
    let status_sealed = status_is_one_of r (health_not_initialized ∷ health_sealed ∷ []) in
    if bool_eq r.sealed status_sealed then (status_sealed, none) else (
      true,
      some (
          errorf "health status does not match status code, expected sealed=%t, got sealed=%t"
            (flag status_sealed (flag r.sealed end))),
    )
