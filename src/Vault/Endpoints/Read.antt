-- ===== src/Vault/Endpoints/Read.antt =====
-- The body that the reads of internal/remoteflight/vault by `vault read` share, as they are in replication.go,
-- config_state.go, host_info.go, ha_status.go and raft.go.
use terraform_provider_enos.Prelude.{Option, none, some, ◌++◌, Bytes, codes}
use terraform_provider_enos.Go.{Err, new, join}
use terraform_provider_enos.Transport.{Command, Run, new_command, with_env_var}
use terraform_provider_enos.Vault.Status.{CliRequest}
use terraform_provider_enos.Bodies.{Unmarshal, error_if_empty, body_of}

-- What the seven differ by: the path, the error for a token that is missing where one is needed, those
-- of the output, and how the error that is returned has the one that was found.
pub record Endpoint (A : Type 0) : Type 0 where
  pub path : Bytes
  pub token_error : Option Err
  pub stderr_error : Bytes → Err
  pub no_body : Err
  pub failed : Err → Err
  pub blank : A

abbrev pub token_needed : Option Err → Bytes → Option Err
token_needed none token = none
token_needed (some e) token = error_if_empty token e

abbrev pub with_token : Option Err → Bytes → Command → Command
with_token none token c = c
with_token (some e) token c = with_env_var (codes "VAULT_TOKEN") token c

abbrev pub with_target : {A W : Type 0} → Option A × Option Err → W → Option A × Option Err × W
with_target (res, x) w = (res, x, w)

module _ {A : Type 0} (e : Endpoint A) where
  abbrev pub missing_argument : Option Err → CliRequest → Option Err
  missing_argument ctx_err req =
      join
        (join (join ctx_err (error_if_empty req.bin_path (new "you must supply a vault bin path")))
          (error_if_empty req.vault_addr (new "you must supply a vault listen address")))
        (token_needed e.token_error req.token)

  abbrev pub read_command : CliRequest → Command
  read_command req = with_token e.token_error req.token (
      with_env_var (codes "VAULT_ADDR") req.vault_addr
        (new_command (req.bin_path ++ (codes " read -format=json " ++ e.path))))

  abbrev pub endpoint_result : A × Option Err → Option A × Option Err
  endpoint_result (res, none) = (some res, none)
  endpoint_result (res, some x) = (none, some (e.failed x))

  module _ {W : Type 0} (un : Unmarshal A) (tr : Run W) where
    abbrev pub unless_missing : Option Err → CliRequest → W → Option A × Option Err × W
    unless_missing (some x) req w = (none, some (e.failed x), w)
    unless_missing none req w =
        let (out, w') = tr (read_command req) w in
        with_target (endpoint_result (body_of e.stderr_error e.no_body un e.blank out)) w'

    -- The body that the seven share; `ctx_err` is ctx.Err() where the context is done.
    unfoldable pub read_endpoint : Option Err → CliRequest → W → Option A × Option Err × W
    read_endpoint ctx_err req w = unless_missing (missing_argument ctx_err req) req w
