-- ===== src/Vault/Status.antt =====
-- internal/remoteflight/vault/status.go: `vault status`, whose exit code tells the seal status.
pub mod Laws
use terraform_provider_enos.Prelude.{
  ℕ, Bool, true, false, Option, none, some, [], ◌∷◌, ◌++◌, Bytes, codes, ◌==◌, ◌||◌, if◌then◌else◌,
}
use terraform_provider_enos.Go.{Err, errorf, wrap, num, text, end, new, join, exit_code}
pub use terraform_provider_enos.Bodies.{Unmarshal, error_if_empty, error_unless_empty}
use terraform_provider_enos.Transport.{Command, Output, Run, new_command, with_env_var}

-- StatusCode, an int that is not negative: the exit code of `vault status`.
abbrev pub status_initialized_unsealed : ℕ
status_initialized_unsealed = 0

abbrev pub status_error : ℕ
status_error = 1

abbrev pub status_sealed : ℕ
status_sealed = 2

abbrev pub status_unknown : ℕ
status_unknown = 9

-- StatusCode.String
unfoldable pub status_code_to_string : ℕ → Bytes
status_code_to_string s =
    if s == status_initialized_unsealed
    then codes "unsealed"
    else if s == status_error
    then codes "error"
    else if s == status_sealed
    then codes "sealed"
    else if s == status_unknown
    then codes "unknown"
    else codes "undefined"

pub record StatusResponse : Type 0 where
  pub status_code : ℕ
  pub seal_type : Bytes
  pub initialized : Bool
  pub sealed : Bool
  pub version : Bytes
  pub ha_enabled : Bool

-- CLIRequest of cli.go.
pub record CliRequest : Type 0 where
  pub vault_addr : Bytes
  pub token : Bytes
  pub bin_path : Bytes

abbrev pub stderr_error : Bytes → Err
stderr_error stderr = errorf "unexpected write to STDERR: %s" (text stderr end)

-- `if stdout == "" { ... } else { json.Unmarshal(...) }`
abbrev pub unmarshal_stdout : {T : Type 0} → Unmarshal T → Bytes → T → T × Option Err
unmarshal_stdout un [] res = (res, some (new "no JSON body was written to STDOUT"))
unmarshal_stdout un (c ∷ s) res = un (c ∷ s) res

abbrev pub code_of_exit : Err → Option ℕ → ℕ × Option Err
code_of_exit err none = (status_unknown, some (wrap "err did not include exit code: %w" end err))
code_of_exit err (some code) =
    if code == status_initialized_unsealed || code == status_sealed || code == status_error
    then (code, none)
    else if code == status_unknown
    then (code, some (errorf "did not get an exit code: %d (%[1]s)" (num code end)))
    else (code, some (errorf "invalid exit code: %d (%[1]s)" (num code end)))

unfoldable pub vault_status_code_from_error : Err → ℕ × Option Err
vault_status_code_from_error err = code_of_exit err (exit_code err)

-- The code and the error of reading it, from a run's error and STDERR.
unfoldable pub status_of_run : Option Err → Bytes → ℕ × Option Err
unfolding vault_status_code_from_error
status_of_run none [] = (status_initialized_unsealed, none)
status_of_run none (_ ∷ _) = (status_error, none)
status_of_run (some e) stderr = vault_status_code_from_error e

abbrev pub seal_is_known : ℕ → Bool
seal_is_known code = code == status_initialized_unsealed || code == status_sealed

abbrev pub new_status_response : StatusResponse
new_status_response = record {
  status_code = status_unknown;
  seal_type = [];
  initialized = false;
  sealed = false;
  version = [];
  ha_enabled = false;
}

-- What GetStatus makes of a run.
abbrev pub status_from_output :
    Unmarshal StatusResponse → Output → ℕ × Option Err → StatusResponse × Option Err
status_from_output un out (code, err2) =
    let code_err = if seal_is_known code then none else join out.err err2 in
    let (res, json_err) =
      unmarshal_stdout un out.stdout (record new_status_response { status_code = code }) in
    (res, join (join code_err (error_unless_empty out.stderr stderr_error)) json_err)

abbrev pub status_result : StatusResponse × Option Err → Option StatusResponse × Option Err
status_result (res, none) = (some res, none)
status_result (res, some e) = (none, join (some (new "get vault status: vault status")) (some e))

abbrev pub missing_argument : Option Err → CliRequest → Option Err
missing_argument ctx_err req =
    join (join ctx_err (error_if_empty req.bin_path (new "you must supply a vault bin path")))
      (error_if_empty req.vault_addr (new "you must supply a vault listen address"))

abbrev pub status_command : CliRequest → Command
status_command req =
    with_env_var (codes "VAULT_ADDR") req.vault_addr
      (new_command (req.bin_path ++ codes " status -format=json"))

abbrev pub run_status :
    {W : Type 0} → Unmarshal StatusResponse → Output × W → Option StatusResponse × Option Err × W
run_status un (out, w) =
    let (res, err) = status_result (status_from_output un out (status_of_run out.err out.stderr)) in
    (res, err, w)

abbrev pub status_unless :
    {W : Type 0}
    → Option Err
    → Unmarshal StatusResponse
    → Run W
    → CliRequest
    → W
    → Option StatusResponse × Option Err × W
status_unless (some e) un tr req w =
    (none, join (some (new "get vault status: vault status")) (some e), w)
status_unless none un tr req w = run_status un (tr (status_command req) w)

-- GetStatus: `ctx_err` is ctx.Err() where the context is done.
unfoldable pub get_status :
    {W : Type 0}
    → Unmarshal StatusResponse
    → Run W
    → Option Err
    → CliRequest
    → W
    → Option StatusResponse × Option Err × W
unfolding status_of_run
get_status un tr ctx_err req w = status_unless (missing_argument ctx_err req) un tr req w

-- StatusResponse.IsSealed, on a pointer that may be nil.
unfoldable pub is_sealed : Option StatusResponse → Bool × Option Err
is_sealed none = (true, some (new "state does not include status body"))
is_sealed (some s) =
    if s.status_code == status_initialized_unsealed
    then if s.sealed
      then (
        true,
        some (
            new
              "status response does not match status code, expected sealed=false, got sealed=true"),
      )
      else (false, none)
    else if s.status_code == status_error
    then (
      true,
      some (new "unable to determine seal status because status returned an error exit code"),
    )
    else if s.status_code == status_sealed
    then if s.sealed then (true, none) else (
      true,
      some (
          new "status response does not match status code, expected sealed=true, got sealed=false"),
    )
    else if s.status_code == status_unknown
    then (true, some (new "unable to determine vault status"))
    else (
      true,
      some (
          errorf "unable to determine vault status, unexpected exit code %s"
            (text (status_code_to_string s.status_code) end)),
    )
