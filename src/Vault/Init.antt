-- ===== src/Vault/Init.antt =====
-- internal/remoteflight/vault/init.go: wait until the node is ready, initialize it unless it is, wait until
-- it is initialized. An int is a ℤ, -1 where an argument is not given.
pub mod Request
pub mod Laws
pub mod Ends
use terraform_provider_enos.Prelude.{
  ℕ, Bool, true, false, not, Option, none, some, List, [], ◌∷◌, Bytes, codes,
}
use terraform_provider_enos.Go.{Err, errorf, wrap, new, text, end, join, Ran, returned, panicked}
use terraform_provider_enos.Transport.{Command, Run, Output, new_command, with_env_var}
use terraform_provider_enos.Vault.Status.{Unmarshal, error_if_empty, error_unless_empty}
use terraform_provider_enos.Vault.State.{is_initialized}
use terraform_provider_enos.Vault.Checks.Base.{CheckStater}
use terraform_provider_enos.Vault.Checks.Node.{check_is_initialized, check_seal_state_is_known}
use terraform_provider_enos.Vault.GetState.{Readers, GetStateResult, get_state}
use terraform_provider_enos.Vault.WaitForState.{wait_for_state_in}
use terraform_provider_enos.Vault.Unseal.{TransportType, transport_checks}
use terraform_provider_enos.Vault.Init.Request.{InitRequest, InitResponse, init_command}

abbrev pub prior_state_checks : TransportType → List CheckStater
prior_state_checks type = check_seal_state_is_known ∷ transport_checks type

abbrev pub post_state_checks : TransportType → List CheckStater
post_state_checks type = check_seal_state_is_known ∷ check_is_initialized ∷ transport_checks type

abbrev pub no_response : InitResponse
no_response = record {
  unseal_keys_b64 = [];
  unseal_keys_hex = [];
  unseal_shares = [];
  unseal_threshold = [];
  recovery_keys_b64 = [];
  recovery_keys_hex = [];
  recovery_keys_shares = [];
  recovery_keys_threshold = [];
  root_token = [];
  prior_state = none;
  post_state = none;
}

abbrev pub InitResult : Type 0 → Type 0
InitResult W = Option (Ran (Option InitResponse × Option Err × W))

abbrev pub run_error : Output → Option Err
run_error out =
    join (join out.err (error_if_empty out.stdout (new "init command did not return data"))) (
      error_unless_empty out.stderr
        (λ stderr. errorf "init command had unexpected write to STDERR: %s" (text stderr end)))

abbrev deserialize_error : Option InitResponse × Option Err → Option InitResponse × Option Err
deserialize_error (res, none) = (res, none)
deserialize_error (res, some e) = (res, some (wrap "deserialize JSON body of init: %w" end e))

-- The body is decoded onto the pointer to the response, which may be nil then.
abbrev pub decoded :
    Unmarshal (Option InitResponse)
    → Bytes
    → InitResponse
    → Option Err
    → Option InitResponse × Option Err
decoded un stdout res (some e) = (some res, some e)
decoded un stdout res none = deserialize_error (un stdout (some res))

-- Whether the node is known to be initialized.
abbrev pub is_known : Bool × Option Err → Bool
is_known (b, some e) = false
is_known (b, none) = b

module _ {W : Type 0} (fuel : ℕ) (sleep : ℕ → W → W) (readers : Readers W) (type : TransportType)
    (tr : Run W) (un : Unmarshal (Option InitResponse)) (req : InitRequest) where
  abbrev pub run_command : Command
  run_command =
      with_env_var (codes "VAULT_ADDR") req.cli.vault_addr (new_command (init_command req))

  -- `res.PostState, err = ...`, where a nil response panics.
  abbrev pub post_result : Option InitResponse → Option (GetStateResult W) → InitResult W
  post_result res none = none
  post_result res (some panicked) = some panicked
  post_result none (some (returned answer)) = some panicked
  post_result (some res) (some (returned (state, none, w))) =
      some (returned (some (record res { post_state = state }), none, w))
  post_result (some res) (some (returned (state, some e, w))) = some (
      returned (
        some (record res { post_state = state }),
        some (wrap "waiting for vault cluster to be ready to be initialized: %w" end e),
        w,
      ))

  abbrev pub wait_initialized : Option InitResponse → W → InitResult W
  wait_initialized res w =
      post_result res
        (wait_for_state_in fuel sleep readers req.state_request (post_state_checks type) w)

  -- After an error the state is read for the response, and its error joined.
  abbrev pub failed_with : Option InitResponse → Err → GetStateResult W → InitResult W
  failed_with res err panicked = some panicked
  failed_with none err (returned answer) = some panicked
  failed_with (some res) err (returned (state, e, w)) =
      some (returned (some (record res { post_state = state }), join (some err) e, w))

  abbrev pub after_run : Option InitResponse × Option Err → W → InitResult W
  after_run (res, some err) w = failed_with res err (get_state readers req.state_request w)
  after_run (res, none) w = wait_initialized res w

  abbrev pub run_init : InitResponse → Output × W → InitResult W
  run_init res (out, w) = after_run (decoded un out.stdout res (run_error out)) w

  abbrev pub unless_initialized : InitResponse → Bool → W → InitResult W
  unless_initialized res true w = wait_initialized (some res) w
  unless_initialized res false w = run_init res (tr run_command w)

  abbrev pub prior_result : Option (GetStateResult W) → InitResult W
  prior_result none = none
  prior_result (some panicked) = some panicked
  prior_result (some (returned (state, some e, w))) = some (
      returned (
        some (record no_response { prior_state = state }),
        some (wrap "waiting for vault cluster to be ready to initialize: %w" end e),
        w,
      ))
  prior_result (some (returned (state, none, w))) =
      unless_initialized (record no_response { prior_state = state })
        (is_known (is_initialized state)) w

  abbrev pub with_arguments : Bytes → Bytes → W → InitResult W
  with_arguments [] vault_addr w =
      some (returned (none, some (new "you must supply a vault bin path"), w))
  with_arguments (c ∷ bin_path) [] w =
      some (returned (none, some (new "you must supply a vault listen address"), w))
  with_arguments (c ∷ bin_path) (d ∷ vault_addr) w =
      prior_result
        (wait_for_state_in fuel sleep readers req.state_request (prior_state_checks type) w)

  unfoldable pub init : W → InitResult W
  unfolding wait_for_state_in init_command is_initialized get_state
  init w = with_arguments req.cli.bin_path req.cli.vault_addr w
