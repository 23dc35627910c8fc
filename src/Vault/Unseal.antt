-- ===== src/Vault/Unseal.antt =====
-- internal/remoteflight/vault/unseal.go: wait until the node is ready, run the keys, wait until it is unsealed.
-- The readers of GetState and the context are those of WaitForState.
pub mod Request
pub mod Laws
pub mod Ends
use terraform_provider_enos.Prelude.{
  ℕ, suc, Bool, true, false, Option, none, some, List, [], ◌∷◌, ◌++◌, Bytes, bytes_eq, codes,
  if◌then◌else◌,
}
use terraform_provider_enos.Go.{Err, errorf, wrap, new, text, num, end, Ran, returned, panicked}
use terraform_provider_enos.Transport.{Command, Run, Output, new_command, with_env_var}
use terraform_provider_enos.Vault.Status.{CliRequest}
use terraform_provider_enos.Vault.State.{is_sealed}
use terraform_provider_enos.Vault.Checks.Base.{CheckStater}
use terraform_provider_enos.Vault.Checks.Node.{
  check_is_initialized, check_is_unsealed, check_seal_state_is_known, check_has_seal_type,
  check_has_systemd_enabled_and_running_properties,
}
use terraform_provider_enos.Vault.Checks.Pods.{check_pod_has_phase}
use terraform_provider_enos.Vault.GetState.{Readers, GetStateResult, get_state}
use terraform_provider_enos.Vault.WaitForState.{wait_for_state_in}
use terraform_provider_enos.Vault.Unseal.Request.{
  UnsealRequest, UnsealResponse, seal_type_shamir, is_one_of, auto_seal_types,
}

-- The type of a transport; that of a Kubernetes transport of k8s.Transport has the name of its pod.
pub data TransportType : Type 0 where
  ssh : TransportType
  kubernetes : Option Bytes → TransportType
  other : TransportType

-- The checks that the type of the transport adds.
abbrev pub transport_checks : TransportType → List CheckStater
transport_checks ssh = check_has_systemd_enabled_and_running_properties ∷ []
transport_checks (kubernetes (some pod)) = check_pod_has_phase pod (codes "Running") ∷ []
transport_checks (kubernetes none) = []
transport_checks other = []

-- Which branch of the switch on the seal type is taken.
pub data Unlock : Type 0 where
  with_keys by_itself unsupported : Unlock

unfoldable pub unlock_of : Bytes → Unlock
unfolding bytes_eq
unlock_of seal_type =
    if bytes_eq seal_type seal_type_shamir
    then with_keys
    else if is_one_of seal_type auto_seal_types
    then by_itself
    else unsupported

abbrev pub seal_type_check : Bytes → List CheckStater
seal_type_check seal_type =
    if bytes_eq seal_type seal_type_shamir then check_has_seal_type seal_type ∷ [] else []

abbrev pub prior_state_checks : TransportType → List CheckStater
prior_state_checks type = check_is_initialized ∷ check_seal_state_is_known ∷ transport_checks type

abbrev pub post_state_checks : TransportType → Bytes → List CheckStater
post_state_checks type seal_type =
    check_is_initialized ∷ check_is_unsealed ∷ (seal_type_check seal_type ++ transport_checks type)

abbrev pub unseal_command : CliRequest → Bytes → Command
unseal_command cli key =
    with_env_var (codes "VAULT_ADDR") cli.vault_addr
      (new_command (cli.bin_path ++ (codes " operator unseal " ++ (key ++ codes ";"))))

-- How the keys end: all of them were run, or Unseal returns with a response and an error.
pub data Keys (W : Type 0) : Type 0 where
  all_run : W → Keys W
  gave_up : UnsealResponse → Err → W → Keys W
  crashed : Keys W

abbrev pub UnsealResult : Type 0 → Type 0
UnsealResult W = Option (Ran (Option UnsealResponse × Option Err × W))

module _ {W : Type 0} (fuel : ℕ) (sleep : ℕ → W → W) (readers : Readers W) (type : TransportType)
    (tr : Run W) (req : UnsealRequest) where
  -- The error with that of getPostState joined to it, which reads the state for the response.
  abbrev pub with_post_state : UnsealResponse → Err → GetStateResult W → Keys W
  with_post_state res err panicked = crashed
  with_post_state res err (returned (state, none, w)) =
      gave_up (record res { post_state = state }) err w
  with_post_state res err (returned (state, some e, w)) =
      gave_up (record res { post_state = state }) (Err.joined err e) w

  abbrev pub key_error : ℕ → Bytes → Output → Err → Err
  key_error i key out e = Err.joined e (
      errorf "failed unsealing with key: (%d) %s, stderr: \n%s"
        (num i (text key (text out.stderr end))))

  abbrev pub key_timeout : ℕ → Bytes → Err → Err
  key_timeout i key e =
      Err.joined e (errorf "timed out when unsealing with key: (%d) %s" (num i (text key end)))

  abbrev pub after_key :
      UnsealResponse → ℕ → Bytes → Output × W → Option Err → (W → Keys W) → Keys W
  after_key res i key (out, w) none rest = rest w
  after_key res i key (out, w) (some e) rest =
      with_post_state res (key_error i key out e) (get_state readers req.state_request w)

  abbrev pub one_key : UnsealResponse → ℕ → Bytes → W → Option Err → (W → Keys W) → Keys W
  one_key res i key w (some e) rest =
      with_post_state res (key_timeout i key e) (get_state readers req.state_request w)
  one_key res i key w none rest =
      let ran : Output × W = tr (unseal_command req.cli key) w in
      after_key res i key ran ran.0.err rest

  -- The loop over the keys, from index `i`.
  unfoldable pub run_keys : UnsealResponse → ℕ → List Bytes → W → Keys W
  unfolding get_state
  run_keys res i [] w = all_run w
  run_keys res i (key ∷ keys) w =
      one_key res i key w (readers.ctx_err w) (λ w'. run_keys res (suc i) keys w')

  abbrev pub post_result : UnsealResponse → Option (GetStateResult W) → UnsealResult W
  post_result res none = none
  post_result res (some panicked) = some panicked
  post_result res (some (returned (state, none, w))) =
      some (returned (some (record res { post_state = state }), none, w))
  post_result res (some (returned (state, some e, w))) = some (
      returned (
        some (record res { post_state = state }),
        some (wrap "waiting for vault cluster to be ready to be unsealed: %w" end e),
        w,
      ))

  abbrev pub wait_unsealed : UnsealResponse → W → UnsealResult W
  wait_unsealed res w = post_result res (
      wait_for_state_in fuel sleep readers req.state_request (post_state_checks type req.seal_type)
        w)

  abbrev pub after_keys : UnsealResponse → Keys W → UnsealResult W
  after_keys res (all_run w) = wait_unsealed res w
  after_keys res (gave_up res' e w) = some (returned (some res', some e, w))
  after_keys res crashed = some panicked

  abbrev pub unlock : UnsealResponse → Unlock → W → UnsealResult W
  unlock res with_keys w = after_keys res (run_keys res 0 req.unseal_keys w)
  unlock res by_itself w = wait_unsealed res w
  unlock res unsupported w =
      some
        (returned (some res, some (errorf "unspported seal type: %s" (text req.seal_type end)), w))

  abbrev pub unlock_if_sealed : UnsealResponse → Bool × Option Err → W → UnsealResult W
  unlock_if_sealed res (sealed, some e) w =
      some
        (returned (some res, some (wrap "checking vault seal status before unseal: %w" end e), w))
  unlock_if_sealed res (true, none) w = unlock res (unlock_of req.seal_type) w
  unlock_if_sealed res (false, none) w = wait_unsealed res w

  abbrev pub prior_result : Option (GetStateResult W) → UnsealResult W
  prior_result none = none
  prior_result (some panicked) = some panicked
  prior_result (some (returned (state, some e, w))) = some (
      returned (
        some (record { prior_state = state; post_state = none }),
        some (wrap "waiting for vault cluster to be ready to unseal: %w" end e),
        w,
      ))
  prior_result (some (returned (state, none, w))) =
      unlock_if_sealed (record { prior_state = state; post_state = none }) (is_sealed state) w

  abbrev pub with_arguments : Bytes → Bytes → W → UnsealResult W
  with_arguments [] vault_addr w =
      some (returned (none, some (new "you must supply a vault bin path"), w))
  with_arguments (c ∷ bin_path) [] w =
      some (returned (none, some (new "you must supply a vault listen address"), w))
  with_arguments (c ∷ bin_path) (d ∷ vault_addr) w =
      prior_result
        (wait_for_state_in fuel sleep readers req.state_request (prior_state_checks type) w)

  abbrev pub unless_done : Option Err → W → UnsealResult W
  unless_done (some e) w = some (returned (none, some e, w))
  unless_done none w = with_arguments req.cli.bin_path req.cli.vault_addr w

  unfoldable pub unseal : W → UnsealResult W
  unfolding wait_for_state_in run_keys unlock_of is_sealed
  unseal w = unless_done (readers.ctx_err w) w
