-- ===== src/Tests/UnsealRuns.antt =====
-- Runs of Unseal and Init on a node whose world says whether it is sealed, and whether it is not
-- initialized, and on one that never gets there before a deadline.
use terraform_provider_enos.Prelude.{
  refl, ℕ, Bool, true, false, not, Option, none, some, List, ◌≢◌, ◌≡◌, ◌-◌, leb, if◌then◌else◌, suc,
  Bool-cases, inl, inr, arith, [], ◌∷◌, codes, bytes_eq,
}
use terraform_provider_enos.Go.{◌>>=◌, sentinel, Err, pos, Ran, returned, panicked}
use terraform_provider_enos.Transport.{Run}
use terraform_provider_enos.Vault.Status.{StatusResponse, Unmarshal}
use terraform_provider_enos.Vault.Health.{HealthResponse}
use terraform_provider_enos.Vault.State
use terraform_provider_enos.Vault.State.{State}
use terraform_provider_enos.Vault.Checks.Node.{
  check_is_initialized, check_is_unsealed, check_seal_state_is_known, check_has_seal_type,
}
use terraform_provider_enos.Vault.Status
use terraform_provider_enos.Vault.SealStatus
use terraform_provider_enos.Vault.Health
use terraform_provider_enos.Vault.GetState.{Readers, stages, get_state}
use terraform_provider_enos.Stages.{result_of}
use terraform_provider_enos.Retry.{retry_turn}
use terraform_provider_enos.Retry.Deadline.{Nears}
use terraform_provider_enos.Waiting.{env_of, run_checks, checked}
use terraform_provider_enos.Vault.WaitForState.{check_state}
use terraform_provider_enos.Vault.Checks.Base.{CheckStater}
use terraform_provider_enos.Vault.Unseal.{other, unseal}
use terraform_provider_enos.Vault.Unseal.Request.{
  UnsealRequest, UnsealResponse, new_unseal_request, with_seal_type, with_unseal_keys,
  seal_type_shamir,
}
use terraform_provider_enos.Vault.Unseal.Laws.{Unsealed, unseal-Unsealed}
use terraform_provider_enos.Vault.Unseal.Ends.{unseal_ends}
use terraform_provider_enos.Vault.Init.{init}
use terraform_provider_enos.Vault.Init.Ends.{init_ends}
use terraform_provider_enos.Vault.Init.Request.{
  InitRequest, InitResponse, with_key_shares, new_init_request,
}
use terraform_provider_enos.Vault.Init.Laws.{Initialized, init-Initialized}
use terraform_provider_enos.Tests.Samples.{
  cli, request, output, seal_body, status_of_node, health_of_node,
}

abbrev no_sleep : ℕ → Bool → Bool
no_sleep d w = w

abbrev base : {W : Type 0} → (W → StatusResponse) → (W → HealthResponse) → (W → Bool) → Readers W
base status health sealed = record {
  ctx_err = λ w. none;
  process_manager = λ w. (codes "nomad", none, w);
  show_properties = λ unit w. ([], none, w);
  list_pods = none;
  status = λ w. (some (status w), none, w);
  install_flight_control = λ path w. (codes "fc", none, w);
  seal_status = λ path w. (some (seal_body (sealed w)), none, w);
  health = λ path w. (some (health w), none, w);
  replication_status = λ w. (none, none, w);
  config_sanitized = λ w. (some (record { body = none }), none, w);
  host_info = λ w. (some (record { body = none }), none, w);
  ha_status = λ w. (some (record { body = none }), none, w);
  raft_config = λ w. (some (record { body = none }), none, w);
  autopilot_config = λ w. (some (record { body = none }), none, w);
  autopilot_state = λ w. (some (record { body = none }), none, w);
}

abbrev sealed_node : Readers Bool
sealed_node = base status_of_node health_of_node (λ w. w)

-- The world is true until the node is initialized; it stays sealed.
abbrev new_node : Readers Bool
new_node =
    base (λ w. record (status_of_node true) { initialized = not w })
      (λ w. record (health_of_node true) { initialized = not w }) (λ w. true)

-- Any command with output changes the world.
abbrev run_all : Run Bool
run_all command w = (output (codes "{}") none, false)

abbrev unseal_request : UnsealRequest
unseal_request =
    new_unseal_request request cli
      (with_seal_type seal_type_shamir ∷ with_unseal_keys (codes "k1" ∷ codes "k2" ∷ []) ∷ [])

abbrev init_request : InitRequest
init_request = new_init_request request cli (with_key_shares (pos 3) ∷ [])

abbrev init_body : Unmarshal (Option InitResponse)
init_body body (some r) = (some (record r { root_token = codes "root" }), none)
init_body body none = (none, none)

-- The response of a run that ends, and the world after it.
abbrev response_of : {A : Type 0} → Option (Ran (Option A × Option Err × Bool)) → Option A
response_of none = none
response_of (some panicked) = none
response_of (some (returned (r, e, w))) = r

abbrev unsealed : Option UnsealResponse
unsealed = response_of (unseal 3 no_sleep sealed_node other run_all unseal_request true)

abbrev initialized : Option InitResponse
initialized = response_of (init 3 no_sleep new_node other run_all init_body init_request true)

unseal-Unsealed_example :
    Unsealed 3 no_sleep sealed_node other run_all unseal_request true unsealed false
unfolding bytes_eq unseal retry_turn check_is_initialized check_is_unsealed
    check_seal_state_is_known check_has_seal_type Status.is_sealed SealStatus.is_sealed
    Health.is_sealed State.is_initialized
unseal-Unsealed_example =
    unseal-Unsealed 3 no_sleep sealed_node other run_all unseal_request true refl

init-Initialized_example :
    Initialized 3 no_sleep new_node other run_all init_body init_request true initialized false
unfolding bytes_eq init retry_turn check_is_initialized check_seal_state_is_known Status.is_sealed
    SealStatus.is_sealed Health.is_sealed State.is_initialized
init-Initialized_example =
    init-Initialized 3 no_sleep new_node other run_all init_body init_request true refl

-- A node that stays sealed, or is never initialized, in a context with a deadline at time 5 of the clock.
abbrev clocked : Bool → Readers ℕ
clocked is_new =
    record (base (λ w. record (status_of_node true) { initialized = not is_new })
      (λ w. record (health_of_node true) { initialized = not is_new }) (λ w. true)) {
        ctx_err = λ w. if leb 5 w then some (sentinel "context deadline exceeded") else none;
      }

abbrev tick : ℕ → ℕ → ℕ
tick d w = suc w

abbrev run_any : Run ℕ
run_any command w = (output (codes "{}") none, w)

-- The stages keep the clock, and end with a state and no error.
stages-clocked :
    (is_new : Bool) (w : ℕ)
    → (s : State) × (result_of (stages (clocked is_new) request w) ≡ returned (some s, none, w))
unfolding stages bytes_eq Status.is_sealed SealStatus.is_sealed Health.is_sealed
    State.is_initialized
stages-clocked true w = (_, refl)
stages-clocked false w = (_, refl)

-- So does GetState before the deadline.
get_state-clocked :
    (is_new : Bool) (w : ℕ)
    → leb 5 w ≡ false
    → (s : State) × (get_state (clocked is_new) request w ≡ returned (some s, none, w))
unfolding get_state
get_state-clocked is_new w below = let (s, read) = stages-clocked is_new w in (s, rw below read)

-- So do the checks, whatever they are.
checked_keeps :
    (s : State) (w : ℕ) (r : Ran (Option Err)) {res : Option State} {e : Err} {w' : ℕ}
    → (r >>= checked s w) ≡ returned (res, some e, w')
    → w ≡ w'
checked_keeps s w panicked h = absurd (cc h)
checked_keeps s w (returned e) h = cc h

clocked-Nears :
    (is_new : Bool) (checks : List CheckStater)
    → Nears
        (env_of (clocked is_new).ctx_err tick)
        (check_state (clocked is_new) request checks)
        (λ w. 5 - w)
unfolding check_state
clocked-Nears is_new checks w res e w' d p h = elim (Bool-cases (leb 5 w)) [
  | inl over ↦ ground (arith, p)
  | inr below ↦
      let (s, read) = get_state-clocked is_new w below in
      let same = checked_keeps s w (run_checks checks s) (rw (below, read) at h) in
      ground (arith, below, same)
]

unseal_ends_example : unseal 6 tick (clocked false) other run_any unseal_request 0 ≢ none
unseal_ends_example =
    unseal_ends 6 tick (clocked false) other run_any unseal_request (λ w. 5 - w) (λ w. omega arith)
      (clocked-Nears false _) (clocked-Nears false _) 0

init_ends_example : init 6 tick (clocked true) other run_any init_body init_request 0 ≢ none
init_ends_example =
    init_ends 6 tick (clocked true) other run_any init_body init_request (λ w. 5 - w)
      (λ w. omega arith) (clocked-Nears true _) (clocked-Nears true _) 0
