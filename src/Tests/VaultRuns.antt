-- ===== src/Tests/VaultRuns.antt =====
-- Runs of GetState and WaitForState on a node, and what they read.
use terraform_provider_enos.Prelude.{
  ◌≡◌, ◌≢◌, refl, ◌↔◌, inl, inr, ℕ, suc, Bool, true, false, Option, none, some, leb, if◌then◌else◌,
  ◌-◌, Bool-cases, List, [], ◌∷◌, codes, bytes_eq, arith,
}
use terraform_provider_enos.Go.{Err, sentinel, returned, panicked}
use terraform_provider_enos.Transport.{new_command}
use terraform_provider_enos.Vault.Status
use terraform_provider_enos.Vault.Status.{get_status, status_command}
use terraform_provider_enos.Vault.Status.Laws.{RunSays, get_status-RunSays}
use terraform_provider_enos.Vault.Health
use terraform_provider_enos.Vault.Health.{get_health}
use terraform_provider_enos.Vault.Health.Request.{new_health_request, to_string}
use terraform_provider_enos.Vault.Health.Laws.{RunSays as HealthRunSays, get_health-RunSays}
use terraform_provider_enos.Vault.State
use terraform_provider_enos.Vault.State.Laws.{AllSay, is_sealed-AllSay}
use terraform_provider_enos.Vault.Checks.Base.{CheckStater}
use terraform_provider_enos.Vault.Checks.Node.{check_is_unsealed}
use terraform_provider_enos.Vault.GetState.{Readers, get_state, process_stage}
use terraform_provider_enos.Vault.GetState.Guards.{OnState, Guarded}
use terraform_provider_enos.Vault.GetState.Privileged.{get_state-OnState}
use terraform_provider_enos.Vault.WaitForState.Checks.{Checked, check_state_iff}
use terraform_provider_enos.Waiting.{env_of, Waited}
use terraform_provider_enos.Vault.WaitForState.{check_state, wait_for_state}
use terraform_provider_enos.Vault.WaitForState.Laws.{wait_for_state-Nears}
use terraform_provider_enos.Vault.NodeReaders.{node_readers}
use terraform_provider_enos.Retry.{retry_turn}
use terraform_provider_enos.Vault.SealStatus
use terraform_provider_enos.Retry.Deadline.{Nears}
use terraform_provider_enos.Tests.Samples.{
  node, cli, decoders, other_readers, request, status_of_node, health_of_node, state_of_node,
  status_decoder, health_decoder,
}

abbrev checks : List CheckStater
checks = check_is_unsealed ∷ []

abbrev no_err : Option Err
no_err = none

abbrev no_sleep : ℕ → ℕ → ℕ
no_sleep d w = w

is_sealed-AllSay_example :
    (State.is_sealed (some (state_of_node false)) ≡ (false, none))
    ↔ AllSay false (some (state_of_node false))
is_sealed-AllSay_example = is_sealed-AllSay false (some (state_of_node false))

get_status-RunSays_example :
    (no_err ≡ none)
    × (cli.bin_path ≢ [])
    × (cli.vault_addr ≢ [])
    × RunSays (status_decoder true) (node true (status_command cli) 0).0 (status_of_node true)
unfolding bytes_eq get_status
get_status-RunSays_example =
    get_status-RunSays (status_decoder true) (node true) none cli 0 (status_of_node true) 1 refl

get_health-RunSays_example :
    (no_err ≡ none)
    × ((new_health_request (codes "fc") cli.vault_addr).flight_control_path ≢ [])
    × ((new_health_request (codes "fc") cli.vault_addr).vault_addr ≢ [])
    × HealthRunSays
        (health_decoder false)
        (node false (new_command (to_string (new_health_request (codes "fc") cli.vault_addr))) 0).0
        (health_of_node false)
unfolding bytes_eq get_health new_health_request
get_health-RunSays_example =
    get_health-RunSays (health_decoder false) (node false) none
      (new_health_request (codes "fc") cli.vault_addr) 0 (health_of_node false) 1 refl

get_state-OnState_example :
    OnState
      (Guarded request.token)
      (get_state (node_readers (decoders false) (node false) cli other_readers) request 0)
get_state-OnState_example =
    get_state-OnState (node_readers (decoders false) (node false) cli other_readers) request 0

check_state_iff_example :
    ((check_state (node_readers (decoders false) (node false) cli other_readers) request checks 0
        ≡ returned (some (state_of_node false), none, 3))
      ↔ Checked checks
          (get_state (node_readers (decoders false) (node false) cli other_readers) request 0)
          (state_of_node false)
          3)
    × (check_state (node_readers (decoders false) (node false) cli other_readers) request checks 0
        ≢ returned (none, none, 3))
check_state_iff_example =
    check_state_iff (node_readers (decoders false) (node false) cli other_readers) request checks 0
      (state_of_node false) 3

-- A node that cannot be reached, in a context with a deadline at time 5 of the clock `W`.
abbrev unreachable : Readers ℕ
unreachable = record other_readers {
  ctx_err = λ w. if leb 5 w then some (sentinel "context deadline exceeded") else none;
  process_manager = λ w. ([], some (sentinel "unreachable"), w);
}

abbrev tick : ℕ → ℕ → ℕ
tick d w = suc w

unreachable-Nears :
    Nears (env_of unreachable.ctx_err tick) (check_state unreachable request checks) (λ w. 5 - w)
unfolding check_state process_stage
unreachable-Nears w res e w' d p h = elim (Bool-cases (leb 5 w)) [
  | inl over ↦ ground (arith, p)
  | inr below ↦ ground (arith, p, h)
]

wait_for_state-Nears_example : wait_for_state 6 tick unreachable request checks 0 ≢ none
wait_for_state-Nears_example =
    wait_for_state-Nears tick unreachable request checks 6 (λ w. 5 - w) 0 unreachable-Nears
      (omega arith)

-- The run of the witness above returns a state, and no error.
abbrev is_success : Waited State.State → Bool
is_success none = false
is_success (some panicked) = false
is_success (some (returned (none, e))) = false
is_success (some (returned (some s, none))) = true
is_success (some (returned (some s, some e))) = false

wait_for_state_run :
    is_success (
      wait_for_state 2 no_sleep
        (node_readers (decoders false) (node false) cli other_readers)
        request
        checks
        0)
    ≡ true
unfolding bytes_eq wait_for_state check_is_unsealed node_readers retry_turn Status.is_sealed
    SealStatus.is_sealed Health.is_sealed
wait_for_state_run = refl
