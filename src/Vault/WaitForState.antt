-- ===== src/Vault/WaitForState.antt =====
-- WaitForState of internal/remoteflight/vault/state.go, with the function checkState in it.
pub mod Checks
pub mod Laws
use terraform_provider_enos.Prelude.{ℕ, Option, none, some, List}
use terraform_provider_enos.Go.{Err, new, returned, ◌>>=◌}
use terraform_provider_enos.Waiting.{run_checks, checked, env_of, Waited, wait, wait_in}
use terraform_provider_enos.Vault.State.{State}
use terraform_provider_enos.Vault.Checks.Base.{CheckStater}
use terraform_provider_enos.Vault.GetState.{Readers, StateRequest, GetStateResult, get_state}

module _ {W : Type 0} where
  abbrev pub check_result : List CheckStater → Option State × Option Err × W → GetStateResult W
  check_result checks (state, some e, w) = returned (state, some e, w)
  check_result checks (none, none, w) = returned (none, some (new "no state data found"), w)
  check_result checks (some s, none, w) = run_checks checks s >>= checked s w

  abbrev pub check_state_unless :
      Option Err → Readers W → StateRequest → List CheckStater → W → GetStateResult W
  check_state_unless (some e) readers req checks w = returned (none, some e, w)
  check_state_unless none readers req checks w = get_state readers req w >>= check_result checks

  -- checkState
  unfoldable pub check_state : Readers W → StateRequest → List CheckStater → W → GetStateResult W
  unfolding get_state run_checks
  check_state readers req checks w = check_state_unless (readers.ctx_err w) readers req checks w

  -- WaitForState, on fuel for the turns of the retry loop.
  unfoldable pub wait_for_state :
      ℕ → (ℕ → W → W) → Readers W → StateRequest → List CheckStater → W → Waited State
  unfolding check_state wait
  wait_for_state fuel sleep readers req checks w =
      wait "waiting for vault to enter desired state: %w" fuel (env_of readers.ctx_err sleep)
        (check_state readers req checks) w

  -- WaitForState, with the target that it leaves.
  unfoldable pub wait_for_state_in :
      ℕ → (ℕ → W → W) → Readers W → StateRequest → List CheckStater → W → Option (GetStateResult W)
  unfolding check_state wait_in
  wait_for_state_in fuel sleep readers req checks w =
      wait_in "waiting for vault to enter desired state: %w" fuel (env_of readers.ctx_err sleep)
        (check_state readers req checks) w
