-- ===== src/Vault/WaitForState/Laws.antt =====
-- What WaitForState returns, and when it returns.
use terraform_provider_enos.Prelude.{ℕ, ◌<◌, ◌≢◌, ◌≡◌, refl, sym, ap, ◌∙◌, Option, none, some, List}
use terraform_provider_enos.Go.{returned, panicked}
use terraform_provider_enos.Retry.Deadline.{Nears}
use terraform_provider_enos.Retry.Reached.{Reached}
use terraform_provider_enos.Waiting.{env_of, Waited}
use terraform_provider_enos.Waiting.Tries.{FromTry, env_of-SaysWhy, wait-FromTry, wait-Nears}
use terraform_provider_enos.Vault.State.{State, new_state}
use terraform_provider_enos.Vault.Checks.Base.{CheckStater}
use terraform_provider_enos.Vault.GetState.{Readers, StateRequest, get_state}
use terraform_provider_enos.Vault.WaitForState.Checks.{Checked, check_state_iff}
use terraform_provider_enos.Vault.WaitForState.{check_state, wait_for_state, wait_for_state_in}
use terraform_provider_enos.Waiting.Worlds.{forget, forget-wait_in, wait_in-Success}

module _ {W : Type 0} (sleep : ℕ → W → W) (readers : Readers W) (req : StateRequest)
    (checks : List CheckStater) where
  -- A state that comes with no error is one that GetState has read and that all checks pass on.
  abbrev pub Desired : Waited State → Type 0
  Desired none = Unit
  Desired (some panicked) = Unit
  Desired (some (returned (state, some e))) = Unit
  Desired (some (returned (none, none))) = ⊥
  Desired (some (returned (some s, none))) =
      (w : W) × (w' : W) × Checked checks (get_state readers req w) s w'

  try-Desired : (o : Waited State) → FromTry (check_state readers req checks) o → Desired o
  try-Desired none h = tt
  try-Desired (some panicked) h = tt
  try-Desired (some (returned (state, some e))) h = tt
  try-Desired (some (returned (none, none))) (w, w', e) =
      (check_state_iff readers req checks w new_state w').1 e
  try-Desired (some (returned (some s, none))) (w, w', e) =
      (w, w', (check_state_iff readers req checks w s w').0.0 e)

  -- A state that WaitForState returns with no error is one that GetState has read with no error and
  -- that all checks pass on, and it returns no error only with a state.
  pub wait_for_state-Desired :
      (fuel : ℕ) (w : W) → Desired (wait_for_state fuel sleep readers req checks w)
  unfolding wait_for_state
  wait_for_state-Desired fuel w = try-Desired _ (
      wait-FromTry _ fuel (env_of readers.ctx_err sleep) (check_state readers req checks) w
        (env_of-SaysWhy readers.ctx_err sleep))

  -- Where each failed try and the pause after it lower a measure of the world, as they do the time to
  -- the deadline of a context, WaitForState returns or panics within one turn more than the measure.
  pub wait_for_state-Nears :
      (fuel : ℕ) (m : W → ℕ) (w : W)
      → Nears (env_of readers.ctx_err sleep) (check_state readers req checks) m
      → m w < fuel
      → wait_for_state fuel sleep readers req checks w ≢ none
  unfolding wait_for_state
  wait_for_state-Nears fuel m w n enough =
      wait-Nears _ fuel (env_of readers.ctx_err sleep) (check_state readers req checks) m w n enough

  -- A state that GetState has read after failed tries from a target, and on which the checks pass.
  abbrev pub WaitsFor : W → State → W → Type 0
  WaitsFor w s w' =
      (w0 : W) × Reached (env_of readers.ctx_err sleep) (check_state readers req checks) w w0
      × Checked checks (get_state readers req w0) s w'

  -- Where WaitForState ends with no error, it has a state, which GetState has read after failed tries
  -- and on which all checks pass, and the target is as that left it.
  pub wait_for_state_in-Checked :
      (fuel : ℕ) (w : W) {state : Option State} {w' : W}
      → wait_for_state_in fuel sleep readers req checks w ≡ some (returned (state, none, w'))
      → (s : State) × (state ≡ some s) × WaitsFor w s w'
  unfolding wait_for_state_in
  wait_for_state_in-Checked fuel w {state} {w'} h =
      let (w0, there, e) =
        wait_in-Success _ fuel (env_of readers.ctx_err sleep) (check_state readers req checks) w
          (env_of-SaysWhy readers.ctx_err sleep) h in
      of_state w0 state there e
    where
      of_state :
          (w0 : W) (o : Option State)
          → Reached (env_of readers.ctx_err sleep) (check_state readers req checks) w w0
          → check_state readers req checks w0 ≡ returned (o, none, w')
          → (s : State) × (o ≡ some s) × WaitsFor w s w'
      of_state w0 none there e = absurd ((check_state_iff readers req checks w0 new_state w').1 e)
      of_state w0 (some s) there e =
          (s, refl, (w0, there, (check_state_iff readers req checks w0 s w').0.0 e))

  pub forget-wait_for_state_in :
      (fuel : ℕ) (w : W)
      → forget (wait_for_state_in fuel sleep readers req checks w)
        ≡ wait_for_state fuel sleep readers req checks w
  unfolding wait_for_state_in wait_for_state
  forget-wait_for_state_in fuel w =
      forget-wait_in _ fuel (env_of readers.ctx_err sleep) (check_state readers req checks) w

  -- The same of the call that keeps the target.
  pub wait_for_state_in-Nears :
      (fuel : ℕ) (m : W → ℕ) (w : W)
      → Nears (env_of readers.ctx_err sleep) (check_state readers req checks) m
      → m w < fuel
      → wait_for_state_in fuel sleep readers req checks w ≢ none
  wait_for_state_in-Nears fuel m w n enough none_in =
      wait_for_state-Nears fuel m w n enough
        (sym (forget-wait_for_state_in fuel w) ∙ ap forget none_in)
