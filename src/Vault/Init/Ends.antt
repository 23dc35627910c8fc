-- ===== src/Vault/Init/Ends.antt =====
-- Init of internal/remoteflight/vault/init.go ends where its context does.
use terraform_provider_enos.Prelude.{
  ℕ, ◌<◌, ◌≢◌, refl, List, Bool, true, false, Option, none, some, [], ◌∷◌, Bytes,
}
use terraform_provider_enos.Go.{Err, returned, panicked}
use terraform_provider_enos.Transport.{Run}
use terraform_provider_enos.Retry.Deadline.{Nears}
use terraform_provider_enos.Waiting.{env_of}
use terraform_provider_enos.Vault.Status.{Unmarshal}
use terraform_provider_enos.Vault.Checks.Base.{CheckStater}
use terraform_provider_enos.Vault.GetState.{Readers, GetStateResult, get_state}
use terraform_provider_enos.Vault.WaitForState.{check_state}
use terraform_provider_enos.Vault.WaitForState.Laws.{wait_for_state_in-Nears}
use terraform_provider_enos.Vault.Unseal.{TransportType}
use terraform_provider_enos.Vault.Init.Request.{InitRequest, InitResponse}
use terraform_provider_enos.Vault.Init.{
  prior_state_checks, post_state_checks, post_result, wait_initialized, failed_with, after_run,
  unless_initialized, prior_result, with_arguments, init,
}

module _ {W : Type 0} (fuel : ℕ) (sleep : ℕ → W → W) (readers : Readers W) (type : TransportType)
    (tr : Run W) (un : Unmarshal (Option InitResponse)) (req : InitRequest) where
  -- Each failed try of a wait with the checks, and the pause after it, lower the measure.
  abbrev pub WaitNears : List CheckStater → (W → ℕ) → Type 0
  WaitNears checks =
      Nears (env_of readers.ctx_err sleep) (check_state readers req.state_request checks)

  post_result-some :
      (res : Option InitResponse) (o : Option (GetStateResult W))
      → o ≢ none
      → post_result fuel sleep readers type tr un req res o ≢ none
  post_result-some res none h e = h refl
  post_result-some res (some panicked) h e = cc e
  post_result-some none (some (returned answer)) h e = cc e
  post_result-some (some res) (some (returned (state, none, w))) h e = cc e
  post_result-some (some res) (some (returned (state, some x, w))) h e = cc e

  failed_with-some :
      (res : Option InitResponse) (x : Err) (g : GetStateResult W)
      → failed_with fuel sleep readers type tr un req res x g ≢ none
  failed_with-some res x panicked e = cc e
  failed_with-some none x (returned answer) e = cc e
  failed_with-some (some res) x (returned (state, y, w)) e = cc e

  module _ (m : W → ℕ) (enough : (w : W) → m w < fuel)
      (nears : WaitNears (post_state_checks type) m) where
    wait_initialized-some :
        (res : Option InitResponse) (w : W)
        → wait_initialized fuel sleep readers type tr un req res w ≢ none
    wait_initialized-some res w =
        post_result-some res _
          (wait_for_state_in-Nears sleep readers req.state_request _ fuel m w nears (enough w))

    after_run-some :
        (x : Option InitResponse × Option Err) (w : W)
        → after_run fuel sleep readers type tr un req x w ≢ none
    after_run-some (res, some x) w = failed_with-some res x (get_state readers req.state_request w)
    after_run-some (res, none) w = wait_initialized-some res w

    unless_initialized-some :
        (res : InitResponse) (known : Bool) (w : W)
        → unless_initialized fuel sleep readers type tr un req res known w ≢ none
    unless_initialized-some res true w = wait_initialized-some (some res) w
    unless_initialized-some res false w = after_run-some _ _

    prior_result-some :
        (o : Option (GetStateResult W))
        → o ≢ none
        → prior_result fuel sleep readers type tr un req o ≢ none
    prior_result-some none h = λ e. h refl
    prior_result-some (some panicked) h = λ e. cc e
    prior_result-some (some (returned (state, some x, w))) h = λ e. cc e
    prior_result-some (some (returned (state, none, w))) h = unless_initialized-some _ _ w

  -- Where each failed try of either wait, and the pause after it, lower a measure of the target that
  -- is below the fuel, as the time to a deadline is, Init returns or panics, whatever the command does.
  pub init_ends :
      (m : W → ℕ)
      → ((w : W) → m w < fuel)
      → WaitNears (prior_state_checks type) m
      → WaitNears (post_state_checks type) m
      → (w : W) → init fuel sleep readers type tr un req w ≢ none
  unfolding init
  init_ends m enough prior post w = go req.cli.bin_path req.cli.vault_addr
    where
      go :
          (bin_path vault_addr : Bytes)
          → with_arguments fuel sleep readers type tr un req bin_path vault_addr w ≢ none
      go [] vault_addr = λ e. cc e
      go (c ∷ bin_path) [] = λ e. cc e
      go (c ∷ bin_path) (d ∷ vault_addr) =
          prior_result-some m enough post _
            (wait_for_state_in-Nears sleep readers req.state_request _ fuel m w prior (enough w))
