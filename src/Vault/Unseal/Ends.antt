-- ===== src/Vault/Unseal/Ends.antt =====
-- Unseal of internal/remoteflight/vault/unseal.go ends where its context does.
use terraform_provider_enos.Prelude.{
  ℕ, ◌<◌, ◌≢◌, refl, List, Bool, true, false, Option, none, some, [], ◌∷◌, Bytes,
}
use terraform_provider_enos.Go.{Err, returned, panicked}
use terraform_provider_enos.Transport.{Run}
use terraform_provider_enos.Retry.Deadline.{Nears}
use terraform_provider_enos.Waiting.{env_of}
use terraform_provider_enos.Vault.State.{is_sealed}
use terraform_provider_enos.Vault.Checks.Base.{CheckStater}
use terraform_provider_enos.Vault.GetState.{Readers, GetStateResult}
use terraform_provider_enos.Vault.WaitForState.{check_state}
use terraform_provider_enos.Vault.WaitForState.Laws.{wait_for_state_in-Nears}
use terraform_provider_enos.Vault.Unseal.Request.{UnsealRequest, UnsealResponse}
use terraform_provider_enos.Vault.Unseal.{
  TransportType, Unlock, with_keys, by_itself, unsupported, Keys, all_run, gave_up, crashed,
  prior_state_checks, post_state_checks, post_result, wait_unsealed, after_keys, unlock,
  unlock_if_sealed, prior_result, with_arguments, unless_done, unseal,
}

module _ {W : Type 0} (fuel : ℕ) (sleep : ℕ → W → W) (readers : Readers W) (type : TransportType)
    (tr : Run W) (req : UnsealRequest) where
  -- Each failed try of a wait with the checks, and the pause after it, lower the measure.
  abbrev pub WaitNears : List CheckStater → (W → ℕ) → Type 0
  WaitNears checks =
      Nears (env_of readers.ctx_err sleep) (check_state readers req.state_request checks)

  post_result-some :
      (res : UnsealResponse) (o : Option (GetStateResult W))
      → o ≢ none
      → post_result fuel sleep readers type tr req res o ≢ none
  post_result-some res none h e = h refl
  post_result-some res (some panicked) h e = cc e
  post_result-some res (some (returned (state, none, w))) h e = cc e
  post_result-some res (some (returned (state, some x, w))) h e = cc e

  module _ (m : W → ℕ) (enough : (w : W) → m w < fuel)
      (nears : WaitNears (post_state_checks type req.seal_type) m) where
    wait_unsealed-some :
        (res : UnsealResponse) (w : W) → wait_unsealed fuel sleep readers type tr req res w ≢ none
    wait_unsealed-some res w =
        post_result-some res _
          (wait_for_state_in-Nears sleep readers req.state_request _ fuel m w nears (enough w))

    after_keys-some :
        (res : UnsealResponse) (k : Keys W) → after_keys fuel sleep readers type tr req res k ≢ none
    after_keys-some res (all_run w) = wait_unsealed-some res w
    after_keys-some res (gave_up res' x w) = λ e. cc e
    after_keys-some res crashed = λ e. cc e

    unlock-some :
        (res : UnsealResponse) (u : Unlock) (w : W)
        → unlock fuel sleep readers type tr req res u w ≢ none
    unlock-some res with_keys w = after_keys-some res _
    unlock-some res by_itself w = wait_unsealed-some res w
    unlock-some res unsupported w = λ e. cc e

    unlock_if_sealed-some :
        (res : UnsealResponse) (s : Bool × Option Err) (w : W)
        → unlock_if_sealed fuel sleep readers type tr req res s w ≢ none
    unlock_if_sealed-some res (sealed, some x) w = λ e. cc e
    unlock_if_sealed-some res (true, none) w = unlock-some res _ w
    unlock_if_sealed-some res (false, none) w = wait_unsealed-some res w

    prior_result-some :
        (o : Option (GetStateResult W))
        → o ≢ none
        → prior_result fuel sleep readers type tr req o ≢ none
    prior_result-some none h = λ e. h refl
    prior_result-some (some panicked) h = λ e. cc e
    prior_result-some (some (returned (state, some x, w))) h = λ e. cc e
    prior_result-some (some (returned (state, none, w))) h =
        unlock_if_sealed-some _ (is_sealed state) w

    with_arguments-some :
        (bin_path vault_addr : Bytes) (w : W)
        → WaitNears (prior_state_checks type) m
        → with_arguments fuel sleep readers type tr req bin_path vault_addr w ≢ none
    with_arguments-some [] vault_addr w n = λ e. cc e
    with_arguments-some (c ∷ bin_path) [] w n = λ e. cc e
    with_arguments-some (c ∷ bin_path) (d ∷ vault_addr) w n =
        prior_result-some _
          (wait_for_state_in-Nears sleep readers req.state_request _ fuel m w n (enough w))

  -- Where each failed try of either wait, and the pause after it, lower a measure of the target that
  -- is below the fuel, as the time to a deadline is, Unseal returns or panics, whatever the keys do.
  pub unseal_ends :
      (m : W → ℕ)
      → ((w : W) → m w < fuel)
      → WaitNears (prior_state_checks type) m
      → WaitNears (post_state_checks type req.seal_type) m
      → (w : W) → unseal fuel sleep readers type tr req w ≢ none
  unfolding unseal
  unseal_ends m enough prior post w = go (readers.ctx_err w)
    where
      go : (e : Option Err) → unless_done fuel sleep readers type tr req e w ≢ none
      go none = with_arguments-some m enough post req.cli.bin_path req.cli.vault_addr w prior
      go (some x) = λ e. cc e
