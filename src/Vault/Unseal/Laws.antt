-- ===== src/Vault/Unseal/Laws.antt =====
-- What Unseal of internal/remoteflight/vault/unseal.go has done where it ends with no error.
use terraform_provider_enos.Prelude.{
  ◌≡◌, refl, ap, subst, ◌⊎◌, inl, inr, ℕ, suc, Bool, true, false, Option, none, some, Option-cases,
  List, [], ◌∷◌, Bytes,
}
use terraform_provider_enos.Go.{Err, returned, panicked}
use terraform_provider_enos.Transport.{Run}
use terraform_provider_enos.Vault.Status.{CliRequest}
use terraform_provider_enos.Vault.State.{State, is_sealed}
use terraform_provider_enos.Vault.GetState.{Readers, GetStateResult}
use terraform_provider_enos.Vault.WaitForState.Laws.{WaitsFor, wait_for_state_in-Checked}
use terraform_provider_enos.Vault.Unseal.{
  TransportType, Unlock, with_keys, by_itself, unsupported, unlock_of, prior_state_checks,
  post_state_checks, unseal_command, Keys, all_run, gave_up, crashed, UnsealResult, with_post_state,
  run_keys, post_result, wait_unsealed, after_keys, unlock, unlock_if_sealed, prior_result,
  with_arguments, unseal,
}
use terraform_provider_enos.Vault.Unseal.Request.{UnsealRequest, UnsealResponse}

-- The keys were run one after the other, each with no error and before the context was done.
pub data KeysRun {W : Type 0} (readers : Readers W) (tr : Run W) (cli : CliRequest)
    : List Bytes → W → W → Type 0 where
  no_more : (w : W) → KeysRun readers tr cli [] w w
  ran :
      {key : Bytes} {keys : List Bytes} {w w' : W}
      → readers.ctx_err w ≡ none
      → (tr (unseal_command cli key) w).0.err ≡ none
      → KeysRun readers tr cli keys (tr (unseal_command cli key) w).1 w'
      → KeysRun readers tr cli (key ∷ keys) w w'

module _ {W : Type 0} (fuel : ℕ) (sleep : ℕ → W → W) (readers : Readers W) (type : TransportType)
    (tr : Run W) (req : UnsealRequest) where
  -- What stands between the two waits: nothing, or all of the keys.
  abbrev pub Unlocked : State → W → W → Type 0
  Unlocked prior w w' =
      ((is_sealed (some prior) ≡ (false, none)) × (w ≡ w'))
      ⊎ ((is_sealed (some prior) ≡ (true, none))
          × (((unlock_of req.seal_type ≡ with_keys)
                × KeysRun readers tr req.cli req.unseal_keys w w')
              ⊎ ((unlock_of req.seal_type ≡ by_itself) × (w ≡ w'))))

  not_post_state :
      (res : UnsealResponse) (err : Err) (g : GetStateResult W) {w' : W}
      → with_post_state fuel sleep readers type tr req res err g ≡ all_run w'
      → ⊥
  not_post_state res err panicked h = cc h
  not_post_state res err (returned (state, none, w)) h = cc h
  not_post_state res err (returned (state, some e, w)) h = cc h

  run_keys-KeysRun :
      (res : UnsealResponse) (i : ℕ) (keys : List Bytes) (w : W) {w' : W}
      → run_keys fuel sleep readers type tr req res i keys w ≡ all_run w'
      → KeysRun readers tr req.cli keys w w'
  unfolding run_keys
  run_keys-KeysRun res i [] w h = subst (λ x. KeysRun readers tr req.cli [] w x) (cc h) (no_more w)
  run_keys-KeysRun res i (key ∷ keys) w h = elim (Option-cases (readers.ctx_err w)) [
    | inl live ↦ elim (Option-cases (tr (unseal_command req.cli key) w).0.err) [
      | inl ok ↦ ran live ok (run_keys-KeysRun res (suc i) keys _ (rw (live, ok) at h))
      | inr (e, bad) ↦ absurd (not_post_state res _ _ (rw (live, bad) at h))
    ]
    | inr (e, over) ↦ absurd (not_post_state res _ _ (rw over at h))
  ]

  abbrev Ends : UnsealResult W → Option UnsealResponse → W → Type 0
  Ends o r w' = o ≡ some (returned (r, none, w'))

  post_result-inv :
      (res : UnsealResponse) (o : Option (GetStateResult W)) {r : Option UnsealResponse} {w' : W}
      → Ends (post_result fuel sleep readers type tr req res o) r w'
      → (post : Option State) × (o ≡ some (returned (post, none, w')))
        × (r ≡ some (record res { post_state = post }))
  post_result-inv res none h = absurd (cc h)
  post_result-inv res (some panicked) h = absurd (cc h)
  post_result-inv res (some (returned (state, some e, w))) h = absurd (cc h)
  post_result-inv res (some (returned (state, none, w))) h =
      (state, ap (λ (x : W). some (returned (state, none, x))) (cc h), cc h)

  wait_unsealed-Waits :
      (res : UnsealResponse) (w : W) {r : Option UnsealResponse} {w' : W}
      → Ends (wait_unsealed fuel sleep readers type tr req res w) r w'
      → (post : State) × WaitsFor sleep readers req.state_request
          (post_state_checks type req.seal_type)
          w
          post
          w'
        × (r ≡ some (record res { post_state = some post }))
  wait_unsealed-Waits res w {r} {w'} h =
      let (o, waited, e) = post_result-inv res _ h in
      let (post, is_some, waits_for) =
        wait_for_state_in-Checked sleep readers req.state_request
          (post_state_checks type req.seal_type) fuel w waited in
      (post, waits_for, rw is_some at e)

  -- All that stands after the first wait: the keys, if they are needed, and the second wait.
  abbrev Finishes : State → UnsealResponse → W → Option UnsealResponse → W → Type 0
  Finishes prior res w r w' =
      (w2 : W) × (post : State) × Unlocked prior w w2
      × WaitsFor sleep readers req.state_request (post_state_checks type req.seal_type) w2 post w'
      × (r ≡ some (record res { post_state = some post }))

  after_keys-Waits :
      (res : UnsealResponse) (keys : Keys W) {r : Option UnsealResponse} {w' : W}
      → Ends (after_keys fuel sleep readers type tr req res keys) r w'
      → (w2 : W) × (post : State) × (keys ≡ all_run w2)
        × WaitsFor sleep readers req.state_request (post_state_checks type req.seal_type) w2 post w'
        × (r ≡ some (record res { post_state = some post }))
  after_keys-Waits res (all_run w) h =
      let (post, waits, e) = wait_unsealed-Waits res w h in (w, post, refl, waits, e)
  after_keys-Waits res (gave_up res' e w) h = absurd (cc h)
  after_keys-Waits res crashed h = absurd (cc h)

  unlock-Finishes :
      (prior : State) (res : UnsealResponse) (u : Unlock) (w : W) {r : Option UnsealResponse}
      {w' : W}
      → is_sealed (some prior) ≡ (true, none)
      → unlock_of req.seal_type ≡ u
      → Ends (unlock fuel sleep readers type tr req res u w) r w'
      → Finishes prior res w r w'
  unlock-Finishes prior res with_keys w sealed same h =
      let (w2, post, keys, waits, e) = after_keys-Waits res _ h in
      (w2, post, inr (sealed, inl (same, run_keys-KeysRun res 0 req.unseal_keys w keys)), waits, e)
  unlock-Finishes prior res by_itself w sealed same h =
      let (post, waits, e) = wait_unsealed-Waits res w h in
      (w, post, inr (sealed, inr (same, refl)), waits, e)
  unlock-Finishes prior res unsupported w sealed same h = absurd (cc h)

  unlock_if_sealed-Finishes :
      (prior : State) (res : UnsealResponse) (s : Bool × Option Err) (w : W)
      {r : Option UnsealResponse} {w' : W}
      → is_sealed (some prior) ≡ s
      → Ends (unlock_if_sealed fuel sleep readers type tr req res s w) r w'
      → Finishes prior res w r w'
  unlock_if_sealed-Finishes prior res (sealed, some e) w same h = absurd (cc h)
  unlock_if_sealed-Finishes prior res (true, none) w same h =
      unlock-Finishes prior res (unlock_of req.seal_type) w same refl h
  unlock_if_sealed-Finishes prior res (false, none) w same h =
      let (post, waits, e) = wait_unsealed-Waits res w h in (w, post, inl (same, refl), waits, e)

  -- The two waits and what stands between them.
  abbrev pub Unsealed : W → Option UnsealResponse → W → Type 0
  Unsealed w r w' =
      (prior : State) × (w1 : W) × (w2 : W) × (post : State) × WaitsFor sleep readers
        req.state_request (prior_state_checks type) w prior w1
      × Unlocked prior w1 w2
      × WaitsFor sleep readers req.state_request (post_state_checks type req.seal_type) w2 post w'
      × (r ≡ some (record { prior_state = some prior; post_state = some post }))

  prior_result-inv :
      (o : Option (GetStateResult W)) {r : Option UnsealResponse} {w' : W}
      → Ends (prior_result fuel sleep readers type tr req o) r w'
      → (prior : Option State) × (w1 : W) × (o ≡ some (returned (prior, none, w1)))
        × Ends
            (unlock_if_sealed fuel sleep readers type tr req
              (record { prior_state = prior; post_state = none })
              (is_sealed prior)
              w1)
            r
            w'
  prior_result-inv none h = absurd (cc h)
  prior_result-inv (some panicked) h = absurd (cc h)
  prior_result-inv (some (returned (state, some e, w))) h = absurd (cc h)
  prior_result-inv (some (returned (state, none, w))) h = (state, w, refl, h)

  with_arguments-Unsealed :
      (bin_path vault_addr : Bytes) (w : W) {r : Option UnsealResponse} {w' : W}
      → Ends (with_arguments fuel sleep readers type tr req bin_path vault_addr w) r w'
      → Unsealed w r w'
  with_arguments-Unsealed [] vault_addr w h = absurd (cc h)
  with_arguments-Unsealed (c ∷ b) [] w h = absurd (cc h)
  with_arguments-Unsealed (c ∷ b) (d ∷ v) w {r} {w'} h =
      let (o, w1, waited, rest) = prior_result-inv _ h in
      let (prior, is_some, waits_for) =
        wait_for_state_in-Checked sleep readers req.state_request (prior_state_checks type) fuel w
          waited in
      let (w2, post, unlocked, waits, e) =
        unlock_if_sealed-Finishes prior (record { prior_state = some prior; post_state = none })
          (is_sealed (some prior)) w1 refl (rw is_some at rest) in
      (prior, w1, w2, post, waits_for, unlocked, waits, e)

  -- Where Unseal ends with no error: it has waited for a state that is initialized and whose seal is
  -- known; if that state is unsealed, or the seal opens by itself, nothing was run, and if it is
  -- sealed by Shamir keys, all keys were run in their order, each with no error; then it has waited
  -- for a state that is initialized and unsealed; and the response has both states.
  pub unseal-Unsealed :
      (w : W) {r : Option UnsealResponse} {w' : W}
      → unseal fuel sleep readers type tr req w ≡ some (returned (r, none, w'))
      → Unsealed w r w'
  unfolding unseal
  unseal-Unsealed w h = elim (Option-cases (readers.ctx_err w)) [
    | inl live ↦ with_arguments-Unsealed req.cli.bin_path req.cli.vault_addr w (rw live at h)
    | inr (e, over) ↦ absurd (cc (rw over at h))
  ]
