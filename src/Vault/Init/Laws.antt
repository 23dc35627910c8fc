-- ===== src/Vault/Init/Laws.antt =====
-- What Init of internal/remoteflight/vault/init.go has done where it ends with no error.
use terraform_provider_enos.Prelude.{
  ◌≡◌, refl, ap, ◌⊎◌, inl, inr, ℕ, Bool, true, false, Option, none, some, [], ◌∷◌, Bytes,
}
use terraform_provider_enos.Go.{Err, returned, panicked}
use terraform_provider_enos.Transport.{Run}
use terraform_provider_enos.Vault.Status.{Unmarshal}
use terraform_provider_enos.Vault.State.{State, is_initialized}
use terraform_provider_enos.Vault.GetState.{Readers, GetStateResult}
use terraform_provider_enos.Vault.WaitForState.Laws.{WaitsFor, wait_for_state_in-Checked}
use terraform_provider_enos.Vault.Unseal.{TransportType}
use terraform_provider_enos.Vault.Init.{
  no_response, is_known, run_error, decoded, deserialize_error, run_command, prior_state_checks,
  post_state_checks, InitResult, post_result, wait_initialized, failed_with, after_run,
  unless_initialized, prior_result, with_arguments, init,
}
use terraform_provider_enos.Vault.Init.Request.{InitRequest, InitResponse}

is_known-true : (x : Bool × Option Err) → is_known x ≡ true → x ≡ (true, none)
is_known-true (b, none) h = ap (λ (b : Bool). (b, none)) h
is_known-true (b, some e) h = absurd (cc h)

is_known-false : (x : Bool × Option Err) → is_known x ≡ false → ¬ (x ≡ (true, none))
is_known-false x h is_true = cc (h, ap is_known is_true)

module _ {W : Type 0} (fuel : ℕ) (sleep : ℕ → W → W) (readers : Readers W) (type : TransportType)
    (tr : Run W) (un : Unmarshal (Option InitResponse)) (req : InitRequest) where
  abbrev Ends : InitResult W → Option InitResponse → W → Type 0
  Ends o r w' = o ≡ some (returned (r, none, w'))

  -- What stands between the two waits, and the response that it leaves: nothing where the node is
  -- known to be initialized, or the command, with output alone that decodes onto the response.
  abbrev pub Prepared : State → W → InitResponse → W → Type 0
  Prepared prior w res w' =
      ((is_initialized (some prior) ≡ (true, none))
        × (w ≡ w')
        × (res ≡ record no_response { prior_state = some prior }))
      ⊎ ((¬ (is_initialized (some prior) ≡ (true, none)))
          × (run_error (tr (run_command fuel sleep readers type tr un req) w).0 ≡ none)
          × (un (tr (run_command fuel sleep readers type tr un req) w).0.stdout
                (some (record no_response { prior_state = some prior }))
              ≡ (some res, none))
          × ((tr (run_command fuel sleep readers type tr un req) w).1 ≡ w'))

  post_result-inv :
      (res : Option InitResponse) (o : Option (GetStateResult W)) {r : Option InitResponse} {w' : W}
      → Ends (post_result fuel sleep readers type tr un req res o) r w'
      → (given : InitResponse) × (post : Option State) × (res ≡ some given)
        × (o ≡ some (returned (post, none, w')))
        × (r ≡ some (record given { post_state = post }))
  post_result-inv res none h = absurd (cc h)
  post_result-inv res (some panicked) h = absurd (cc h)
  post_result-inv none (some (returned answer)) h = absurd (cc h)
  post_result-inv (some res) (some (returned (state, some e, w))) h = absurd (cc h)
  post_result-inv (some res) (some (returned (state, none, w))) h =
      (res, state, refl, ap (λ (x : W). some (returned (state, none, x))) (cc h), cc h)

  wait_initialized-Waits :
      (res : Option InitResponse) (w : W) {r : Option InitResponse} {w' : W}
      → Ends (wait_initialized fuel sleep readers type tr un req res w) r w'
      → (given : InitResponse) × (post : State) × (res ≡ some given)
        × WaitsFor sleep readers req.state_request (post_state_checks type) w post w'
        × (r ≡ some (record given { post_state = some post }))
  wait_initialized-Waits res w h =
      let (given, o, is_given, waited, e) = post_result-inv res _ h in
      let (post, is_some, waits_for) =
        wait_for_state_in-Checked sleep readers req.state_request (post_state_checks type) fuel w
          waited in
      (given, post, is_given, waits_for, rw is_some at e)

  not_failed :
      (res : Option InitResponse) (err : Err) (g : GetStateResult W) {r : Option InitResponse}
      {w' : W}
      → Ends (failed_with fuel sleep readers type tr un req res err g) r w'
      → ⊥
  not_failed res err panicked h = cc h
  not_failed none err (returned answer) h = cc h
  not_failed (some res) err (returned (state, none, w)) h = cc h
  not_failed (some res) err (returned (state, some e, w)) h = cc h

  after_run-Waits :
      (x : Option InitResponse × Option Err) (w : W) {r : Option InitResponse} {w' : W}
      → Ends (after_run fuel sleep readers type tr un req x w) r w'
      → (given : InitResponse) × (post : State) × (x ≡ (some given, none))
        × WaitsFor sleep readers req.state_request (post_state_checks type) w post w'
        × (r ≡ some (record given { post_state = some post }))
  after_run-Waits (res, some err) w h = absurd (not_failed res err _ h)
  after_run-Waits (res, none) w h =
      let (given, post, is_given, waits, e) = wait_initialized-Waits res w h in
      (given, post, ap (λ (x : Option InitResponse). (x, none)) is_given, waits, e)

  deserialize_error-inv :
      (x : Option InitResponse × Option Err) {given : Option InitResponse}
      → deserialize_error x ≡ (given, none)
      → x ≡ (given, none)
  deserialize_error-inv (res, none) h = h
  deserialize_error-inv (res, some e) h = absurd (cc h)

  decoded-inv :
      (stdout : Bytes) (res : InitResponse) (e : Option Err) {given : Option InitResponse}
      → decoded un stdout res e ≡ (given, none)
      → (e ≡ none) × (un stdout (some res) ≡ (given, none))
  decoded-inv stdout res none h = (refl, deserialize_error-inv _ h)
  decoded-inv stdout res (some e) h = absurd (cc h)

  -- All that stands after the first wait.
  abbrev Finishes : State → W → Option InitResponse → W → Type 0
  Finishes prior w r w' =
      (w2 : W) × (res : InitResponse) × (post : State) × Prepared prior w res w2
      × WaitsFor sleep readers req.state_request (post_state_checks type) w2 post w'
      × (r ≡ some (record res { post_state = some post }))

  unless_initialized-Finishes :
      (prior : State) (b : Bool) (w : W) {r : Option InitResponse} {w' : W}
      → is_known (is_initialized (some prior)) ≡ b
      → Ends
          (unless_initialized fuel sleep readers type tr un req
            (record no_response { prior_state = some prior })
            b
            w)
          r
          w'
      → Finishes prior w r w'
  unless_initialized-Finishes prior true w known h =
      let (given, post, is_given, waits, e) =
        wait_initialized-Waits (some (record no_response { prior_state = some prior })) w h in
      (w, given, post, inl (is_known-true _ known, refl, cc is_given), waits, e)
  unless_initialized-Finishes prior false w known h =
      let (given, post, is_given, waits, e) = after_run-Waits _ _ h in
      let (ok, body) = decoded-inv _ _ _ is_given in
      (_, given, post, inr (is_known-false _ known, ok, body, refl), waits, e)

  prior_result-inv :
      (o : Option (GetStateResult W)) {r : Option InitResponse} {w' : W}
      → Ends (prior_result fuel sleep readers type tr un req o) r w'
      → (prior : Option State) × (w1 : W) × (o ≡ some (returned (prior, none, w1)))
        × Ends
            (unless_initialized fuel sleep readers type tr un req
              (record no_response { prior_state = prior })
              (is_known (is_initialized prior))
              w1)
            r
            w'
  prior_result-inv none h = absurd (cc h)
  prior_result-inv (some panicked) h = absurd (cc h)
  prior_result-inv (some (returned (state, some e, w))) h = absurd (cc h)
  prior_result-inv (some (returned (state, none, w))) h = (state, w, refl, h)

  -- The two waits and what stands between them.
  abbrev pub Initialized : W → Option InitResponse → W → Type 0
  Initialized w r w' =
      (prior : State) × (w1 : W) × (w2 : W) × (res : InitResponse) × (post : State) × WaitsFor sleep
        readers req.state_request (prior_state_checks type) w prior w1
      × Prepared prior w1 res w2
      × WaitsFor sleep readers req.state_request (post_state_checks type) w2 post w'
      × (r ≡ some (record res { post_state = some post }))

  with_arguments-Initialized :
      (bin_path vault_addr : Bytes) (w : W) {r : Option InitResponse} {w' : W}
      → Ends (with_arguments fuel sleep readers type tr un req bin_path vault_addr w) r w'
      → Initialized w r w'
  with_arguments-Initialized [] vault_addr w h = absurd (cc h)
  with_arguments-Initialized (c ∷ b) [] w h = absurd (cc h)
  with_arguments-Initialized (c ∷ b) (d ∷ v) w h =
      let (o, w1, waited, rest) = prior_result-inv _ h in
      let (prior, is_some, waits_for) =
        wait_for_state_in-Checked sleep readers req.state_request (prior_state_checks type) fuel w
          waited in
      let (w2, res, post, prepared, waits, e) =
        unless_initialized-Finishes prior _ w1 refl (rw is_some at rest) in
      (prior, w1, w2, res, post, waits_for, prepared, waits, e)

  -- Where Init ends with no error: it has waited for a state whose seal is known; if that state is
  -- known to be initialized, nothing was run, and else the init command printed to its output alone,
  -- had no error, and its output was decoded onto the response; then it has waited for a state that
  -- is initialized and whose seal is known; and the response is what was decoded, or the prior
  -- state alone where nothing was run, with the last state as its post state.
  pub init-Initialized :
      (w : W) {r : Option InitResponse} {w' : W}
      → init fuel sleep readers type tr un req w ≡ some (returned (r, none, w'))
      → Initialized w r w'
  unfolding init
  init-Initialized w h = with_arguments-Initialized req.cli.bin_path req.cli.vault_addr w h
