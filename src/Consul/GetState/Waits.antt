-- ===== src/Consul/GetState/Waits.antt =====
-- What Consul's WaitForState returns.
use terraform_provider_enos.Prelude.{
  ℕ, ◌≡◌, ◌≢◌, refl, subst, Option, none, some, List, [], ◌∷◌, Bytes, arith, All,
}
use terraform_provider_enos.Go.{Err, Ran, returned, panicked, ◌>>=◌}
use terraform_provider_enos.Stages.{Progress, Result, proceed, finish, crash, result_of}
use terraform_provider_enos.Waiting.{env_of, Waited, run_checks, checked}
use terraform_provider_enos.Waiting.Tries.{
  FromTry, env_of-SaysWhy, wait-FromTry, run_checks_iff, checked_iff,
}
use terraform_provider_enos.Consul.Responses.{ConsulState}
use terraform_provider_enos.Consul.Checks.{ConsulCheck}
use terraform_provider_enos.Consul.GetState.{
  ConsulReaders, ConsulStateRequest, consul_stages, install, after_install, get_consul_state,
  get_consul_state_unless, check_consul_result, check_consul_unless, check_consul_state,
  wait_for_consul,
}
use terraform_provider_enos.Consul.GetState.Reads.{AllRead, get_consul_state-AllRead}

abbrev pub AllPass : List ConsulCheck → ConsulState → Type 0
AllPass checks s = All (λ check. check (some s) ≡ returned none) checks

result_of-some :
    {W : Type 0} (p : Progress ConsulState W) (w' : W) → result_of p ≢ returned (none, none, w')
result_of-some (proceed s w) w' = λ e. ground arith
result_of-some (finish s e w) w' = λ e. ground arith
result_of-some crash w' = λ e. ground arith

module _ {W : Type 0} where
  same_state :
      (t s : ConsulState) (w w' : W)
      → Path (Result ConsulState W) (returned (some t, none, w)) (returned (some s, none, w'))
      → (t ≡ s) × (w ≡ w')
  same_state t s w w' e = (cc e, cc e)

  passed :
      (checks : List ConsulCheck) (t s : ConsulState) (w w' : W)
      → (run_checks checks t >>= checked t w) ≡ returned (some s, none, w')
      → (Path (Result ConsulState W) (returned (some t, none, w)) (returned (some s, none, w')))
        × AllPass checks s
  passed checks t s w w' h =
      let (p, e, f) = (checked_iff t s w w' (run_checks checks t)).0 h in
      (rw (e, f) refl, subst (AllPass checks) e ((run_checks_iff checks t).0 p))

  result-AllPass :
      (checks : List ConsulCheck) (r : Result ConsulState W) (s : ConsulState) (w' : W)
      → (r >>= check_consul_result checks) ≡ returned (some s, none, w')
      → (r ≡ returned (some s, none, w')) × AllPass checks s
  result-AllPass checks panicked s w' h = ground arith
  result-AllPass checks (returned (t, some e, w)) s w' h = ground arith
  result-AllPass [] (returned (t, none, w)) s w' h = (h, tt)
  result-AllPass (c ∷ checks) (returned (none, none, w)) s w' h = ground arith
  result-AllPass (c ∷ checks) (returned (some t, none, w)) s w' h = passed (c ∷ checks) t s w w' h

  no_state :
      (checks : List ConsulCheck) (r : Result ConsulState W) (w' : W)
      → ((w : W) → r ≢ returned (none, none, w))
      → (r >>= check_consul_result checks) ≢ returned (none, none, w')
  no_state checks panicked w' n = λ e. ground arith
  no_state checks (returned (t, some e, w)) w' n = λ e. ground arith
  no_state checks (returned (none, none, w)) w' n = λ e. n w refl
  no_state [] (returned (some t, none, w)) w' n = λ e. ground arith
  no_state (c ∷ checks) (returned (some t, none, w)) w' n = go (run_checks (c ∷ checks) t)
    where
      go : (r : Ran (Option Err)) → (r >>= checked t w) ≢ returned (none, none, w')
      go panicked = λ e. ground arith
      go (returned none) = λ e. ground arith
      go (returned (some x)) = λ e. ground arith

module _ {W : Type 0} (readers : ConsulReaders W) (req : ConsulStateRequest) where
  get_consul_state-some : (w w' : W) → get_consul_state readers req w ≢ returned (none, none, w')
  unfolding get_consul_state
  get_consul_state-some w w' = unless (readers.ctx_err w)
    where
      installed :
          (r : Bytes × Option Err × W) → after_install readers req r ≢ returned (none, none, w')
      installed (path, none, w1) = result_of-some (consul_stages readers req path w1) w'
      installed (path, some e, w1) = λ x. ground arith

      unless :
          (e : Option Err) → get_consul_state_unless readers req e w ≢ returned (none, none, w')
      unless none = installed (install readers req w)
      unless (some e) = λ x. ground arith

  -- A state with no error was read with no error, and passed all checks.
  abbrev pub ConsulDesired : List ConsulCheck → Waited ConsulState → Type 0
  ConsulDesired checks none = Unit
  ConsulDesired checks (some panicked) = Unit
  ConsulDesired checks (some (returned (state, some e))) = Unit
  ConsulDesired checks (some (returned (none, none))) = ⊥
  ConsulDesired checks (some (returned (some s, none))) =
      (w : W) × (w' : W) × AllRead readers req w s w' × AllPass checks s

  try-ConsulDesired :
      (checks : List ConsulCheck) (state : Option ConsulState) (w w' : W) (c : Option Err)
      → check_consul_unless readers req c checks w ≡ returned (state, none, w')
      → ConsulDesired checks (some (returned (state, none)))
  try-ConsulDesired checks state w w' (some e) h = ground arith
  try-ConsulDesired checks none w w' none h =
      no_state checks (get_consul_state readers req w) w' (get_consul_state-some w) h
  try-ConsulDesired checks (some s) w w' none h =
      let (r, p) = result-AllPass checks (get_consul_state readers req w) s w' h in
      (w, w', get_consul_state-AllRead readers req w s w' r, p)

  tried :
      (checks : List ConsulCheck) (o : Waited ConsulState)
      → FromTry (check_consul_state readers req checks) o
      → ConsulDesired checks o
  unfolding check_consul_state
  tried checks none h = tt
  tried checks (some panicked) h = tt
  tried checks (some (returned (state, some e))) h = tt
  tried checks (some (returned (none, none))) (w, w', e) =
      try-ConsulDesired checks none w w' (readers.ctx_err w) e
  tried checks (some (returned (some s, none))) (w, w', e) =
      try-ConsulDesired checks (some s) w w' (readers.ctx_err w) e

  -- A state that Consul's WaitForState returns with no error was read with no error in all its fields
  -- and passes all checks, and it returns no error only with a state.
  pub wait_for_consul-ConsulDesired :
      (fuel : ℕ) (sleep : ℕ → W → W) (checks : List ConsulCheck) (w : W)
      → ConsulDesired checks (wait_for_consul readers req fuel sleep checks w)
  unfolding wait_for_consul
  wait_for_consul-ConsulDesired fuel sleep checks w = tried checks _ (
      wait-FromTry _ fuel (env_of readers.ctx_err sleep) (check_consul_state readers req checks) w
        (env_of-SaysWhy readers.ctx_err sleep))
