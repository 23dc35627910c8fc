-- ===== src/Vault/WaitForState/Checks.antt =====
-- What the function that WaitForState retries returns.
use terraform_provider_enos.Prelude.{
  ◌≡◌, refl, sym, ◌∙◌, subst, ◌↔◌, ◌≢◌, Option, none, some, List, arith, All,
}
use terraform_provider_enos.Go.{Err, wrap, end, Ran, returned, panicked, ◌>>=◌}
use terraform_provider_enos.Vault.State.{State}
use terraform_provider_enos.Vault.Checks.Base.{CheckStater, Passes, pass}
use terraform_provider_enos.Vault.GetState.{Readers, StateRequest, GetStateResult, get_state}
use terraform_provider_enos.Waiting.{run_checks, checked}
use terraform_provider_enos.Waiting.Tries.{run_checks_iff, checked_iff}
use terraform_provider_enos.Vault.WaitForState.{check_state, check_result, check_state_unless}

module _ {W : Type 0} where
  -- The result of GetState and of the checks on it.
  abbrev pub Checked : List CheckStater → GetStateResult W → State → W → Type 0
  Checked checks r s w' =
      (r ≡ returned (some s, none, w')) × All (λ check. Passes check (some s)) checks

  -- A state and a target that are those of the result pass to the checks.
  all_passed :
      (checks : List CheckStater) (s t : State) (w w' : W)
      → (r : run_checks checks t ≡ pass) → t ≡ s
      → w ≡ w'
      → Checked checks (returned (some t, none, w)) s w'
  all_passed checks s t w w' r e f = (
    rw (e, f) refl,
    subst (λ x. All (λ check. Passes check (some x)) checks) e ((run_checks_iff checks t).0 r),
  )

  t_is_s :
      (t s : State) (w w' : W)
      → Path (GetStateResult W) (returned (some t, none, w)) (returned (some s, none, w'))
      → (t ≡ s) × (w ≡ w')
  t_is_s t s w w' e = (cc e, cc e)

  check_result_iff :
      (checks : List CheckStater) (r : GetStateResult W) (s : State) (w' : W)
      → ((r >>= check_result checks) ≡ returned (some s, none, w')) ↔ Checked checks r s w'
  check_result_iff checks panicked s w' = ground arith
  check_result_iff checks (returned (t, some e, w)) s w' = ground arith
  check_result_iff checks (returned (none, none, w)) s w' = ground arith
  check_result_iff checks (returned (some t, none, w)) s w' =
      let (to, from) = checked_iff t s w w' (run_checks checks t) in
      (
        (λ h. all_passed checks s t w w' (to h).0 (to h).1 (to h).2),
        (λ (e, p).
            let te = t_is_s t s w w' e in
            from (
              (run_checks_iff checks t).1
                  (subst (λ x. All (λ check. Passes check (some x)) checks) (sym te.0) p),
              te.0,
              te.1,
            )),
      )

  none_state :
      (checks : List CheckStater) (r : GetStateResult W) (w' : W)
      → (r >>= check_result checks) ≢ returned (none, none, w')
  none_state checks panicked w' = λ e. ground arith
  none_state checks (returned (t, some e, w)) w' = λ e. ground arith
  none_state checks (returned (none, none, w)) w' = λ e. ground arith
  none_state checks (returned (some s, none, w)) w' = go (run_checks checks s)
    where
      go : (r : Ran (Option Err)) → (r >>= checked s w) ≢ returned (none, none, w')
      go panicked = λ e. ground arith
      go (returned none) = λ e. ground arith
      go (returned (some x)) = λ e. ground arith

  module _ (readers : Readers W) (req : StateRequest) (checks : List CheckStater) where
    -- The function that WaitForState retries returns a state with no error exactly when GetState
    -- returns that state with no error and all checks pass on it; it never returns neither a state nor
    -- an error.
    pub check_state_iff :
        (w : W) (s : State) (w' : W)
        → ((check_state readers req checks w ≡ returned (some s, none, w'))
            ↔ Checked checks (get_state readers req w) s w')
          × (check_state readers req checks w ≢ returned (none, none, w'))
    unfolding check_state
    check_state_iff w s w' = go (readers.ctx_err w) refl
      where
        go :
            (c : Option Err)
            → readers.ctx_err w ≡ c
            → ((check_state_unless c readers req checks w ≡ returned (some s, none, w'))
                ↔ Checked checks (get_state readers req w) s w')
              × (check_state_unless c readers req checks w ≢ returned (none, none, w'))
        go none h = (
          check_result_iff checks (get_state readers req w) s w',
          none_state checks (get_state readers req w) w',
        )
        go (some e) h =
            ((λ x. ground arith, λ (x, _). absurd (done_none (rw h refl) x)), λ x. ground arith)
          where
            done_none :
                get_state readers req w
                  ≡ returned (none, some (wrap "getting vault state: %w" end e), w)
                → get_state readers req w ≢ returned (some s, none, w')
            done_none p q = ground (arith, sym p ∙ q)
