-- ===== src/Waiting/Tries.antt =====
-- What a wait for a state returns, and when it returns.
use terraform_provider_enos.Prelude.{
  ℕ, ◌<◌, ◌≡◌, ◌≢◌, ◌↔◌, refl, ◌⊎◌, inl, inr, String, Option, none, some, List, [], ◌∷◌, arith, All,
}
use terraform_provider_enos.Go.{Err, Ran, returned, panicked, ◌>>=◌}
use terraform_provider_enos.Retry.{Env, active, done, Func, Loop, retry, start}
use terraform_provider_enos.Retry.Outcome.{SaysWhy, FromSuccess, OnReturn, retry_loop-OnReturn}
use terraform_provider_enos.Retry.Deadline.{Nears, retry_loop-Nears}
use terraform_provider_enos.Waiting.{
  poll_of, env_of, Waited, waited, wait, wait_retrier, run_checks, or_rest, checked,
}

or_rest_iff :
    (r rest : Ran (Option Err))
    → ((r >>= or_rest rest) ≡ returned none) ↔ ((r ≡ returned none) × (rest ≡ returned none))
or_rest_iff panicked rest = ground arith
or_rest_iff (returned none) rest = ground arith
or_rest_iff (returned (some e)) rest = ground arith

pub env_of-SaysWhy :
    {W : Type 0} (ctx_err : W → Option Err) (sleep : ℕ → W → W) → SaysWhy (env_of ctx_err sleep)
env_of-SaysWhy ctx_err sleep w = go (ctx_err w)
  where
    go : (c : Option Err) → (poll_of c ≡ active) ⊎ ((e : Err) × (poll_of c ≡ done (some e)))
    go none = inl refl
    go (some e) = inr (e, refl)

module _ {S : Type 0} where
  -- The loop over the checks finds no error exactly when all of them pass.
  pub run_checks_iff :
      (checks : List (Option S → Ran (Option Err))) (s : S)
      → (run_checks checks s ≡ returned none) ↔ All (λ check. check (some s) ≡ returned none) checks
  unfolding run_checks
  run_checks_iff [] s = ground arith
  run_checks_iff (check ∷ checks) s =
      let (to, from) = or_rest_iff (check (some s)) (run_checks checks s) in
      let (all, any) = run_checks_iff checks s in
      (λ h. ((to h).0, all (to h).1), λ (p, ps). from (p, any ps))

  pub checked_iff :
      {W : Type 0} (s t : S) (w w' : W) (r : Ran (Option Err))
      → ((r >>= checked s w) ≡ returned (some t, none, w'))
        ↔ ((r ≡ returned none) × (s ≡ t) × (w ≡ w'))
  checked_iff s t w w' panicked = ground arith
  checked_iff s t w w' (returned none) = ground arith
  checked_iff s t w w' (returned (some e)) = ground arith

  module _ {W : Type 0} where
    -- What comes with no error is what some try returned with no error.
    abbrev pub FromTry : Func W S → Waited S → Type 0
    FromTry try none = Unit
    FromTry try (some panicked) = Unit
    FromTry try (some (returned (state, some e))) = Unit
    FromTry try (some (returned (state, none))) =
        (w : W) × (w' : W) × (try w ≡ returned (state, none, w'))

    loop-FromTry :
        (format : String) (try : Func W S) (o : Option (Ran (Loop W S)))
        → OnReturn (λ t. t.err ≡ none → FromSuccess (some try) t) o
        → FromTry try (
            waited format (elim o [
              | none ↦ none
              | some panicked ↦ some panicked
              | some (returned t) ↦ some (returned (t.res, t.err))
            ]))
    loop-FromTry format try none h = tt
    loop-FromTry format try (some panicked) h = tt
    loop-FromTry format try (some (returned t)) h = go t.err h
      where
        go :
            (e : Option Err)
            → (e ≡ none → FromSuccess (some try) t)
            → FromTry try (waited format (some (returned (t.res, e))))
        go none h = let (w, p) = h refl in (w, t.world, p)
        go (some e) h = tt

    pub wait-FromTry :
        (format : String) (fuel : ℕ) (env : Env W) (try : Func W S) (w : W)
        → SaysWhy env
        → FromTry try (wait format fuel env try w)
    unfolding wait retry
    wait-FromTry format fuel env try w why =
        loop-FromTry format try _ (retry_loop-OnReturn fuel env (wait_retrier try).0 try w why refl)

    pub wait-Nears :
        (format : String) (fuel : ℕ) (env : Env W) (try : Func W S) (m : W → ℕ) (w : W)
        → Nears env try m
        → m w < fuel
        → wait format fuel env try w ≢ none
    unfolding wait retry start
    wait-Nears format fuel env try m w n enough =
        go _ (retry_loop-Nears fuel env try m (start (wait_retrier try).0 w) n refl enough)
      where
        some_waited :
            (r : Option S) (e : Option Err) → waited format (some (returned (r, e))) ≢ none
        some_waited r none = λ e. ground arith
        some_waited r (some x) = λ e. ground arith

        go :
            (o : Option (Ran (Loop W S)))
            → o ≢ none
            → waited format (elim o [
              | none ↦ none
              | some panicked ↦ some panicked
              | some (returned t) ↦ some (returned (t.res, t.err))
            ])
              ≢ none
        go none h = λ e. h refl
        go (some panicked) h = λ e. ground arith
        go (some (returned t)) h = some_waited t.res t.err
