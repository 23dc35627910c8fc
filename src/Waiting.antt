-- ===== src/Waiting.antt =====
-- The shape of WaitForState of internal/remoteflight/vault/state.go and of internal/remoteflight/consul:
-- a retrier that tries to read a state every five seconds, without a maximum, until the checks pass on
-- it or the context is done. `S` is the state that is read, `W` the state of the target.
pub mod Tries
pub mod Worlds
use terraform_provider_enos.Prelude.{ℕ, ◌*◌, String, Option, none, some, List, [], ◌∷◌}
use terraform_provider_enos.Go.{Err, wrap, end, Ran, returned, panicked, ◌>>=◌}
use terraform_provider_enos.Stages.{Result}
use terraform_provider_enos.Retry.Interval.{second, interval_duration}
use terraform_provider_enos.Retry.{
  Env, Poll, active, done, Func, Retrier, Loop, with_interval_func, with_retrier_func, new_retrier,
  retry, retry_loop, start,
}

-- The rest of the checks, if there is no error yet.
abbrev pub or_rest : Ran (Option Err) → Option Err → Ran (Option Err)
or_rest rest (some e) = returned (some e)
or_rest rest none = rest

-- The context of the readers, as the retry loop polls it.
abbrev pub poll_of : Option Err → Poll
poll_of none = active
poll_of (some e) = done (some e)

abbrev pub env_of : {W : Type 0} → (W → Option Err) → (ℕ → W → W) → Env W
env_of ctx_err sleep = record { poll = λ w. poll_of (ctx_err w); sleep = sleep }

abbrev pub Waited : Type 0 → Type 0
Waited S = Option (Ran (Option S × Option Err))

abbrev pub wrap_if : String → Option Err → Option Err
wrap_if format none = none
wrap_if format (some e) = some (wrap format end e)

module _ {S : Type 0} where
  -- `for _, check := range checks`: the error of the first check that fails.
  unfoldable pub run_checks : List (Option S → Ran (Option Err)) → S → Ran (Option Err)
  run_checks [] s = returned none
  run_checks (check ∷ checks) s = let rest = run_checks checks s in check (some s) >>= or_rest rest

  abbrev pub checked : {W : Type 0} → S → W → Option Err → Result S W
  checked s w e = returned (some s, e, w)

  -- The error of the result, if there is one, is wrapped.
  abbrev pub waited : String → Waited S → Waited S
  waited format none = none
  waited format (some panicked) = some panicked
  waited format (some (returned (state, none))) = some (returned (state, none))
  waited format (some (returned (state, some e))) =
      some (returned (state, some (wrap format end e)))

  module _ {W : Type 0} where
    abbrev pub wait_retrier : Func W S → Retrier W S × Option Err
    wait_retrier try =
        new_retrier
          (with_interval_func (interval_duration (5 * second)) ∷ with_retrier_func try ∷ [])

    abbrev pub wait_unless : String → ℕ → Env W → Retrier W S × Option Err → W → Waited S
    wait_unless format fuel env (r, some e) w = waited format (some (returned (none, some e)))
    wait_unless format fuel env (r, none) w = waited format (retry fuel env (some r) w)

    -- What follows the definition of checkState, on fuel for the turns of the retry loop.
    unfoldable pub wait : String → ℕ → Env W → Func W S → W → Waited S
    unfolding new_retrier with_interval_func with_retrier_func retry interval_duration
    wait format fuel env try w = wait_unless format fuel env (wait_retrier try) w

    abbrev pub with_world : String → Option (Ran (Loop W S)) → Option (Result S W)
    with_world format none = none
    with_world format (some panicked) = some panicked
    with_world format (some (returned s)) = some (returned (s.res, wrap_if format s.err, s.world))

    abbrev pub wait_in_unless :
        String → ℕ → Env W → Retrier W S × Option Err → W → Option (Result S W)
    wait_in_unless format fuel env (r, some e) w =
        some (returned (none, some (wrap format end e), w))
    wait_in_unless format fuel env (r, none) w = with_world format (retry_loop fuel env (start r w))

    -- `wait`, with the target that it leaves.
    unfoldable pub wait_in : String → ℕ → Env W → Func W S → W → Option (Result S W)
    unfolding new_retrier with_interval_func with_retrier_func retry_loop start interval_duration
    wait_in format fuel env try w = wait_in_unless format fuel env (wait_retrier try) w
