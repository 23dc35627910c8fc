-- ===== src/Retry.antt =====
-- internal/retry/retry.go: the retrier, its options and the loop that drives it.
-- The context and the clock are an environment over a world `W`: what a poll of ctx.Done() finds,
-- and the world after time.Sleep. The operation that is retried takes a world to a result.
pub mod Interval
pub mod First
pub mod Fibonacci
pub mod Bounds
pub mod Outcome
pub mod Reached
pub mod Deadline
pub mod Errors
pub mod Failing
use terraform_provider_enos.Prelude.{
  ℕ, zero, suc, Bool, true, false, ◌&&◌, Option, none, some, List, [], ◌∷◌, String, ltb, any_of,
  is_some, if◌then◌else◌,
}
use terraform_provider_enos.Go.{
  apply_opts, Err, sentinel, wrap, end, num, new, join, is_error, Ran, returned, panicked, ◌>>=◌, ℤ,
  negsuc, above_minus_one, at_least,
}
use terraform_provider_enos.Retry.Interval.{RetryInterval, interval_fibonacci, second}

-- What `select` on ctx.Done() finds; a context that is done carries ctx.Err().
pub data Poll : Type 0 where
  active : Poll
  done : Option Err → Poll

pub record Env (W : Type 0) : Type 0 where
  pub poll : W → Poll
  pub sleep : ℕ → W → W

-- The operation, which may panic: its result and error, and the world that it leaves.
abbrev pub Func : Type 0 → Type 0 → Type 0
Func W A = W → Ran (Option A × Option Err × W)

pub record Retrier (W A : Type 0) : Type 0 where
  pub attempts : ℕ
  pub max_retries : ℤ
  pub only_retry_error : List String
  pub retry_interval : RetryInterval
  pub func : Option (Func W A)
  pub last_err : Option Err

abbrev pub max_retries_unlimited : ℤ
max_retries_unlimited = negsuc 0

abbrev pub err_no_retry_func : Err
err_no_retry_func = sentinel "no retry function has been set"

abbrev pub RetrierOpt : Type 0 → Type 0 → Type 0
RetrierOpt W A = Retrier W A → Retrier W A

-- The variables of Retry's loop.
pub record Loop (W A : Type 0) : Type 0 where
  pub world : W
  pub retrier : Retrier W A
  pub attempts : ℕ
  pub err : Option Err
  pub res : Option A

-- Where one turn of the loop ends: in another turn, in a return (the loop's variables then hold
-- what is returned), or in a panic.
pub data Turn (W A : Type 0) : Type 0 where
  again : Loop W A → Turn W A
  stop : Loop W A → Turn W A
  crash : Turn W A

abbrev pub attempt_error : ℕ → Err → Err
attempt_error attempts e =
    if ltb 1 attempts then wrap "attempt %d: %w\n" (num attempts end) e else e

-- The tests of ShouldRetry: the maximum is set and reached; the error is one to retry on.
abbrev pub max_reached : ℤ → ℕ → Bool
max_reached m attempts = above_minus_one m && at_least attempts m

abbrev pub retry_on : List String → Option Err → Bool
retry_on [] err = true
retry_on (t ∷ ts) err = any_of (is_error err) (t ∷ ts)

module _ {W A : Type 0} where
  unfoldable pub with_retrier_func : Func W A → RetrierOpt W A
  with_retrier_func f r = record r { func = some f }

  unfoldable pub with_max_retries : ℤ → RetrierOpt W A
  with_max_retries retries r = record r { max_retries = retries }

  unfoldable pub with_only_retry_errors : List String → RetrierOpt W A
  with_only_retry_errors err r = record r { only_retry_error = err }

  unfoldable pub with_interval_func : RetryInterval → RetrierOpt W A
  with_interval_func i r = record r { retry_interval = i }

  unfoldable pub default_retrier : Retrier W A
  default_retrier = record {
    attempts = 0;
    max_retries = max_retries_unlimited;
    only_retry_error = [];
    retry_interval = interval_fibonacci second;
    func = none;
    last_err = none;
  }

  unfoldable pub new_retrier : List (RetrierOpt W A) → Retrier W A × Option Err
  unfolding default_retrier
  new_retrier opts =
      let r = apply_opts opts default_retrier in
      (r, if is_some r.func then none else some err_no_retry_func)

  -- Clone: a value is its own copy.
  abbrev clone : Option (Retrier W A) → Option (Retrier W A)
  clone none = none
  clone (some r) = some r

  -- Retrier.Interval
  unfoldable pub interval : Retrier W A → Ran ℕ
  interval r = r.retry_interval r.attempts

  abbrev keep_error :
      Retrier W A → Option A × Option Err × W → Ran (Retrier W A × Option A × Option Err × W)
  keep_error r (res, err, w) = returned (record r { last_err = err }, res, err, w)

  abbrev call : Retrier W A → Option (Func W A) → W → Ran (Retrier W A × Option A × Option Err × W)
  call r none w = panicked
  call r (some f) w = f w >>= keep_error r

  -- Retrier.Run counts the attempt, makes the call and keeps its error.
  unfoldable pub run : Retrier W A → W → Ran (Retrier W A × Option A × Option Err × W)
  run r w = call (record r { attempts = suc r.attempts }) r.func w

  -- Retrier.ShouldRetry
  unfoldable pub should_retry : Retrier W A → Bool
  should_retry r =
      if max_reached r.max_retries r.attempts then false else retry_on r.only_retry_error r.last_err

  -- After a failed run: give up, or count the attempt and sleep.
  abbrev rest_or_stop : Env W → Loop W A → Ran ℕ → Bool → Turn W A
  rest_or_stop env s pause false = stop s
  rest_or_stop env s panicked true = crash
  rest_or_stop env s (returned d) true =
      again (record s { attempts = suc s.attempts; world = env.sleep d s.world })

  abbrev after_run : Env W → Loop W A → Ran (Retrier W A × Option A × Option Err × W) → Turn W A
  after_run env s panicked = crash
  after_run env s (returned (r, res, none, w)) =
      stop (record s { world = w; retrier = r; res = res; err = none })
  after_run env s (returned (r, res, some e, w)) =
      let failed = record s {
        world = w;
        retrier = r;
        res = res;
        err = join s.err (some (attempt_error s.attempts e));
      } in
      rest_or_stop env failed (interval r) (should_retry r)

  abbrev after_poll : Env W → Loop W A → Poll → Turn W A
  after_poll env s (done e) = stop (record s { err = join s.err e })
  after_poll env s active = after_run env s (run s.retrier s.world)

  -- One turn of the loop in Retry.
  unfoldable pub retry_turn : Env W → Loop W A → Turn W A
  unfolding run interval should_retry
  retry_turn env s = after_poll env s (env.poll s.world)

  -- The loop on fuel, one unit for each turn: `none` if the fuel runs out.
  unfoldable pub retry_loop : ℕ → Env W → Loop W A → Option (Ran (Loop W A))
  retry_loop zero env s = none
  retry_loop (suc fuel) env s = elim (retry_turn env s) [
    | again s' ↦ retry_loop fuel env s'
    | stop s' ↦ some (returned s')
    | crash ↦ some panicked
  ]

  unfoldable pub start : Retrier W A → W → Loop W A
  start r w = record { world = w; retrier = r; attempts = 1; err = none; res = none }

  -- Retry: a nil request is an error, else the loop runs.
  unfoldable pub retry : ℕ → Env W → Option (Retrier W A) → W → Option (Ran (Option A × Option Err))
  unfolding retry_loop start
  retry fuel env none w = some (returned (none, some (new "no retryable request")))
  retry fuel env (some r) w = elim (retry_loop fuel env (start r w)) [
    | none ↦ none
    | some panicked ↦ some panicked
    | some (returned s) ↦ some (returned (s.res, s.err))
  ]
