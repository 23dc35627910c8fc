-- ===== src/Flight/Target/Request.antt =====
-- internal/remoteflight/target.go: the request of a question to a target, and the question asked by the request's
-- retrier.
use terraform_provider_enos.Prelude.{ℕ, ◌*◌, Option, none, some, List, [], Bytes}
use terraform_provider_enos.Go.{Err, Ran, returned, panicked, ◌>>=◌}
use terraform_provider_enos.Retry.{
  Env, Func, Retrier, RetrierOpt, Loop, retry_loop, start, max_retries_unlimited,
}
use terraform_provider_enos.Go.{apply_opts}
use terraform_provider_enos.Retry.Interval.{second, interval_exponential}

pub record TargetRequest (W : Type 0) : Type 0 where
  pub retrier : Retrier W Bytes
  pub retry_opts : List (RetrierOpt W Bytes)

abbrev pub TargetRequestOpt : Type 0 → Type 0
TargetRequestOpt W = TargetRequest W → TargetRequest W

pub record HostInfo : Type 0 where
  pub arch : Option Bytes
  pub distro : Option Bytes
  pub distro_version : Option Bytes
  pub hostname : Option Bytes
  pub pid1 : Option Bytes
  pub platform : Option Bytes
  pub platform_version : Option Bytes

-- A text, an error, and the target after the call.
abbrev pub Told : Type 0 → Type 0
Told W = Option (Ran (Bytes × Option Err × W))

module _ {W : Type 0} where
  -- A copy: values are not shared.
  abbrev pub clone : TargetRequest W → TargetRequest W
  clone t = record { retrier = t.retrier; retry_opts = t.retry_opts }

  abbrev pub with_target_request_retry_opts : List (RetrierOpt W Bytes) → TargetRequestOpt W
  with_target_request_retry_opts opts req = record req { retry_opts = opts }

  abbrev pub with_retry_opts : TargetRequest W → TargetRequest W
  with_retry_opts req = record req { retrier = apply_opts req.retry_opts req.retrier }

  -- `wide` is what the interval's conversion makes of a float64 that is too large.
  abbrev pub new_target_request : (ℕ → ℕ) → List (TargetRequestOpt W) → TargetRequest W
  new_target_request wide opts = with_retry_opts (
      apply_opts opts (record {
        retrier = record {
          attempts = 0;
          max_retries = max_retries_unlimited;
          only_retry_error = [];
          retry_interval = interval_exponential wide (2 * second);
          func = none;
          last_err = none;
        };
        retry_opts = [];
      }))

  abbrev pub set_func : TargetRequest W → Func W Bytes → Retrier W Bytes
  set_func req f = record req.retrier { func = some f }

  -- Retry with a function of the request's, and what its end makes of the result and the error.
  abbrev pub ended :
      (Option Bytes → Option Err → Ran (Bytes × Option Err)) → Option (Ran (Loop W Bytes)) → Told W
  ended finish none = none
  ended finish (some panicked) = some panicked
  ended finish (some (returned s)) =
      some (finish s.res s.err >>= λ (t, e). returned (t, e, s.world))

  -- The same, with the request as its retrier is left, whose attempts the next question goes on from.
  abbrev pub ended_sharing :
      TargetRequest W
      → (Option Bytes → Option Err → Ran (Bytes × Option Err))
      → Option (Ran (Loop W Bytes))
      → Option (Ran (Bytes × Option Err × TargetRequest W × W))
  ended_sharing req finish none = none
  ended_sharing req finish (some panicked) = some panicked
  ended_sharing req finish (some (returned s)) = some (
      finish s.res s.err >>= λ (t, e). returned (t, e, record req { retrier = s.retrier }, s.world))

  unfoldable pub asked_sharing :
      ℕ
      → Env W
      → TargetRequest W
      → Func W Bytes
      → (Option Bytes → Option Err → Ran (Bytes × Option Err))
      → W
      → Option (Ran (Bytes × Option Err × TargetRequest W × W))
  unfolding retry_loop start
  asked_sharing fuel env req f finish w =
      ended_sharing req finish (retry_loop fuel env (start (set_func req f) w))

  unfoldable pub asked :
      ℕ
      → Env W
      → TargetRequest W
      → Func W Bytes
      → (Option Bytes → Option Err → Ran (Bytes × Option Err))
      → W
      → Told W
  unfolding retry_loop start
  asked fuel env req f finish w = ended finish (retry_loop fuel env (start (set_func req f) w))
