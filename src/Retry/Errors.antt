-- ===== src/Retry/Errors.antt =====
-- Which errors the loop of internal/retry/retry.go retries on, and which it returns.
use terraform_provider_enos.Prelude.{
  ℕ, suc, ◌<◌, ◌≡◌, refl, ◌⊎◌, ◌↔◌, inl, inr, Bool, true, false, ◌||◌, Option, none, some, List, [],
  ◌∷◌, String, arith, any_of-Some, Some-any_of, Some,
}
use terraform_provider_enos.Go.{
  ◌>>=◌, Err, Ran, returned, panicked, join, errors_is, is_error, pos, ℤ, negsuc,
}
use terraform_provider_enos.Retry.{
  Env, Retrier, Loop, Turn, should_retry, retry_turn, retry_loop, start, attempt_error, Func, Poll,
  active, done, call, keep_error, run, max_reached, retry_on, interval, after_run, after_poll,
  rest_or_stop,
}
use terraform_provider_enos.Retry.Outcome.{OnReturn, OnTurn, retry_loop-rule}

is_error-join :
    (a b : Option Err) (t : String) → is_error (join a b) t ≡ (is_error a t || is_error b t)
is_error-join none b t = refl
is_error-join (some a) none t = ground arith
is_error-join (some a) (some b) t = refl

is-attempt_error : (n : ℕ) (e : Err) (t : String) → errors_is (attempt_error n e) t ≡ errors_is e t
is-attempt_error n e t = ground arith

or-true : (b : Bool) → (b || true) ≡ true
or-true b = ground arith

module _ {W A : Type 0} where
  -- The error so far is also whatever the last call's error is.
  abbrev pub Keeps : Loop W A → Type 0
  Keeps s = (t : String) → is_error s.retrier.last_err t ≡ true → is_error s.err t ≡ true

  done-Keeps : (s : Loop W A) (e : Option Err) → Keeps s → Keeps (record s { err = join s.err e })
  done-Keeps s e k t h = rw (is_error-join s.err e t, k t h)

  failed-Keeps :
      (s : Loop W A) (r : Retrier W A) (res : Option A) (e : Err) (w : W)
      → Keeps (record s {
        world = w;
        retrier = record r { last_err = some e };
        res = res;
        err = join s.err (some (attempt_error s.attempts e));
      })
  failed-Keeps s r res e w t h =
      rw
        (
          is_error-join s.err (some (attempt_error s.attempts e)) t,
          is-attempt_error s.attempts e t,
          h,
        )
        (or-true (is_error s.err t))

  abbrev KeepsOnTurn : Turn W A → Type 0
  KeepsOnTurn = OnTurn Keeps (λ s. (s.err ≡ none) ⊎ Keeps s)

  retry-Keeps :
      (env : Env W) (s : Loop W A) (pause : Ran ℕ) (b : Bool)
      → Keeps s
      → KeepsOnTurn (rest_or_stop env s pause b)
  retry-Keeps env s pause false k = inr k
  retry-Keeps env s panicked true k = tt
  retry-Keeps env s (returned d) true k = k

  call-Keeps :
      (env : Env W) (s : Loop W A) (r : Retrier W A) (res : Option A) (err : Option Err) (w : W)
      → KeepsOnTurn (after_run env s (returned (record r { last_err = err }, res, err, w)))
  call-Keeps env s r res none w = inl refl
  call-Keeps env s r res (some e) w =
      retry-Keeps env _ (interval (record r { last_err = some e }))
        (should_retry (record r { last_err = some e })) (failed-Keeps s r res e w)

  ran-Keeps :
      (env : Env W) (s : Loop W A) (r : Retrier W A) (ran : Ran (Option A × Option Err × W))
      → KeepsOnTurn (after_run env s (ran >>= keep_error r))
  ran-Keeps env s r (returned (res, err, w)) = call-Keeps env s r res err w
  ran-Keeps env s r panicked = tt

  run-Keeps :
      (env : Env W) (s : Loop W A) (r : Retrier W A) (f : Option (Func W A))
      → KeepsOnTurn (after_run env s (call r f s.world))
  run-Keeps env s r none = tt
  run-Keeps env s r (some f) = ran-Keeps env s r (f s.world)

  poll-Keeps : (env : Env W) (s : Loop W A) (p : Poll) → Keeps s → KeepsOnTurn (after_poll env s p)
  unfolding run
  poll-Keeps env s (done e) k = inr (done-Keeps s e k)
  poll-Keeps env s active k =
      run-Keeps env s (record s.retrier { attempts = suc s.retrier.attempts }) s.retrier.func

  turn-Keeps : (env : Env W) (s : Loop W A) → Keeps s → KeepsOnTurn (retry_turn env s)
  unfolding retry_turn
  turn-Keeps env s k = poll-Keeps env s (env.poll s.world) k

  -- For a retrier that starts with no last error, the loop returns no error, or one that is, by
  -- errors.Is, whatever the last call's error is: no wrapping with the attempt's number, no join and no
  -- done context hides it.
  pub retry_loop-Keeps :
      (fuel : ℕ) (env : Env W) (r : Retrier W A) (w : W)
      → r.last_err ≡ none
      → OnReturn (λ s. (s.err ≡ none) ⊎ Keeps s) (retry_loop fuel env (start r w))
  unfolding start
  retry_loop-Keeps fuel env r w e =
      retry_loop-rule env Keeps _ (turn-Keeps env) fuel (start r w) (λ t h. ground arith)

-- More calls are allowed by the maximum; the last error is one to retry on.
abbrev pub Below : ℤ → ℕ → Type 0
Below (pos n) a = a < n
Below (negsuc _) a = Unit

abbrev pub Retryable : List String → Option Err → Type 0
Retryable [] err = Unit
Retryable (t ∷ ts) err = Some (λ t'. is_error err t' ≡ true) (t ∷ ts)

abbrev pub Allowed : {W A : Type 0} → Retrier W A → Type 0
Allowed r = Below r.max_retries r.attempts × Retryable r.only_retry_error r.last_err

max_reached-Below : (m : ℤ) (a : ℕ) → (max_reached m a ≡ false) ↔ Below m a
max_reached-Below (pos n) a = ground arith
max_reached-Below (negsuc _) a = (λ _. tt, λ _. refl)

retry_on-Retryable :
    (ts : List String) (err : Option Err) → (retry_on ts err ≡ true) ↔ Retryable ts err
retry_on-Retryable [] err = (λ _. tt, λ _. refl)
retry_on-Retryable (t ∷ ts) err =
    (any_of-Some (is_error err) (t ∷ ts), Some-any_of (is_error err) (t ∷ ts))

-- The retrier goes on exactly when its maximum is negative or above the calls made, and its last
-- error is, by errors.Is, one of those to retry on, or there are none of these.
pub should_retry_iff : {W A : Type 0} (r : Retrier W A) → (should_retry r ≡ true) ↔ Allowed r
unfolding should_retry
should_retry_iff r = (
  λ h. (
    (max_reached-Below r.max_retries r.attempts).0 (ground arith),
    (retry_on-Retryable r.only_retry_error r.last_err).0 (ground arith),
  ),
  λ h. rw (
    (max_reached-Below r.max_retries r.attempts).1 h.0,
    (retry_on-Retryable r.only_retry_error r.last_err).1 h.1,
  ),
)
