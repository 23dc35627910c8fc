-- ===== src/Retry/Reached.antt =====
-- From where the loop of internal/retry/retry.go makes the call that ends it with no error.
use terraform_provider_enos.Prelude.{
  ℕ, suc, ◌≡◌, ◌≢◌, refl, subst, inl, inr, Bool, true, false, Option, none, some,
}
use terraform_provider_enos.Go.{Err, Ran, returned, panicked, ◌>>=◌, join}
use terraform_provider_enos.Retry.{
  Env, active, done, Retrier, Func, Loop, Turn, retry_turn, retry_loop, start, after_run,
  after_poll, rest_or_stop, call, keep_error, interval, should_retry, run,
}
use terraform_provider_enos.Retry.Outcome.{SaysWhy, OnTurn, OnReturn, retry_loop-rule}

join-some : (x : Option Err) (e : Err) → join x (some e) ≢ none
join-some none e h = cc h
join-some (some x) e h = cc h

module _ {W A : Type 0} where
  -- The second target is left by a number of calls from the first, each one on a context that was
  -- not done, with an error, and with a pause after it.
  pub data Reached (env : Env W) (f : Func W A) (w0 : W) : W → Type 0 where
    at_once : Reached env f w0 w0
    after_failure :
        {w w' : W} {res : Option A} {e : Err}
        → Reached env f w0 w
        → env.poll w ≡ active
        → f w ≡ returned (res, some e, w')
        → (d : ℕ) → Reached env f w0 (env.sleep d w')

  -- A successful call after failed ones.
  abbrev pub Succeeds : Env W → Func W A → W → Option A → W → Type 0
  Succeeds env f w0 res w' = (w : W) × Reached env f w0 w × (f w ≡ returned (res, none, w'))

  abbrev Step : Env W → Func W A → W → Turn W A → Type 0
  Step env f w0 t =
      OnTurn (λ s. (s.retrier.func ≡ some f) × Reached env f w0 s.world)
        (λ s. s.err ≡ none → Succeeds env f w0 s.res s.world) t

  rest-Step :
      (env : Env W) (f : Func W A) (w0 : W) (s : Loop W A)
      → s.retrier.func ≡ some f
      → s.err ≢ none
      → ((d : ℕ) → Reached env f w0 (env.sleep d s.world))
      → (pause : Ran ℕ) (more : Bool) → Step env f w0 (rest_or_stop env s pause more)
  rest-Step env f w0 s h bad r pause false = λ ok. absurd (bad ok)
  rest-Step env f w0 s h bad r panicked true = tt
  rest-Step env f w0 s h bad r (returned d) true = (h, r d)

  call-Step :
      (env : Env W) (f : Func W A) (w0 : W) (s : Loop W A) (r : Retrier W A)
      → Reached env f w0 s.world
      → env.poll s.world ≡ active
      → r.func ≡ some f
      → (ran : Ran (Option A × Option Err × W)) → f s.world ≡ ran
      → Step env f w0 (after_run env s (ran >>= keep_error r))
  call-Step env f w0 s r there p h panicked e = tt
  call-Step env f w0 s r there p h (returned (res, none, w)) e = λ _. (s.world, there, e)
  call-Step env f w0 s r there p h (returned (res, some x, w)) e =
      rest-Step env f w0 _ h (join-some s.err _) (λ d. after_failure there p e d) (interval _)
        (should_retry _)

  done-Step :
      (env : Env W) (f : Func W A) (w0 : W) (s : Loop W A) (e : Err)
      → Step env f w0 (after_poll env s (done (some e)))
  done-Step env f w0 s e = λ ok. absurd (join-some s.err e ok)

  turn-Step :
      (env : Env W) (f : Func W A) (w0 : W) (s : Loop W A)
      → SaysWhy env
      → (s.retrier.func ≡ some f) × Reached env f w0 s.world
      → Step env f w0 (retry_turn env s)
  unfolding retry_turn run
  turn-Step env f w0 s why (h, there) = elim (why s.world) [
    | inl p ↦
        rw (p, retry_turn)
          (rw (h, call)
            (call-Step env f w0 s (record s.retrier { attempts = suc s.retrier.attempts }) there p h
              (f s.world) refl))
    | inr (e, p) ↦ rw (p, retry_turn) (done-Step env f w0 s e)
  ]

  retry_loop-OnReturn :
      (fuel : ℕ) (env : Env W) (r : Retrier W A) (f : Func W A) (w : W)
      → SaysWhy env
      → r.func ≡ some f
      → OnReturn
          (λ s. s.err ≡ none → Succeeds env f w s.res s.world)
          (retry_loop fuel env (start r w))
  unfolding start
  retry_loop-OnReturn fuel env r f w why h =
      retry_loop-rule env (λ s. (s.retrier.func ≡ some f) × Reached env f w s.world) _
        (λ s i. turn-Step env f w s why i) fuel (start r w) (h, at_once)

  -- A return with no error carries the result of a call that had none, made after calls that failed,
  -- where a context that is done says why.
  pub retry_loop-Succeeds :
      (fuel : ℕ) (env : Env W) (r : Retrier W A) (f : Func W A) (w : W) (s : Loop W A)
      → SaysWhy env
      → r.func ≡ some f
      → retry_loop fuel env (start r w) ≡ some (returned s)
      → s.err ≡ none
      → Succeeds env f w s.res s.world
  retry_loop-Succeeds fuel env r f w s why h ret =
      subst (OnReturn (λ t. t.err ≡ none → Succeeds env f w t.res t.world)) ret
        (retry_loop-OnReturn fuel env r f w why h)
