-- ===== src/Retry/Deadline.antt =====
-- When the loop of internal/retry/retry.go ends although its retries are not limited.
use terraform_provider_enos.Prelude.{
  ℕ, zero, suc, ◌<◌, ◌≡◌, ◌≢◌, refl, Bool, true, false, Option, none, some, arith,
}
use terraform_provider_enos.Go.{Err, Ran, returned, panicked, ◌>>=◌}
use terraform_provider_enos.Retry.{
  Env, active, done, Poll, Retrier, Func, Loop, Turn, again, stop, crash, retry_turn, retry_loop,
  after_run, after_poll, rest_or_stop, call, keep_error, interval, should_retry, run,
}
use terraform_provider_enos.Retry.Outcome.{OnTurn}

module _ {W A : Type 0} where
  -- Each failed call and the pause after it lower the measure, as they do the time to a deadline.
  abbrev pub Nears : Env W → Func W A → (W → ℕ) → Type 0
  Nears env f m =
      (w : W) (res : Option A) (e : Err) (w' : W) (d : ℕ)
      → env.poll w ≡ active
      → f w ≡ returned (res, some e, w')
      → m (env.sleep d w') < m w

  abbrev Nearer : Func W A → (W → ℕ) → W → Turn W A → Type 0
  Nearer f m w t = OnTurn (λ s. (s.retrier.func ≡ some f) × (m s.world < m w)) (λ _. Unit) t

  rest-Nearer :
      (env : Env W) (f : Func W A) (m : W → ℕ) (w : W) (s : Loop W A)
      → s.retrier.func ≡ some f
      → ((d : ℕ) → m (env.sleep d s.world) < m w)
      → (pause : Ran ℕ) (more : Bool) → Nearer f m w (rest_or_stop env s pause more)
  rest-Nearer env f m w s h n pause false = tt
  rest-Nearer env f m w s h n panicked true = tt
  rest-Nearer env f m w s h n (returned d) true = (h, n d)

  call-Nearer :
      (env : Env W) (f : Func W A) (m : W → ℕ) (s : Loop W A) (r : Retrier W A)
      → Nears env f m
      → env.poll s.world ≡ active
      → r.func ≡ some f
      → (ran : Ran (Option A × Option Err × W)) → f s.world ≡ ran
      → Nearer f m s.world (after_run env s (ran >>= keep_error r))
  call-Nearer env f m s r n p h panicked e = tt
  call-Nearer env f m s r n p h (returned (res, none, w)) e = tt
  call-Nearer env f m s r n p h (returned (res, some x, w)) e =
      rest-Nearer env f m s.world _ h (λ d. n s.world res x w d p e) (interval _) (should_retry _)

  poll-Nearer :
      (env : Env W) (f : Func W A) (m : W → ℕ) (s : Loop W A)
      → Nears env f m
      → s.retrier.func ≡ some f
      → (p : Poll) → env.poll s.world ≡ p
      → Nearer f m s.world (after_poll env s p)
  unfolding run
  poll-Nearer env f m s n h (done e) p = tt
  poll-Nearer env f m s n h active p =
      rw (h, call)
        (call-Nearer env f m s (record s.retrier { attempts = suc s.retrier.attempts }) n p h
          (f s.world) refl)

  turn-Nearer :
      (env : Env W) (f : Func W A) (m : W → ℕ) (s : Loop W A)
      → Nears env f m
      → s.retrier.func ≡ some f
      → Nearer f m s.world (retry_turn env s)
  unfolding retry_turn
  turn-Nearer env f m s n h = poll-Nearer env f m s n h (env.poll s.world) refl

  -- Where each failed call lowers a measure of the world, the loop ends within one turn more than the
  -- measure, whatever the retrier's maximum is.
  pub retry_loop-Nears :
      (fuel : ℕ) (env : Env W) (f : Func W A) (m : W → ℕ) (s : Loop W A)
      → Nears env f m
      → s.retrier.func ≡ some f
      → m s.world < fuel
      → retry_loop fuel env s ≢ none
  unfolding retry_loop
  retry_loop-Nears zero env f m s n h enough = absurd (omega arith)
  retry_loop-Nears (suc fuel) env f m s n h enough =
      go (retry_turn env s) (turn-Nearer env f m s n h) (retry_loop-Nears fuel env f m)
    where
      go :
          (t : Turn W A)
          → Nearer f m s.world t
          → ((s' : Loop W A)
              → Nears env f m
              → s'.retrier.func ≡ some f
              → m s'.world < fuel
              → retry_loop fuel env s' ≢ none)
          → elim t [
            | again s' ↦ retry_loop fuel env s'
            | stop s' ↦ some (returned s')
            | crash ↦ some panicked
          ]
            ≢ none
      go (again s') (h', l) ih = ih s' n h' (omega arith)
      go (stop s') l ih = λ e. ground arith
      go crash l ih = λ e. ground arith
