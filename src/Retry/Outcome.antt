-- ===== src/Retry/Outcome.antt =====
-- What the loop of internal/retry/retry.go returns.
use terraform_provider_enos.Prelude.{
  ℕ, zero, suc, ◌≡◌, refl, subst, ◌⊎◌, inl, inr, Option, none, some, arith,
}
use terraform_provider_enos.Go.{Err, Ran, returned, panicked, ◌>>=◌}
use terraform_provider_enos.Retry.{
  Env, active, done, Retrier, Func, Loop, Turn, again, stop, crash, retry_turn, retry_loop, start,
  after_run, call, keep_error,
}

-- A context that is done says why, as package context documents.
abbrev pub SaysWhy : {W : Type 0} → Env W → Type 0
SaysWhy {W} env = (w : W) → ((env.poll w ≡ active) ⊎ ((e : Err) × (env.poll w ≡ done (some e))))

module _ {W A : Type 0} where
  -- The result came from a call that returned it with no error, and nothing ran after that call.
  abbrev pub FromSuccess : Option (Func W A) → Loop W A → Type 0
  FromSuccess none s = ⊥
  FromSuccess (some f) s = (w : W) × (f w ≡ returned (s.res, none, s.world))

  -- A property of where the loop returns.
  abbrev pub OnReturn : (Loop W A → Type 0) → Option (Ran (Loop W A)) → Type 0
  OnReturn P none = Unit
  OnReturn P (some panicked) = Unit
  OnReturn P (some (returned s)) = P s

  abbrev pub OnTurn : (Loop W A → Type 0) → (Loop W A → Type 0) → Turn W A → Type 0
  OnTurn I P (again s) = I s
  OnTurn I P (stop s) = P s
  OnTurn I P crash = Unit

  -- The rule of the loop: an invariant of the turns and what holds where one of them stops.
  pub retry_loop-rule :
      (env : Env W) (I P : Loop W A → Type 0)
      → ((s : Loop W A) → I s → OnTurn I P (retry_turn env s))
      → (fuel : ℕ) (s : Loop W A) → I s
      → OnReturn P (retry_loop fuel env s)
  unfolding retry_loop
  retry_loop-rule env I P keep zero s h = tt
  retry_loop-rule env I P keep (suc fuel) s h =
      go (retry_turn env s) refl (keep s h) (retry_loop-rule env I P keep fuel)
    where
      go :
          (t : Turn W A)
          → retry_turn env s ≡ t
          → OnTurn I P t
          → ((s' : Loop W A) → I s' → OnReturn P (retry_loop fuel env s'))
          → OnReturn P (retry_loop (suc fuel) env s)
      go (again s') e t ih = rw (e, retry_loop) (ih s' t)
      go (stop s') e t ih = rw (e, retry_loop) t
      go crash e t ih = rw (e, retry_loop) tt

  run-Succeeds :
      (env : Env W) (f : Func W A) (s : Loop W A) (r : Retrier W A)
      → r.func ≡ some f
      → (res : Option A) (err : Option Err) (w : W) → f s.world ≡ returned (res, err, w)
      → OnTurn
          (λ t. t.retrier.func ≡ some f)
          (λ t. t.err ≡ none → FromSuccess (some f) t)
          (after_run env s (returned (r, res, err, w)))
  run-Succeeds env f s r h res none w e = λ _. (s.world, e)
  run-Succeeds env f s r h res (some x) w e = ground arith

  call-Succeeds :
      (env : Env W) (f : Func W A) (s : Loop W A) (r : Retrier W A)
      → r.func ≡ some f
      → (ran : Ran (Option A × Option Err × W)) → f s.world ≡ ran
      → OnTurn
          (λ t. t.retrier.func ≡ some f)
          (λ t. t.err ≡ none → FromSuccess (some f) t)
          (after_run env s (ran >>= keep_error r))
  call-Succeeds env f s r h (returned (res, err, w)) e = run-Succeeds env f s _ h res err w e
  call-Succeeds env f s r h panicked e = tt

  turn-Succeeds :
      (env : Env W) (f : Func W A) (s : Loop W A)
      → SaysWhy env
      → s.retrier.func ≡ some f
      → OnTurn
          (λ t. t.retrier.func ≡ some f)
          (λ t. t.err ≡ none → FromSuccess (some f) t)
          (retry_turn env s)
  unfolding retry_turn
  turn-Succeeds env f s why e = elim (why s.world) [
    | inl a ↦
        rw (a, retry_turn)
          (rw (e, call)
            (call-Succeeds env f s (record s.retrier { attempts = suc s.retrier.attempts }) e
              (f s.world) refl))
    | inr (x, a) ↦ rw (a, retry_turn) (ground arith)
  ]

  pub retry_loop-OnReturn :
      (fuel : ℕ) (env : Env W) (r : Retrier W A) (f : Func W A) (w : W)
      → SaysWhy env
      → r.func ≡ some f
      → OnReturn (λ s. s.err ≡ none → FromSuccess (some f) s) (retry_loop fuel env (start r w))
  unfolding start
  retry_loop-OnReturn fuel env r f w why e =
      retry_loop-rule env (λ t. t.retrier.func ≡ some f) _ (λ s h. turn-Succeeds env f s why h) fuel
        (start r w) e

  -- A return with no error carries the result of a call that had none, with nothing run after it,
  -- where a context that is done says why.
  pub retry_loop-FromSuccess :
      (fuel : ℕ) (env : Env W) (r : Retrier W A) (f : Func W A) (w : W) (s : Loop W A)
      → SaysWhy env
      → r.func ≡ some f
      → retry_loop fuel env (start r w) ≡ some (returned s)
      → s.err ≡ none
      → FromSuccess (some f) s
  retry_loop-FromSuccess fuel env r f w s why e ret =
      subst (OnReturn (λ t. t.err ≡ none → FromSuccess (some f) t)) ret
        (retry_loop-OnReturn fuel env r f w why e)
