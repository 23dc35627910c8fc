-- ===== src/Retry/First.antt =====
-- The loop of internal/retry/retry.go on an operation that succeeds when it is called first.
use terraform_provider_enos.Prelude.{◌≡◌, refl, ℕ, suc, Option, none, some}
use terraform_provider_enos.Go.{returned}
use terraform_provider_enos.Retry.{
  Env, Func, Retrier, Loop, active, run, retry_turn, retry_loop, start, stop,
}

module _ {W A : Type 0} where
  retry_loop-stop :
      (fuel : ℕ) (env : Env W) (s : Loop W A) {s' : Loop W A}
      → retry_turn env s ≡ stop s'
      → retry_loop (suc fuel) env s ≡ some (returned s')
  unfolding retry_loop
  retry_loop-stop fuel env s h = rw (retry_loop, h) refl

  -- In a live context a first call with no error ends the loop, with its result and its world.
  pub retry_loop-first :
      (fuel : ℕ) (env : Env W) (r : Retrier W A) (f : Func W A) (w : W) {v : Option A} {w' : W}
      → r.func ≡ some f
      → env.poll w ≡ active
      → f w ≡ returned (v, none, w')
      → (s : Loop W A) × (retry_loop (suc fuel) env (start r w) ≡ some (returned s))
        × (s.res ≡ v)
        × (s.err ≡ none)
        × (s.world ≡ w')
  unfolding retry_turn start run
  retry_loop-first fuel env r f w {v} {w'} has live said = (
    record (start r w) {
      world = w';
      retrier = record r { attempts = suc r.attempts; last_err = none };
      res = v;
      err = none;
    },
    retry_loop-stop fuel env (start r w) (rw (live, has, said) refl),
    refl,
    refl,
    refl,
  )
