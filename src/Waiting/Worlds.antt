-- ===== src/Waiting/Worlds.antt =====
-- The target that WaitForState leaves.
use terraform_provider_enos.Prelude.{◌≡◌, refl, ℕ, String, Option, none, some}
use terraform_provider_enos.Go.{Err, Ran, returned, panicked}
use terraform_provider_enos.Stages.{Result}
use terraform_provider_enos.Retry.{
  Env, Func, Loop, retry, retry_loop, start, new_retrier, with_interval_func, with_retrier_func,
}
use terraform_provider_enos.Retry.Outcome.{SaysWhy}
use terraform_provider_enos.Retry.Reached.{Succeeds, retry_loop-Succeeds}
use terraform_provider_enos.Waiting.{
  Waited, waited, wait, wait_in, wait_retrier, with_world, wrap_if,
}

wrap_if-none : (format : String) (e : Option Err) → wrap_if format e ≡ none → e ≡ none
wrap_if-none format none h = refl
wrap_if-none format (some e) h = absurd (cc h)

module _ {S W : Type 0} where
  abbrev pub forget : Option (Result S W) → Waited S
  forget none = none
  forget (some panicked) = some panicked
  forget (some (returned (state, e, w))) = some (returned (state, e))

  forget-returned :
      (format : String) (r : Option S) (e : Option Err) (w : W)
      → forget (some (returned (r, wrap_if format e, w))) ≡ waited format (some (returned (r, e)))
  forget-returned format r none w = refl
  forget-returned format r (some e) w = refl

  with_world-Success :
      (format : String) (fuel : ℕ) (env : Env W) (try : Func W S) (w : W)
      (o : Option (Ran (Loop W S))) {state : Option S} {w' : W}
      → SaysWhy env
      → retry_loop fuel env (start (wait_retrier try).0 w) ≡ o
      → with_world format o ≡ some (returned (state, none, w'))
      → Succeeds env try w state w'
  unfolding new_retrier with_retrier_func
  with_world-Success format fuel env try w none why ran h = absurd (cc h)
  with_world-Success format fuel env try w (some panicked) why ran h = absurd (cc h)
  with_world-Success format fuel env try w (some (returned s)) {state} {w'} why ran h =
      let (w0, there, e) =
        retry_loop-Succeeds fuel env (wait_retrier try).0 try w s why refl ran
          (wrap_if-none format s.err (cc h)) in
      let same : s.res ≡ state = cc h in
      let left : s.world ≡ w' = cc h in (w0, there, rw⁻¹ same (rw⁻¹ left e))

  -- A wait that ends with no error ended, after failed tries, in a try that had none, which gave the
  -- state and left the target where it is, where a context that is done says why.
  pub wait_in-Success :
      (format : String) (fuel : ℕ) (env : Env W) (try : Func W S) (w : W) {state : Option S}
      {w' : W}
      → SaysWhy env
      → wait_in format fuel env try w ≡ some (returned (state, none, w'))
      → Succeeds env try w state w'
  unfolding wait_in new_retrier with_interval_func with_retrier_func
  wait_in-Success format fuel env try w why h =
      with_world-Success format fuel env try w _ why refl h

  forget_loop :
      (format : String) (o : Option (Ran (Loop W S)))
      → forget (with_world format o)
        ≡ waited format (elim o [
          | none ↦ none
          | some panicked ↦ some panicked
          | some (returned s) ↦ some (returned (s.res, s.err))
        ])
  forget_loop format none = refl
  forget_loop format (some panicked) = refl
  forget_loop format (some (returned s)) = forget-returned format s.res s.err s.world

  -- Without the target that it leaves it is the wait of the other theorems.
  pub forget-wait_in :
      (format : String) (fuel : ℕ) (env : Env W) (try : Func W S) (w : W)
      → forget (wait_in format fuel env try w) ≡ wait format fuel env try w
  unfolding wait_in wait retry new_retrier with_interval_func with_retrier_func
  forget-wait_in format fuel env try w =
      forget_loop format (retry_loop fuel env (start (wait_retrier try).0 w))
