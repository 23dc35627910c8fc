-- ===== src/Flight/Attempts/Rules.antt =====
-- What a command that is run again with sudo did, and what a retried function did, where they end
-- with no error.
use terraform_provider_enos.Prelude.{
  ◌≡◌, refl, ap, ◌∙◌, suc, ◌⊎◌, inl, inr, ℕ, arith, Option, none, some, Option-cases, List, [], ◌∷◌,
  ◌++◌, Bytes,
}
use terraform_provider_enos.Go.{Err, Ran, returned, panicked}
use terraform_provider_enos.Transport.{Run, new_command}
use terraform_provider_enos.Retry.{
  active, Env, Func, Retrier, RetrierOpt, Loop, new_retrier, default_retrier, with_retrier_func,
  retry_loop, start,
}
use terraform_provider_enos.Go.{apply_opts}
use terraform_provider_enos.Retry.Outcome.{SaysWhy, retry_loop-FromSuccess}
use terraform_provider_enos.Retry.First.{retry_loop-first}
use terraform_provider_enos.Flight.Attempts.{on, run_or_sudo, with_sudo, after_loop, retried}

module _ {W : Type 0} where
  -- A command ends with no error, or with one, and leaves the target at `w'`.
  abbrev pub Succeeds : Run W → Bytes → W → W → Type 0
  Succeeds tr cmd w w' = ((tr (new_command cmd) w).0.err ≡ none) × ((tr (new_command cmd) w).1 ≡ w')

  abbrev pub Fails : Run W → Bytes → W → W → Type 0
  Fails tr cmd w w' =
      (e : Err) × ((tr (new_command cmd) w).0.err ≡ some e) × ((tr (new_command cmd) w).1 ≡ w')

  -- A command ends with no error, or it fails and with sudo it does not.
  abbrev pub EitherWay : Run W → Bytes → W → W → Type 0
  EitherWay tr cmd w w' =
      Succeeds tr cmd w w' ⊎ ((w1 : W) × Fails tr cmd w w1 × Succeeds tr (with_sudo cmd) w1 w')

  -- Commands one after the other, each of them either way.
  pub data Follows (tr : Run W) : List Bytes → W → W → Type 0 where
    no_more : (w : W) → Follows tr [] w w
    also :
        {cmd : Bytes} {cmds : List Bytes} {w w1 w' : W}
        → EitherWay tr cmd w w1
        → Follows tr cmds w1 w'
        → Follows tr (cmd ∷ cmds) w w'

  pub run_or_sudo-EitherWay :
      (tr : Run W) (cmd message sudo_message : Bytes) (w : W) {w' : W}
      → run_or_sudo tr cmd (with_sudo cmd) message sudo_message w ≡ on w'
      → EitherWay tr cmd w w'
  unfolding run_or_sudo
  run_or_sudo-EitherWay tr cmd message sudo_message w {w'} h =
      elim (Option-cases (tr (new_command cmd) w).0.err) [
        | inl ok ↦ inl (ok, cc (rw ok at h))
        | inr (e, bad) ↦
            elim (Option-cases
              (tr (new_command (with_sudo cmd)) (tr (new_command cmd) w).1).0.err) [
                | inl ok ↦
                    inr ((tr (new_command cmd) w).1, (e, bad, refl), (ok, cc (rw (bad, ok) at h)))
                | inr (e', bad') ↦ absurd (cc (rw (bad, bad') at h))
              ]
      ]

  pub EitherWay-run_or_sudo :
      (tr : Run W) (cmd message sudo_message : Bytes) {w w' : W}
      → EitherWay tr cmd w w'
      → run_or_sudo tr cmd (with_sudo cmd) message sudo_message w ≡ on w'
  unfolding run_or_sudo
  EitherWay-run_or_sudo tr cmd message sudo_message (inl (ok, e)) = rw (ok, e) refl
  EitherWay-run_or_sudo tr cmd message sudo_message (inr (w1, (e, bad, e1), (ok, e2))) =
      rw (bad, e1, ok, e2) refl

module _ {W A : Type 0} where
  apply_opts-last :
      (opts : List (RetrierOpt W A)) (f : Func W A) (r : Retrier W A)
      → (apply_opts (opts ++ with_retrier_func f ∷ []) r).func ≡ some f
  unfolding with_retrier_func
  apply_opts-last [] f r = refl
  apply_opts-last (opt ∷ opts) f r = apply_opts-last opts f (opt r)

  after_loop-FromSuccess :
      (fuel : ℕ) (env : Env W) (r : Retrier W A) (f : Func W A) (w : W) {w' : W}
      (o : Option (Ran (Loop W A)))
      → SaysWhy env
      → r.func ≡ some f
      → retry_loop fuel env (start r w) ≡ o
      → after_loop o ≡ some (returned (none, w'))
      → (w0 : W) × (a : Option A) × (f w0 ≡ returned (a, none, w'))
  after_loop-FromSuccess fuel env r f w none why has ran h = absurd (cc h)
  after_loop-FromSuccess fuel env r f w (some panicked) why has ran h = absurd (cc h)
  after_loop-FromSuccess fuel env r f w (some (returned s)) why has ran h =
      let (w0, e) = retry_loop-FromSuccess fuel env r f w s why has ran (cc h) in
      (w0, s.res, ground (arith, e))

  -- A retried function that ends with no error ended in a call that had none, and nothing ran
  -- after that call, where a context that is done says why.
  pub retried-FromSuccess :
      (fuel : ℕ) (env : Env W) (opts : List (RetrierOpt W A)) (f : Func W A) (w : W) {w' : W}
      → SaysWhy env
      → retried fuel env opts f w ≡ some (returned (none, w'))
      → (w0 : W) × (a : Option A) × (f w0 ≡ returned (a, none, w'))
  unfolding retried new_retrier
  retried-FromSuccess fuel env opts f w why h =
      let has = apply_opts-last opts f default_retrier in
      after_loop-FromSuccess fuel env
        (apply_opts (opts ++ with_retrier_func f ∷ []) default_retrier) f w _ why has refl
        (rw has at h)

  -- In a live context a retried function whose first call has no error ends with none, whatever the
  -- options are.
  pub retried-first :
      (fuel : ℕ) (env : Env W) (opts : List (RetrierOpt W A)) (f : Func W A) (w : W) {a : Option A}
      {w' : W}
      → env.poll w ≡ active
      → f w ≡ returned (a, none, w')
      → retried (suc fuel) env opts f w ≡ some (returned (none, w'))
  unfolding retried new_retrier
  retried-first fuel env opts f w live said =
      let has = apply_opts-last opts f default_retrier in
      let (s, loop, _, err, world) =
        retry_loop-first fuel env (apply_opts (opts ++ with_retrier_func f ∷ []) default_retrier) f
          w has live said in
      rw has (ap after_loop loop ∙ rw (err, world) refl)
