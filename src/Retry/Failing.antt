-- ===== src/Retry/Failing.antt =====
-- The loop of internal/retry/retry.go on an operation that never succeeds.
use terraform_provider_enos.Prelude.{
  ℕ, zero, suc, ◌+◌, ◌≤◌, ◌<◌, ◌≡◌, refl, inl, inr, true, Option, some, [], max, arith, Bool-cases,
  leb, is_some,
}
use terraform_provider_enos.Go.{Err, Ran, returned, pos, join}
use terraform_provider_enos.Retry.{
  Env, active, Retrier, Func, Loop, again, stop, retry_turn, retry_loop, start, attempt_error,
}

-- The retrier's settings: a maximum, no filter on errors, and an interval that does not panic.
pub record Unfiltered {W A : Type 0} (n : ℕ) (f : Func W A) (r : Retrier W A) : Type 0 where
  pub func_set : r.func ≡ some f
  pub max_set : r.max_retries ≡ pos n
  pub no_filter : r.only_retry_error ≡ []
  pub pauses : (k : ℕ) → (d : ℕ) × (r.retry_interval k ≡ returned d)

module _ {W A : Type 0} where
  -- The operation fails in every world, and the context stays active.
  pub record Fails (env : Env W) (f : Func W A) : Type 0 where
    pub polls : (w : W) → env.poll w ≡ active
    pub fails :
        (w : W) → (res : Option A) × (e : Err) × (w' : W) × (f w ≡ returned (res, some e, w'))

  failed : Loop W A → Option A → Err → W → Loop W A
  failed s res e w = record s {
    world = w;
    retrier = record s.retrier { attempts = suc s.retrier.attempts; last_err = some e };
    res = res;
    err = join s.err (some (attempt_error s.attempts e));
  }

  turn_below :
      (n : ℕ) (env : Env W) (f : Func W A) (s : Loop W A)
      → Fails env f
      → Unfiltered n f s.retrier
      → suc s.retrier.attempts < n
      → (t : Loop W A) × (retry_turn env s ≡ again t)
        × Unfiltered n f t.retrier
        × (t.retrier.attempts ≡ suc s.retrier.attempts)
  unfolding retry_turn failed
  turn_below n env f s fl u h =
      let (res, e, w', fe) = fl.fails s.world in
      let (d, pd) = u.pauses (suc s.retrier.attempts) in
      let t = failed s res e w' in
      (
        record t { attempts = suc t.attempts; world = env.sleep d t.world },
        ground (arith, fl.polls s.world),
        record {
          func_set = u.func_set;
          max_set = u.max_set;
          no_filter = u.no_filter;
          pauses = u.pauses;
        },
        refl,
      )

  turn_last :
      (n : ℕ) (env : Env W) (f : Func W A) (s : Loop W A)
      → Fails env f
      → Unfiltered n f s.retrier
      → n ≤ suc s.retrier.attempts
      → (t : Loop W A) × (retry_turn env s ≡ stop t)
        × (t.retrier.attempts ≡ suc s.retrier.attempts)
        × (is_some t.err ≡ true)
  unfolding retry_turn failed
  turn_last n env f s fl u h =
      let (res, e, w', fe) = fl.fails s.world in
      (failed s res e w', ground (arith, fl.polls s.world), refl, ground arith)

  abbrev pub GivesUpAfter : ℕ → Option (Ran (Loop W A)) → Type 0
  GivesUpAfter k o =
      (t : Loop W A) × (o ≡ some (returned t)) × (t.retrier.attempts ≡ k) × (is_some t.err ≡ true)

  loop-GivesUpAfter :
      (n fuel k : ℕ) (env : Env W) (f : Func W A) (s : Loop W A)
      → Fails env f
      → Unfiltered n f s.retrier
      → max (suc s.retrier.attempts) n ≡ k
      → k ≤ fuel + s.retrier.attempts
      → GivesUpAfter k (retry_loop fuel env s)
  unfolding retry_loop
  loop-GivesUpAfter n zero k env f s fl u m h = absurd (omega arith)
  loop-GivesUpAfter n (suc fuel) k env f s fl u m h =
      elim (Bool-cases (leb n (suc s.retrier.attempts))) [
        | inl over ↦
            let (t, e, a, g) = turn_last n env f s fl u (ground arith) in
            (t, rw (e, retry_loop), ground arith, g)
        | inr below ↦
            let (t, e, v, a) = turn_below n env f s fl u (ground arith) in
            rw (e, retry_loop)
              (loop-GivesUpAfter n fuel k env f t fl v (ground arith) (omega arith))
      ]

  -- A maximum counts calls, not retries: an operation that always fails is called `n` times, and
  -- once if `n` is 0, before the loop returns an error.
  pub retry_loop-GivesUpAfter :
      (n fuel : ℕ) (env : Env W) (f : Func W A) (r : Retrier W A) (w : W)
      → Fails env f
      → Unfiltered n f r
      → r.attempts ≡ 0
      → max 1 n ≤ fuel
      → GivesUpAfter (max 1 n) (retry_loop fuel env (start r w))
  unfolding start
  retry_loop-GivesUpAfter n fuel env f r w fl u a h =
      loop-GivesUpAfter n fuel (max 1 n) env f (start r w) fl u (omega arith) (omega arith)
