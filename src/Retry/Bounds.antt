-- ===== src/Retry/Bounds.antt =====
-- How often the loop of internal/retry/retry.go makes its call.
use terraform_provider_enos.Prelude.{
  ℕ, zero, suc, ◌+◌, ◌≤◌, ◌<◌, ◌≡◌, refl, Option, none, some, max, arith,
}
use terraform_provider_enos.Go.{Ran, returned, panicked, pos}
use terraform_provider_enos.Retry.{
  Env, Retrier, Loop, Turn, again, stop, crash, retry_turn, retry_loop, start,
}

module _ {W A : Type 0} where
  -- The loop has ended, and a return comes after at most `k` calls by the retrier.
  abbrev pub Within : ℕ → Option (Ran (Loop W A)) → Type 0
  Within k none = ⊥
  Within k (some panicked) = Unit
  Within k (some (returned s)) = s.retrier.attempts ≤ k

  -- What a turn does to the count: one more call at most, and another turn only below the maximum.
  abbrev Counts : ℕ → Loop W A → Turn W A → Type 0
  Counts n s (again s') =
      (s'.retrier.attempts ≡ suc s.retrier.attempts)
      × (s'.retrier.max_retries ≡ pos n)
      × (s'.retrier.attempts < n)
  Counts n s (stop s') = s'.retrier.attempts ≤ suc s.retrier.attempts
  Counts n s crash = Unit

  turn-Counts :
      (n : ℕ) (env : Env W) (s : Loop W A)
      → s.retrier.max_retries ≡ pos n
      → Counts n s (retry_turn env s)
  unfolding retry_turn
  turn-Counts n env s m = ground arith

  loop-Within :
      (n k fuel : ℕ) (env : Env W) (s : Loop W A)
      → s.retrier.max_retries ≡ pos n
      → n ≤ fuel + s.retrier.attempts
      → s.retrier.attempts < k
      → n ≤ k
      → 0 < fuel
      → Within k (retry_loop fuel env s)
  unfolding retry_loop
  loop-Within n k zero env s m enough room cap f = absurd (omega arith)
  loop-Within n k (suc fuel) env s m enough room cap f =
      go (retry_turn env s) refl (turn-Counts n env s m) (loop-Within n k fuel env)
    where
      go :
          (t : Turn W A)
          → retry_turn env s ≡ t
          → Counts n s t
          → ((s' : Loop W A)
              → s'.retrier.max_retries ≡ pos n
              → n ≤ fuel + s'.retrier.attempts
              → s'.retrier.attempts < k
              → n ≤ k
              → 0 < fuel
              → Within k (retry_loop fuel env s'))
          → Within k (retry_loop (suc fuel) env s)
      go (again s') e c ih =
          rw (e, retry_loop) (ih s' c.1 (omega arith) (omega arith) cap (omega arith))
      go (stop s') e c ih = rw (e, retry_loop) (omega arith)
      go crash e c ih = rw (e, retry_loop) tt

  -- A retrier with a maximum that has made no call yet ends within as many turns as its maximum,
  -- one at least, whatever the operation and the context do, and it has made no more calls.
  pub retry_loop-Within :
      (n fuel : ℕ) (env : Env W) (r : Retrier W A) (w : W)
      → r.max_retries ≡ pos n
      → r.attempts ≡ 0
      → max 1 n ≤ fuel
      → Within (max 1 n) (retry_loop fuel env (start r w))
  unfolding start
  retry_loop-Within n fuel env r w m a enough =
      loop-Within n (max 1 n) fuel env (start r w) m (omega arith) (omega arith) (omega arith)
        (omega arith)
