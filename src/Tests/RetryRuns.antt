-- ===== src/Tests/RetryRuns.antt =====
-- Runs of the retry loop.
use terraform_provider_enos.Prelude.{
  ℕ, zero, suc, ◌*◌, ◌≡◌, refl, ◌⊎◌, inl, none, some, List, [], String, arith,
}
use terraform_provider_enos.Go.{sentinel, returned, pos, negsuc, ℤ}
use terraform_provider_enos.Retry.Interval.{word, second, interval_fibonacci}
use terraform_provider_enos.Retry.Fibonacci.{fib, interval_fibonacci-fib}
use terraform_provider_enos.Retry.{Env, active, Retrier, Func, Loop, retry_turn, retry_loop, start}
use terraform_provider_enos.Retry.Bounds.{Within, retry_loop-Within}
use terraform_provider_enos.Retry.Outcome.{OnReturn}
use terraform_provider_enos.Retry.Reached.{Succeeds, retry_loop-Succeeds}
use terraform_provider_enos.Retry.Errors.{Keeps, retry_loop-Keeps}
use terraform_provider_enos.Retry.Failing.{GivesUpAfter, retry_loop-GivesUpAfter}
use terraform_provider_enos.Retry.Deadline.{Nears}

-- An operation that succeeds after as many failures as its world says, and one that never does.
abbrev flaky : Func ℕ ℕ
flaky zero = returned (some 7, none, zero)
flaky (suc n) = returned (none, some (sentinel "busy"), n)

abbrev broken : Func ℕ ℕ
broken w = returned (none, some (sentinel "busy"), suc w)

abbrev free : Env ℕ
free = record { poll = λ w. active; sleep = λ d w. w }

abbrev retrier : ℤ → Func ℕ ℕ → List String → Retrier ℕ ℕ
retrier max f errs = record {
  attempts = 0;
  max_retries = max;
  only_retry_error = errs;
  retry_interval = λ n. returned 5;
  func = some f;
  last_err = none;
}

retry_loop-Within_example : Within 3 (retry_loop 3 free (start (retrier (pos 3) broken []) 0))
retry_loop-Within_example =
    retry_loop-Within 3 3 free (retrier (pos 3) broken []) 0 refl refl (omega arith)

abbrev succeeded : Loop ℕ ℕ
succeeded = record {
  world = 0;
  retrier = record (retrier (negsuc 0) flaky []) { attempts = 3 };
  attempts = 3;
  err = none;
  res = some 7;
}

retry_loop-Succeeds_example : Succeeds free flaky 2 (some 7) 0
unfolding retry_loop retry_turn start
retry_loop-Succeeds_example =
    retry_loop-Succeeds 4 free (retrier (negsuc 0) flaky []) flaky 2 succeeded (λ w. inl refl) refl
      refl refl

retry_loop-Keeps_example :
    OnReturn
      (λ s. (s.err ≡ none) ⊎ Keeps s)
      (retry_loop 3 free (start (retrier (pos 2) broken []) 0))
retry_loop-Keeps_example = retry_loop-Keeps 3 free (retrier (pos 2) broken []) 0 refl

retry_loop-GivesUpAfter_example :
    GivesUpAfter 2 (retry_loop 2 free (start (retrier (pos 2) broken []) 0))
retry_loop-GivesUpAfter_example =
    retry_loop-GivesUpAfter 2 2 free broken (retrier (pos 2) broken []) 0
      (record { polls = λ w. refl; fails = λ w. (none, sentinel "busy", suc w, refl) })
      (record { func_set = refl; max_set = refl; no_filter = refl; pauses = λ k. (5, refl) }) refl
      (omega arith)

flaky-Nears : Nears free flaky (λ w. w)
flaky-Nears zero res e w' d p h = ground arith
flaky-Nears (suc n) res e w' d p h = ground arith

interval_fibonacci-fib_example : interval_fibonacci second 6 ≡ returned (word (fib 6 * second))
interval_fibonacci-fib_example = interval_fibonacci-fib second 6
