-- ===== src/Retry/Interval.antt =====
-- The interval functions of internal/retry/retry.go. A time.Duration is an int64: its bit pattern is
-- a number below 2 ^ 64, and its arithmetic wraps. A negative attempt count does not occur, since
-- Retrier counts up from 0.
use terraform_provider_enos.Prelude.{
  ℕ, zero, suc, ◌+◌, ◌-◌, ◌*◌, ◌%◌, ◌^◌, List, replicate, leb, ltb, ◌==◌, if◌then◌else◌,
}
use terraform_provider_enos.Go.{◌>>=◌, Ran, returned, index, store}

abbrev pub word : ℕ → ℕ
word n = n % 18446744073709551616

abbrev pub second : ℕ
second = 1000000000

abbrev pub RetryInterval : Type 0
RetryInterval = ℕ → Ran ℕ

unfoldable pub interval_duration : ℕ → RetryInterval
interval_duration dur attempt = if attempt == 0 then returned 0 else returned dur

-- math.Pow is exact on powers of two; a float64 that is not below 2 ^ 63 has no defined conversion
-- to int64, so `wide` stands for what the platform makes of it.
unfoldable pub interval_exponential : (wide : ℕ → ℕ) → ℕ → RetryInterval
interval_exponential wide base attempt =
    if attempt == 0
    then returned 0
    else let factor = if ltb attempt 63 then 2 ^ attempt else wide attempt in
      returned (word (factor * base))

-- make([]int, attempt+1, attempt+2), resliced to two items for a small attempt.
abbrev pub fib_slice : ℕ → List ℕ
fib_slice attempt = if leb attempt 1 then replicate 2 0 else replicate (attempt + 1) 0

-- for i := 2; i <= attempt; i++, with the turns left.
unfoldable pub fib_fill : ℕ → ℕ → List ℕ → Ran (List ℕ)
fib_fill zero i xs = returned xs
fib_fill (suc turns) i xs = do
  a ← index xs (i - 1)
  b ← index xs (i - 2)
  ys ← store xs i (word (a + b))
  fib_fill turns (i + 1) ys

unfoldable pub interval_fibonacci : ℕ → RetryInterval
unfolding fib_fill
interval_fibonacci base attempt = do
  s0 ← store (fib_slice attempt) 0 0
  s1 ← store s0 1 1
  filled ← fib_fill (attempt - 1) 2 s1
  last ← index filled attempt
  returned (word (last * base))
