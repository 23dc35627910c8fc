-- ===== src/Retry/Fibonacci.antt =====
-- IntervalFibonacci of internal/retry/retry.go against the Fibonacci numbers.
use native.Mathlib.Nat.{mod-add-div}
use native.Mathlib.Numerals.{add-one}
use terraform_provider_enos.Prelude.{
  ℕ, zero, suc, ◌+◌, ◌-◌, ◌*◌, ◌≤◌, ◌<◌, ◌≡◌, refl, ◌∙◌, ap, inl, inr, List, [], ◌∷◌, some, length,
  get_elem?, set, replicate, length-set, get_elem?-set_self, get_elem?-set_ne, length-replicate,
  arith, Bool-cases, false, ◌==◌, leb,
}
use terraform_provider_enos.Go.{returned, store}
use terraform_provider_enos.Retry.Interval.{word, fib_fill, fib_slice, interval_fibonacci}

-- The Fibonacci numbers.
pub fib : ℕ → ℕ
fib zero = 0
fib (suc zero) = 1
fib (suc (suc n)) = fib (suc n) + fib n

fib_step : (i : ℕ) → 2 ≤ i → fib i ≡ fib (i - 1) + fib (i - 2)
unfolding fib
fib_step (suc (suc n)) h = ground arith
fib_step zero h = omega arith
fib_step (suc zero) h = omega arith

store-set {ℓ} :
    {A : Type ℓ} (xs : List A) (i : ℕ) (v : A)
    → i < length xs
    → store xs i v ≡ returned (set xs i v)
store-set [] i v h = elim h [ ]
store-set (x ∷ xs) zero v h = refl
store-set (x ∷ xs) (suc i) v h = rw (store-set xs i v (omega arith))

-- The items before `i` are Fibonacci numbers, up to the wrap of an int64.
abbrev Filled : ℕ → List ℕ → Type 0
Filled i xs = (j : ℕ) → j < i → get_elem? xs j ≡ some (word (fib j))

set-Filled :
    (i : ℕ) (xs : List ℕ) → i < length xs → Filled i xs → Filled (suc i) (set xs i (word (fib i)))
set-Filled i xs h f j lt = elim (Bool-cases (i == j)) [
  | inl e ↦ let e' : i ≡ j = ground arith in rw (← e') (get_elem?-set_self xs i (word (fib i)) h)
  | inr ne ↦ get_elem?-set_ne xs i j (word (fib i)) (ground arith) ∙ f j (ground arith)
]

fib_fill-Filled :
    (turns i n : ℕ) (xs : List ℕ)
    → 2 ≤ i
    → i + turns ≡ n
    → n ≤ length xs
    → Filled i xs
    → (ys : List ℕ) × (fib_fill turns i xs ≡ returned ys) × Filled n ys
unfolding fib_fill
fib_fill-Filled zero i n xs h e l f = let e' : i ≡ n = omega arith in (xs, refl, rw (← e') f)
fib_fill-Filled (suc turns) i n xs h e l f =
    rw
      (
        f (i - 1) (omega arith),
        f (i - 2) (omega arith),
        store-set xs i (word (word (fib (i - 1)) + word (fib (i - 2)))) (omega arith),
        sum,
      )
      (fib_fill-Filled turns (i + 1) n (set xs i (word (fib i))) (omega arith) (omega arith)
        (omega (arith, length-set xs i (word (fib i))))
        (rw add-one (set-Filled i xs (omega arith) f)))
  where
    sum : word (word (fib (i - 1)) + word (fib (i - 2))) ≡ word (fib i)
    sum = omega (arith, fib_step i h)

mul_wraps : (f base : ℕ) → word (word f * base) ≡ word (f * base)
mul_wraps f base = omega (arith, ap (λ (t : ℕ). t * base) (mod-add-div f 18446744073709551616))

first_two : (xs : List ℕ) → Filled 2 (0 ∷ 1 ∷ xs)
unfolding fib
first_two xs zero h = refl
first_two xs (suc zero) h = refl
first_two xs (suc (suc j)) h = absurd (omega arith)

slice_lem : (n : ℕ) → fib_slice (suc (suc n)) ≡ 0 ∷ 0 ∷ replicate (suc n) 0
slice_lem n =
    let e : suc (suc n) + 1 ≡ suc (suc (suc n)) = omega arith in
    let big : leb (suc (suc n)) 1 ≡ false = ground arith in rw (big, e)

-- For every count of attempts the loop stays inside its slice, and the interval is the Fibonacci
-- number of the attempts times the base, modulo 2 ^ 64.
pub interval_fibonacci-fib :
    (base attempt : ℕ) → interval_fibonacci base attempt ≡ returned (word (fib attempt * base))
unfolding interval_fibonacci fib
interval_fibonacci-fib base zero = refl
interval_fibonacci-fib base (suc zero) = refl
interval_fibonacci-fib base (suc (suc n)) =
    let tail : List ℕ = replicate (suc n) 0 in
    let (ys, e, f) =
      fib_fill-Filled (suc n) 2 (suc (suc (suc n))) (0 ∷ 1 ∷ tail) (omega arith) (omega arith)
        (omega (arith, length-replicate (suc n) (◌+◌ 0 0))) (first_two tail) in
    let turns : suc (suc n) - 1 ≡ suc n = omega arith in
    rw (slice_lem n, turns, e, f (suc (suc n)) (omega arith), mul_wraps (fib (suc (suc n))) base)
