-- ===== src/Vault/Checks/Base.antt =====
-- What the checks of internal/remoteflight/vault/checks.go share: a check takes a pointer to a state,
-- may panic on a nil pointer, and returns an error or nil; loops over slices of pointers and values.
use terraform_provider_enos.Prelude.{
  ℕ, suc, ◌≡◌, refl, ◌+◌, Bool, true, false, Option, none, some, List, [], ◌∷◌, arith, count_if,
  any_of, map, if◌then◌else◌,
}
use terraform_provider_enos.Go.{Err, Ran, returned, panicked}
use terraform_provider_enos.Vault.State.{State}

-- CheckStater
abbrev pub CheckStater : Type 0
CheckStater = Option State → Ran (Option Err)

abbrev pub pass : Ran (Option Err)
pass = returned none

abbrev pub fail : Err → Ran (Option Err)
fail e = returned (some e)

-- The check returns nil.
abbrev pub Passes : CheckStater → Option State → Type 0
Passes check s = check s ≡ pass

module _ {A : Type 0} (p : A → Bool) where
  -- `for i := range xs { if p(xs[i]) { return nil } }` over pointers: whether it returns.
  unfoldable pub find_flag : List (Option A) → Ran Bool
  find_flag [] = returned false
  find_flag (none ∷ xs) = panicked
  find_flag (some x ∷ xs) = let rest = find_flag xs in if p x then returned true else rest

  -- `for i := range xs { if p(xs[i]) { n++ } }` over pointers.
  unfoldable pub count_flag : ℕ → List (Option A) → Ran ℕ
  count_flag n [] = returned n
  count_flag n (none ∷ xs) = panicked
  count_flag n (some x ∷ xs) = count_flag (if p x then suc n else n) xs

  -- On pointers that are not nil the loops are those of the values.
  pub find_flag_values : (xs : List A) → find_flag (map some xs) ≡ returned (any_of p xs)
  unfolding find_flag
  find_flag_values [] = refl
  find_flag_values (x ∷ xs) = ground (arith, find_flag_values xs)

  pub count_flag_values :
      (n : ℕ) (xs : List A) → count_flag n (map some xs) ≡ returned (n + count_if p xs)
  unfolding count_flag
  count_flag_values n [] = ground arith
  count_flag_values n (x ∷ xs) =
      ground (arith, count_flag_values (suc n) xs, count_flag_values n xs)
