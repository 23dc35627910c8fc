-- ===== src/Prelude/Lists.antt =====
-- Lists measured and indexed by native numbers, and the tests that the components run over them.
use Prim.Native.Nat.{ℕ, zero, suc, ◌≤◌, ◌<◌}
use mathlib.Core.Path.{◌≡◌, refl, ap}
use mathlib.Core.Logic.{◌⊎◌, ◌≢◌, inl, inr}
use mathlib.Core.Bool.{Bool, true, false, ◌&&◌, ◌||◌}
use mathlib.Core.List.{List, [], ◌∷◌}
use mathlib.Core.Option.{Option, none, some}
use native.Mathlib.Omega.{arith}

module _ {ℓ} {A : Type ℓ} where
  abbrev pub length : List A → ℕ
  length [] = 0
  length (x ∷ xs) = suc (length xs)

  abbrev pub get_elem? : List A → ℕ → Option A
  get_elem? [] i = none
  get_elem? (x ∷ xs) zero = some x
  get_elem? (x ∷ xs) (suc i) = get_elem? xs i

  abbrev pub set : List A → ℕ → A → List A
  set [] i v = []
  set (x ∷ xs) zero v = v ∷ xs
  set (x ∷ xs) (suc i) v = x ∷ set xs i v

  abbrev pub replicate : ℕ → A → List A
  replicate zero a = []
  replicate (suc n) a = a ∷ replicate n a

  -- How many items pass a test.
  abbrev pub count_if : (A → Bool) → List A → ℕ
  count_if p [] = 0
  count_if p (x ∷ xs) = bump (p x) (count_if p xs)
    where
      bump : Bool → ℕ → ℕ
      bump true n = suc n
      bump false n = n

  -- Whether some item passes a test, and whether all do.
  abbrev pub any_of : (A → Bool) → List A → Bool
  any_of p [] = false
  any_of p (x ∷ xs) = p x || any_of p xs

  abbrev pub all_of : (A → Bool) → List A → Bool
  all_of p [] = true
  all_of p (x ∷ xs) = p x && all_of p xs

module _ {ℓ} {A : Type ℓ} (P : A → Type 0) where
  -- Every item of a list satisfies a predicate; some item does.
  abbrev pub All : List A → Type 0
  All [] = Unit
  All (x ∷ xs) = P x × All xs

  abbrev pub Some : List A → Type 0
  Some [] = ⊥
  Some (x ∷ xs) = P x ⊎ Some xs

module _ {ℓ} {A : Type ℓ} (p : A → Bool) where
  pub any_of-Some : (xs : List A) → any_of p xs ≡ true → Some (λ x. p x ≡ true) xs
  any_of-Some [] h = ground arith
  any_of-Some (x ∷ xs) h = go (p x) refl (any_of-Some xs)
    where
      go :
          (b : Bool)
          → p x ≡ b
          → (any_of p xs ≡ true → Some (λ y. p y ≡ true) xs)
          → Some (λ y. p y ≡ true) (x ∷ xs)
      go true e ih = inl e
      go false e ih = inr (ih (rw e at h))

  pub Some-any_of : (xs : List A) → Some (λ x. p x ≡ true) xs → any_of p xs ≡ true
  Some-any_of [] h = absurd h
  Some-any_of (x ∷ xs) (inl h) = rw h
  Some-any_of (x ∷ xs) (inr h) = ground (arith, Some-any_of xs h)

  pub all_of-All : (xs : List A) → all_of p xs ≡ true → All (λ x. p x ≡ true) xs
  all_of-All [] h = tt
  all_of-All (x ∷ xs) h = (ground arith, all_of-All xs (ground arith))

  pub All-all_of : (xs : List A) → All (λ x. p x ≡ true) xs → all_of p xs ≡ true
  All-all_of [] h = refl
  All-all_of (x ∷ xs) h = ground (arith, All-all_of xs h.1)

  pub count_if-le : (xs : List A) → count_if p xs ≤ length xs
  count_if-le [] = omega arith
  count_if-le (x ∷ xs) = ground (arith, count_if-le xs)

module _ {ℓ} {A : Type ℓ} where
  pub length-set : (xs : List A) (i : ℕ) (v : A) → length (set xs i v) ≡ length xs
  length-set [] i v = refl
  length-set (x ∷ xs) zero v = refl
  length-set (x ∷ xs) (suc i) v = ap suc (length-set xs i v)

  pub get_elem?-set_self :
      (xs : List A) (i : ℕ) (v : A) → i < length xs → get_elem? (set xs i v) i ≡ some v
  get_elem?-set_self [] i v h = elim h [ ]
  get_elem?-set_self (x ∷ xs) zero v h = refl
  get_elem?-set_self (x ∷ xs) (suc i) v h = get_elem?-set_self xs i v (omega arith)

  pub get_elem?-set_ne :
      (xs : List A) (i j : ℕ) (v : A) → i ≢ j → get_elem? (set xs i v) j ≡ get_elem? xs j
  get_elem?-set_ne [] i j v h = refl
  get_elem?-set_ne (x ∷ xs) zero zero v h = absurd (h refl)
  get_elem?-set_ne (x ∷ xs) zero (suc j) v h = refl
  get_elem?-set_ne (x ∷ xs) (suc i) zero v h = refl
  get_elem?-set_ne (x ∷ xs) (suc i) (suc j) v h = get_elem?-set_ne xs i j v (λ e. h (ap suc e))

  pub length-replicate : (n : ℕ) (a : A) → length (replicate n a) ≡ n
  length-replicate zero a = refl
  length-replicate (suc n) a = ap suc (length-replicate n a)

module _ {ℓ} {A : Type ℓ} where
  pub All-zip :
      {P Q R : A → Type 0} (xs : List A)
      → ((x : A) → P x → Q x → R x)
      → All P xs
      → All Q xs
      → All R xs
  All-zip [] f p q = tt
  All-zip (x ∷ xs) f p q = (f x p.0 q.0, All-zip xs f p.1 q.1)

  pub All-mono : {P Q : A → Type 0} (xs : List A) → ((x : A) → P x → Q x) → All P xs → All Q xs
  All-mono [] f p = tt
  All-mono (x ∷ xs) f p = (f x p.0, All-mono xs f p.1)

  pub All-each : {P : A → Type 0} (xs : List A) → ((x : A) → P x) → All P xs
  All-each [] f = tt
  All-each (x ∷ xs) f = (f x, All-each xs f)

  pub Some-mono : {P Q : A → Type 0} (xs : List A) → ((x : A) → P x → Q x) → Some P xs → Some Q xs
  Some-mono [] f h = absurd h
  Some-mono (x ∷ xs) f (inl h) = inl (f x h)
  Some-mono (x ∷ xs) f (inr h) = inr (Some-mono xs f h)
