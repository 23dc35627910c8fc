-- ===== src/Go.antt =====
-- The parts of Go that every component uses: error values (package errors and fmt.Errorf), nil
-- dereferences and indices out of range as panics, slices, and the int of MaxRetries.
-- `ExecError` is that of internal/transport/exec.go.
use terraform_provider_enos.Prelude.{
  ◌≡◌, ◌↔◌, arith, ℕ, if◌then◌else◌, ◌+◌, ◌/◌, ◌%◌, ◌++◌, ltb, codes, zero, suc, Bool, true, false,
  ◌||◌, Option, none, some, List, [], ◌∷◌, String, Bytes, str_eq, leb, get_elem?,
}

-- `errorf` is errors.New or fmt.Errorf without %w: a format and the values that it prints.
-- `wrap` is fmt.Errorf with %w. A `sentinel` is a package variable made by errors.New, by name.
mutual
  pub data Err : Type 0 where
    sentinel : String → Err
    errorf : String → Args → Err
    wrap : String → Args → Err → Err
    joined : Err → Err → Err
    exec_error : ℕ → Err → Err

  pub data Args : Type 0 where
    end : Args
    text : Bytes → Args → Args
    num : ℕ → Args → Args
    nums : List ℕ → Args → Args
    flag : Bool → Args → Args
    cause : Err → Args → Args

-- errors.New at the place where it is returned.
abbrev pub new : String → Err
new s = errorf s end

-- errors.Join of two errors: nil if both are nil.
abbrev pub join : Option Err → Option Err → Option Err
join none e = e
join (some a) none = some a
join (some a) (some b) = some (joined a b)

-- A join is nil exactly when both are.
pub join-none : (a b : Option Err) → (join a b ≡ none) ↔ ((a ≡ none) × (b ≡ none))
join-none none b = ground arith
join-none (some a) none = ground arith
join-none (some a) (some b) = ground arith

-- errors.Is against a package variable.
abbrev pub errors_is : Err → String → Bool
errors_is (sentinel n) t = str_eq n t
errors_is (errorf _ _) t = false
errors_is (wrap _ _ e) t = errors_is e t
errors_is (joined a b) t = errors_is a t || errors_is b t
errors_is (exec_error _ e) t = errors_is e t

abbrev pub is_error : Option Err → String → Bool
is_error none t = false
is_error (some e) t = errors_is e t

abbrev first_of_two : Option ℕ → Option ℕ → Option ℕ
first_of_two none b = b
first_of_two (some a) b = some a

-- errors.As to *ExecError, and the exit code of what it finds.
abbrev pub exit_code : Err → Option ℕ
exit_code (sentinel _) = none
exit_code (errorf _ _) = none
exit_code (wrap _ _ e) = exit_code e
exit_code (joined a b) = first_of_two (exit_code a) (exit_code b)
exit_code (exec_error c _) = some c

-- The loop of every constructor with options: each is applied to what the ones before it have made.
abbrev pub apply_opts {ℓ} : {A : Type ℓ} → List (A → A) → A → A
apply_opts [] a = a
apply_opts (opt ∷ opts) a = apply_opts opts (opt a)

-- A Go call returns or panics.
pub data Ran {ℓ} (A : Type ℓ) : Type ℓ where
  returned : A → Ran A
  panicked : Ran A

infixl 5 ◌>>=◌
abbrev pub ◌>>=◌ {ℓ κ} : {A : Type ℓ} {B : Type κ} → Ran A → (A → Ran B) → Ran B
returned a >>= f = f a
panicked >>= f = panicked

-- A pointer that is dereferenced: nil panics.
abbrev pub deref {ℓ} : {A : Type ℓ} → Option A → Ran A
deref none = panicked
deref (some a) = returned a

-- `s[i]` and `s[i] = v` on a slice: out of range panics.
abbrev pub index {ℓ} : {A : Type ℓ} → List A → ℕ → Ran A
index xs i = deref (get_elem? xs i)

abbrev pub store {ℓ} : {A : Type ℓ} → List A → ℕ → A → Ran (List A)
store [] i v = panicked
store (x ∷ xs) zero v = returned (v ∷ xs)
store (x ∷ xs) (suc i) v = store xs i v >>= λ ys. returned (x ∷ ys)

-- A Go int: `negsuc n` is -(n + 1).
pub data ℤ : Type 0 where
  pos : ℕ → ℤ
  negsuc : ℕ → ℤ

-- `n > -1`
abbrev pub above_minus_one : ℤ → Bool
above_minus_one (pos _) = true
above_minus_one (negsuc _) = false

-- `a >= n` for a number `a` that is not negative.
abbrev pub at_least : ℕ → ℤ → Bool
at_least a (pos n) = leb n a
at_least a (negsuc _) = true

-- `%t` and, for a number that is not negative, `%d`: the digits from the fuel, one unit each.
abbrev pub bool_text : Bool → Bytes
bool_text true = codes "true"
bool_text false = codes "false"

unfoldable pub digits_from : ℕ → ℕ → Bytes
digits_from zero n = []
digits_from (suc fuel) n =
    let higher = digits_from fuel (n / 10) in
    (if ltb n 10 then [] else higher) ++ (b'0' + n % 10) ∷ []

unfoldable pub decimal : ℕ → Bytes
unfolding digits_from
decimal n = digits_from (suc n) n
