-- ===== src/Vault/Checks/Node/Laws.antt =====
-- When the checks on the node itself pass.
use terraform_provider_enos.Prelude.{
  ℕ, ◌≡◌, ◌↔◌, ◌⊎◌, Bool, true, false, Option, none, some, List, [], ◌∷◌, arith, Some,
}
use terraform_provider_enos.Go.{Err, new}
use terraform_provider_enos.Systemd.Properties.{
  UnitProperties, enabled_and_running_properties, find_properties, has_properties,
}
use terraform_provider_enos.Systemd.Properties.Laws.{Shares, find_properties_iff}
use terraform_provider_enos.Vault.Health.Laws.{status_is_one_of_iff}
use terraform_provider_enos.Vault.Health.{HealthResponse}
use terraform_provider_enos.Vault.State.{State, is_sealed}
use terraform_provider_enos.Vault.State.Laws.{AllSay, is_sealed-AllSay}
use terraform_provider_enos.Vault.Checks.Base.{Passes, pass, fail}
use terraform_provider_enos.Vault.Checks.Node.{
  check_is_sealed, check_is_unsealed, check_seal_state_is_known, check_has_health_status_of,
  check_has_systemd_enabled_and_running_properties, sealed_result, unsealed_result, known_result,
  unit_result, health_result,
}

sealed_result_iff : (r : Bool × Option Err) → (sealed_result r ≡ pass) ↔ (r ≡ (true, none))
sealed_result_iff (b, some e) = ground arith
sealed_result_iff (true, none) = ground arith
sealed_result_iff (false, none) = ground arith

unsealed_result_iff : (r : Bool × Option Err) → (unsealed_result r ≡ pass) ↔ (r ≡ (false, none))
unsealed_result_iff (b, some e) = ground arith
unsealed_result_iff (true, none) = ground arith
unsealed_result_iff (false, none) = ground arith

-- The check for a sealed node passes exactly when all three sources say sealed, and the check for an
-- unsealed one exactly when all say unsealed; a nil state passes neither, and panics in neither.
pub check_seal_iff :
    (s : Option State)
    → (Passes check_is_sealed s ↔ AllSay true s) × (Passes check_is_unsealed s ↔ AllSay false s)
unfolding check_is_sealed check_is_unsealed
check_seal_iff s =
    (both true (sealed_result_iff (is_sealed s)), both false (unsealed_result_iff (is_sealed s)))
  where
    both : {P : Type 0} (b : Bool) → P ↔ (is_sealed s ≡ (b, none)) → P ↔ AllSay b s
    both b h = (λ p. (is_sealed-AllSay b s).0 (h.0 p), λ p. h.1 ((is_sealed-AllSay b s).1 p))

known_result_cases :
    (r : Bool × Option Err) → (known_result r ≡ pass) ↔ ((r ≡ (true, none)) ⊎ (r ≡ (false, none)))
known_result_cases (b, some e) = ground arith
known_result_cases (true, none) = ground arith
known_result_cases (false, none) = ground arith

-- The seal state is known exactly when one of the two seal checks passes, and they never both do.
pub check_seal_state_iff :
    (s : Option State)
    → (Passes check_seal_state_is_known s ↔ (Passes check_is_sealed s ⊎ Passes check_is_unsealed s))
      × ¬ (Passes check_is_sealed s × Passes check_is_unsealed s)
unfolding check_seal_state_is_known check_is_sealed check_is_unsealed
check_seal_state_iff s =
    let k = known_result_cases (is_sealed s) in
    let a = sealed_result_iff (is_sealed s) in
    let b = unsealed_result_iff (is_sealed s) in ground (arith, k, a, b)

abbrev pub HasStatusOf : List ℕ → Option HealthResponse → Type 0
HasStatusOf statuses none = ⊥
HasStatusOf statuses (some h) = Some (λ s. s ≡ h.health_status) statuses

abbrev pub StateHasStatusOf : List ℕ → Option State → Type 0
StateHasStatusOf statuses none = ⊥
StateHasStatusOf statuses (some s) = HasStatusOf statuses s.health

no_status :
    (h : Option HealthResponse)
    → (fail (new "checking vault health status: no desired statuses were given") ≡ pass)
      ↔ HasStatusOf [] h
no_status none = ground arith
no_status (some h) = ground arith

some_status :
    (statuses : List ℕ) (h : Option HealthResponse)
    → (health_result statuses h ≡ pass) ↔ HasStatusOf statuses h
some_status statuses none = ground arith
some_status statuses (some h) = ground (arith, status_is_one_of_iff h statuses)

-- The health check passes exactly when the state has a health response whose status is listed.
pub check_has_health_status_of_iff :
    (statuses : List ℕ) (s : Option State)
    → Passes (check_has_health_status_of statuses) s ↔ StateHasStatusOf statuses s
unfolding check_has_health_status_of
check_has_health_status_of_iff [] none = ground arith
check_has_health_status_of_iff [] (some s) = no_status s.health
check_has_health_status_of_iff (t ∷ ts) none = ground arith
check_has_health_status_of_iff (t ∷ ts) (some s) = some_status (t ∷ ts) s.health

abbrev pub UnitRuns : Option State → Type 0
UnitRuns none = ⊥
UnitRuns (some s) = Shares s.unit_properties enabled_and_running_properties

unit_result_iff :
    (r : UnitProperties × Option Err)
    → (unit_result r ≡ pass)
      ↔ ((r.1 ≡ none) × (has_properties r.0 enabled_and_running_properties ≡ true))
unit_result_iff (props, some e) = ground arith
unit_result_iff (props, none) = ground arith

-- The systemd check passes exactly when the unit's properties have each of the four that an enabled
-- and running unit has, with its value.
pub check_systemd_iff :
    (s : Option State) → Passes check_has_systemd_enabled_and_running_properties s ↔ UnitRuns s
unfolding check_has_systemd_enabled_and_running_properties
check_systemd_iff none = ground arith
check_systemd_iff (some s) =
    let u = unit_result_iff (find_properties s.unit_properties enabled_and_running_properties) in
    let f = find_properties_iff s.unit_properties enabled_and_running_properties in
    (λ h. f.0 (u.0 h), λ h. u.1 (f.1 h))
