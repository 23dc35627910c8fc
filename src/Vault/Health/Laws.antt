-- ===== src/Vault/Health/Laws.antt =====
-- What /v1/sys/health is read as.
use terraform_provider_enos.Prelude.{
  ℕ, ◌≡◌, refl, ◌↔◌, ◌⊎◌, Bool, true, false, Option, none, some, List, [], ◌∷◌, arith, ◌==◌, Some,
  any_of-Some, Some-mono, Some-any_of, ==_iff, ◌≢◌, ◌∙◌, ap,
}
use terraform_provider_enos.Go.{join-none, Err, exit_code}
use terraform_provider_enos.Transport.{Output, Run, new_command}
use terraform_provider_enos.Vault.Status.{Unmarshal, unmarshal_stdout}
use terraform_provider_enos.Vault.Status.Laws.{given, body_is_decoded}
use terraform_provider_enos.Vault.Health.{
  missing_argument, set_code, after_decode, health_result, new_health_response, health_unless,
  health_from_output, get_health, HealthResponse, is_sealed, status_is_one_of, health_statuses,
  health_status_from_error,
}
use terraform_provider_enos.Vault.Health.Request.{
  to_string, HealthRequest, health_not_initialized, health_sealed,
}

-- The status code is one of a sealed node.
abbrev pub IsSealedCode : ℕ → Type 0
IsSealedCode c = (c ≡ health_not_initialized) ⊎ (c ≡ health_sealed)

-- The exit code and the body both say `sealed`.
abbrev pub Says : Bool → Option HealthResponse → Type 0
Says b none = ⊥
Says true (some r) = IsSealedCode r.health_status × (r.sealed ≡ true)
Says false (some r) = (¬ IsSealedCode r.health_status) × (r.sealed ≡ false)

-- /v1/sys/health is known to be of a sealed or an unsealed node exactly when its code and its body say so.
pub is_sealed-SaysHealth :
    (b : Bool) (o : Option HealthResponse) → (is_sealed o ≡ (b, none)) ↔ Says b o
unfolding is_sealed
is_sealed-SaysHealth b none = ground arith
is_sealed-SaysHealth true (some r) = ground arith
is_sealed-SaysHealth false (some r) = ground arith

-- A status is one of a list exactly when the list has it.
pub status_is_one_of_iff :
    (r : HealthResponse) (statuses : List ℕ)
    → (status_is_one_of r statuses ≡ true) ↔ Some (λ s. s ≡ r.health_status) statuses
unfolding status_is_one_of
status_is_one_of_iff r [] = (λ h. ground arith, λ h. absurd h)
status_is_one_of_iff r (s ∷ statuses) = (
  λ h.
      Some-mono (s ∷ statuses) (λ t. (==_iff t r.health_status).0)
        (any_of-Some (λ t. t == r.health_status) (s ∷ statuses) h),
  λ h.
      Some-any_of (λ t. t == r.health_status) (s ∷ statuses)
        (Some-mono (s ∷ statuses) (λ t. (==_iff t r.health_status).1) h),
)

-- A failed run has a valid status exactly when its error holds an exit code that a request asks for.
pub health_status_from_error_iff :
    (e : Err) (code : ℕ)
    → (health_status_from_error e ≡ (code, none))
      ↔ ((exit_code e ≡ some code) × Some (λ s. code ≡ s) health_statuses)
unfolding health_status_from_error
health_status_from_error_iff e code = from_exit (exit_code e) refl
  where
    from_exit :
        (o : Option ℕ)
        → exit_code e ≡ o
        → (health_status_from_error e ≡ (code, none))
          ↔ ((exit_code e ≡ some code) × Some (λ s. code ≡ s) health_statuses)
    from_exit none h = rw (h, health_status_from_error) (ground arith)
    from_exit (some c) h = rw (h, health_status_from_error) (ground arith)

-- The run failed with an exit code that a request asks for, and its body was decoded over the code.
abbrev pub RunSays : Unmarshal HealthResponse → Output → HealthResponse → Type 0
RunSays un out res =
    (e : Err) × (c : ℕ) × (out.err ≡ some e)
    × (exit_code e ≡ some c)
    × Some (λ s. c ≡ s) health_statuses
    × (out.stdout ≢ [])
    × (un out.stdout (record new_health_response { health_status = c }) ≡ (res, none))

result_none :
    (r : HealthResponse × Option Err) (res : HealthResponse)
    → health_result r ≡ (some res, none)
    → (r.0 ≡ res) × (r.1 ≡ none)
result_none (t, none) res h = (cc h, refl)
result_none (t, some e) res h = ground arith

from_code :
    (un : Unmarshal HealthResponse) (out : Output) (res : HealthResponse) (e : Err)
    (r : ℕ × Option Err)
    → out.err ≡ some e
    → health_status_from_error e ≡ r
    → health_result
        (after_decode r.1 (unmarshal_stdout un out.stdout (set_code r new_health_response)))
      ≡ (some res, none)
    → RunSays un out res
from_code un out res e (c, some x) h p q =
    let (r, n) = result_none _ res q in let (ne, d) = (join-none (some x) _).0 n in ground arith
from_code un out res e (c, none) h p q =
    let (r, n) = result_none _ res q in
    let (o, d) =
      body_is_decoded un out.stdout (record new_health_response { health_status = c }) n in
    let (code, one_of) = (health_status_from_error_iff e c).0 p in
    (e, c, h, code, one_of, o, d ∙ ap (λ t. (t, none)) r)

from_output :
    (un : Unmarshal HealthResponse) (out : Output) (res : HealthResponse) (o : Option Err)
    → out.err ≡ o
    → health_result (health_from_output un (record out { err = o })) ≡ (some res, none)
    → RunSays un out res
unfolding health_status_from_error
from_output un out res none h q = ground arith
from_output un out res (some e) h q = from_code un out res e (health_status_from_error e) h refl q

-- GetHealth returns a response only if the context was not done, a path and an address were given, and
-- the run failed with one of the exit codes that it asks for and wrote a body that was decoded, over
-- that code, to the response.
pub get_health-RunSays :
    {W : Type 0} (un : Unmarshal HealthResponse) (tr : Run W) (ctx_err : Option Err)
    (req : HealthRequest) (w : W) (res : HealthResponse) (w' : W)
    → get_health un tr ctx_err req w ≡ (some res, none, w')
    → (ctx_err ≡ none)
      × (req.flight_control_path ≢ [])
      × (req.vault_addr ≢ [])
      × RunSays un (tr (new_command (to_string req)) w).0 res
unfolding get_health
get_health-RunSays un tr ctx_err req w res w' h = go (missing_argument ctx_err req) refl h
  where
    go :
        (m : Option Err)
        → missing_argument ctx_err req ≡ m
        → health_unless m un tr (new_command (to_string req)) w ≡ (some res, none, w')
        → (ctx_err ≡ none)
          × (req.flight_control_path ≢ [])
          × (req.vault_addr ≢ [])
          × RunSays un (tr (new_command (to_string req)) w).0 res
    go (some e) m h = ground arith
    go none m h =
        let (cb, a) = (join-none _ _).0 m in
        let (c, b) = (join-none _ _).0 cb in
        (
          c,
          given req.flight_control_path _ b,
          given req.vault_addr _ a,
          from_output un (tr (new_command (to_string req)) w).0 res
              (tr (new_command (to_string req)) w).0.err refl (ap (λ t. (t.0, t.1)) h),
        )
