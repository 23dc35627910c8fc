-- ===== src/Vault/Endpoints/Laws.antt =====
-- What a read of an endpoint by `vault read` returns.
use terraform_provider_enos.Prelude.{
  ◌≡◌, ◌≢◌, refl, ap, ◌∙◌, ◌↔◌, ◌⊎◌, inl, inr, Option, none, some, [], Bytes,
}
use terraform_provider_enos.Go.{Err, new, join-none}
use terraform_provider_enos.Transport.{Run}
use terraform_provider_enos.Bodies.{Unmarshal, body_of, RunGives, RunGives-iff, given_iff}
use terraform_provider_enos.Vault.Status.{CliRequest}
use terraform_provider_enos.Vault.Responses.{ConfigStateSanitizedResponse, HaStatusResponse}
use terraform_provider_enos.Vault.Endpoints.{config_state_sanitized, ha_status}
use terraform_provider_enos.Vault.Endpoints.Read.{unless_missing, read_endpoint}
use terraform_provider_enos.Vault.Endpoints.Read.{
  Endpoint, token_needed, read_command, missing_argument, endpoint_result, with_target,
}

-- A token is given, where the endpoint needs one.
abbrev pub TokenGiven : Option Err → Bytes → Type 0
TokenGiven none token = Unit
TokenGiven (some x) token = token ≢ []

token_iff : (x : Option Err) (token : Bytes) → (token_needed x token ≡ none) ↔ TokenGiven x token
token_iff none token = (λ h. tt, λ h. refl)
token_iff (some x) token = given_iff token x

result_iff :
    {A W : Type 0} (e : Endpoint A) (r : A × Option Err) (w : W) (res : A) (w' : W)
    → (with_target (endpoint_result e r) w ≡ (some res, none, w')) ↔ ((r ≡ (res, none)) × (w ≡ w'))
result_iff {A} e (t, none) w res w' =
    (λ h. (ap (λ (x : A). (x, none)) (cc h), cc h), λ (p, q). rw (ap (λ x. x.0) p, q) refl)
result_iff e (t, some x) w res w' = (λ h. absurd (cc h), λ (p, q). absurd (cc p))

module _ {A : Type 0} (e : Endpoint A) where
  -- What is asked of the context and the arguments.
  abbrev pub MayRead : Option Err → CliRequest → Type 0
  MayRead ctx_err req =
      (ctx_err ≡ none)
      × (req.bin_path ≢ [])
      × (req.vault_addr ≢ [])
      × TokenGiven e.token_error req.token

  MayRead-iff :
      (ctx_err : Option Err) (req : CliRequest)
      → (missing_argument e ctx_err req ≡ none) ↔ MayRead ctx_err req
  MayRead-iff ctx_err req = (
    λ h.
        let (cba, t) = (join-none _ _).0 h in
        let (cb, a) = (join-none _ _).0 cba in
        let (c, b) = (join-none _ _).0 cb in
        (c, (given_iff _ _).0 b, (given_iff _ _).0 a, (token_iff _ _).0 t),
    λ (c, b, a, t). (join-none _ _).1 (
      (join-none _ _).1 ((join-none _ _).1 (c, (given_iff _ _).1 b), (given_iff _ _).1 a),
      (token_iff e.token_error _).1 t,
    ),
  )

  module _ {W : Type 0} (un : Unmarshal A) (tr : Run W) where
    unless_missing_iff :
        (m : Option Err) (req : CliRequest) (w : W) (res : A) (w' : W)
        → (unless_missing e un tr m req w ≡ (some res, none, w')) ↔ (
            (m ≡ none)
            × RunGives un e.blank (tr (read_command e req) w).0 res
            × ((tr (read_command e req) w).1 ≡ w'))
    unless_missing_iff (some x) req w res w' = (λ h. absurd (cc h), λ h. absurd (cc h.0))
    unless_missing_iff none req w res w' =
        let (to, from) =
          result_iff e (body_of e.stderr_error e.no_body un e.blank (tr (read_command e req) w).0)
            (tr (read_command e req) w).1 res w' in
        let (gives, given) =
          RunGives-iff un e.blank e.stderr_error e.no_body (tr (read_command e req) w).0 res in
        (λ h. let (b, s) = to h in (refl, gives b, s), λ (n, g, s). from (given g, s))

    -- A read of an endpoint gives a response with no error exactly where the context is not done, a
    -- binary and an address are given, and a token where one is needed, and the run of `vault read`
    -- with them had no error and wrote, to its output alone, what decodes to the response.
    pub read_endpoint_iff :
        (ctx_err : Option Err) (req : CliRequest) (w : W) (res : A) (w' : W)
        → (read_endpoint e un tr ctx_err req w ≡ (some res, none, w')) ↔ (
            MayRead ctx_err req
            × RunGives un e.blank (tr (read_command e req) w).0 res
            × ((tr (read_command e req) w).1 ≡ w'))
    unfolding read_endpoint
    read_endpoint_iff ctx_err req w res w' =
        let (to, from) = unless_missing_iff (missing_argument e ctx_err req) req w res w' in
        let (may, asked) = MayRead-iff ctx_err req in
        (λ h. let (m, r, s) = to h in (may m, r, s), λ (m, r, s). from (asked m, r, s))

    -- An answer is a response with no error, or no response with the endpoint's error.
    abbrev pub Answers : Option A × Option Err × W → Type 0
    Answers (res, none, w') = ¬ (res ≡ none)
    Answers (res, some x, w') = (res ≡ none) × ((cause : Err) × (x ≡ e.failed cause))

    result-Answers : (r : A × Option Err) (w' : W) → Answers (with_target (endpoint_result e r) w')
    result-Answers (t, none) w' = λ h. cc h
    result-Answers (t, some x) w' = (refl, (x, refl))

    unless_missing-Answers :
        (m : Option Err) (req : CliRequest) (w : W) → Answers (unless_missing e un tr m req w)
    unless_missing-Answers (some x) req w = (refl, (x, refl))
    unless_missing-Answers none req w =
        result-Answers (body_of e.stderr_error e.no_body un e.blank _) _

    read_endpoint-Answers :
        (ctx_err : Option Err) (req : CliRequest) (w : W)
        → Answers (read_endpoint e un tr ctx_err req w)
    unfolding read_endpoint
    read_endpoint-Answers ctx_err req w = unless_missing-Answers _ req w

    one_error :
        (message : Err)
        → ((cause : Err) → e.failed cause ≡ message)
        → (o : Option A × Option Err × W) → Answers o
        → (o.1 ≡ none) ⊎ (o.1 ≡ some message)
    one_error message same (res, none, w') h = inl refl
    one_error message same (res, some x, w') (n, (cause, f)) = inr (ap some (f ∙ same cause))

-- GetConfigStateSanitized and GetHAStatus each have one error, whatever the cause is: a context that is
-- done, an argument that is missing, a run that fails, or a body that does not decode.
pub reads_drop_cause :
    {W : Type 0} (un : Unmarshal ConfigStateSanitizedResponse) (un' : Unmarshal HaStatusResponse)
    (tr : Run W) (ctx_err : Option Err) (req : CliRequest) (w : W)
    → (((read_endpoint config_state_sanitized un tr ctx_err req w).1 ≡ none)
        ⊎ ((read_endpoint config_state_sanitized un tr ctx_err req w).1
            ≡ some (new "get config state sanitized: vault read sys/config/state/sanitized")))
      × (((read_endpoint ha_status un' tr ctx_err req w).1 ≡ none)
          ⊎ ((read_endpoint ha_status un' tr ctx_err req w).1
              ≡ some (new "get vault ha-status: vault read sys/ha-status")))
reads_drop_cause un un' tr ctx_err req w = (
  one_error config_state_sanitized un tr _ (λ cause. refl) _
      (read_endpoint-Answers config_state_sanitized un tr ctx_err req w),
  one_error ha_status un' tr _ (λ cause. refl) _
      (read_endpoint-Answers ha_status un' tr ctx_err req w),
)
