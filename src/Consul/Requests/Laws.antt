-- ===== src/Consul/Requests/Laws.antt =====
-- What a request to a Consul node returns.
use terraform_provider_enos.Prelude.{◌≡◌, ◌≢◌, refl, ap, ◌↔◌, Option, none, some, []}
use terraform_provider_enos.Go.{Err, join-none}
use terraform_provider_enos.Bodies.{Unmarshal, body_of, RunGives, RunGives-iff, given_iff}
use terraform_provider_enos.Transport.{Run}
use terraform_provider_enos.Consul.Requests.{
  ConsulRequest, ConsulEndpoint, unexpected_write, no_json, missing_field, request_command,
  response_of, at_target, unless_missing, read_consul,
}

module _ {B A : Type 0} (e : ConsulEndpoint B A) where
  abbrev pub HasFields : ConsulRequest → Type 0
  HasFields req =
      (req.flight_control_path ≢ []) × (req.consul_addr ≢ []) × (e.argument_error ≡ none)

  HasFields-iff : (req : ConsulRequest) → (missing_field e req ≡ none) ↔ HasFields req
  HasFields-iff req = (
    λ h.
        let (pa, x) = (join-none _ _).0 h in
        let (p, a) = (join-none _ _).0 pa in ((given_iff _ _).0 p, (given_iff _ _).0 a, x),
    λ (p, a, x).
        (join-none _ _).1 ((join-none _ _).1 ((given_iff _ _).1 p, (given_iff _ _).1 a), x),
  )

  module _ {W : Type 0} (un : Unmarshal B) (tr : Run W) where
    -- The run of the request gave a body, which is the response's.
    abbrev pub Gives : ConsulRequest → W → A → W → Type 0
    Gives req w res w' =
        HasFields req
        × ((body : B) × RunGives un e.blank (tr (request_command e req) w).0 body
            × (res ≡ e.response body))
        × ((tr (request_command e req) w).1 ≡ w')

    result_iff :
        (r : B × Option Err) (w : W) (res : A) (w' : W)
        → (at_target e un tr (response_of e r) w ≡ (some res, none, w'))
          ↔ (((body : B) × (r ≡ (body, none)) × (res ≡ e.response body)) × (w ≡ w'))
    result_iff (b, none) w res w' =
        (λ h. ((b, refl, cc h), cc h), λ ((body, p, q), s). rw (q, s, ap (λ x. x.0) p) refl)
    result_iff (b, some x) w res w' =
        (λ h. absurd (cc h), λ ((body, p, q), s). absurd (cc (ap (λ x. x.1) p)))

    unless_missing_iff :
        (m : Option Err) (req : ConsulRequest) (w : W) (res : A) (w' : W)
        → missing_field e req ≡ m
        → (unless_missing e un tr m req w ≡ (some res, none, w')) ↔ Gives req w res w'
    unless_missing_iff (some x) req w res w' same =
        (λ h. absurd (cc h), λ (f, b, s). absurd (cc ((HasFields-iff req).1 f)))
    unless_missing_iff none req w res w' same =
        let out = (tr (request_command e req) w).0 in
        let (to, from) =
          result_iff (body_of unexpected_write no_json un e.blank out)
            (tr (request_command e req) w).1 res w' in
        (
          λ h.
              let ((body, b, q), s) = to h in
              (
                (HasFields-iff req).0 same,
                (body, (RunGives-iff un e.blank unexpected_write no_json out body).0 b, q),
                s,
              ),
          λ (f, b, s).
              let (body, g, q) = b in
              from ((body, (RunGives-iff un e.blank unexpected_write no_json out body).1 g, q), s),
        )

    -- A request gives a response with no error exactly where the context is not done, the path of
    -- enos-flight-control, the address and the name that it takes are given, and the run with them had
    -- no error and wrote, to its output alone, what decodes to the body of the response.
    pub read_consul_iff :
        (ctx_err : Option Err) (req : ConsulRequest) (w : W) (res : A) (w' : W)
        → (read_consul e un tr ctx_err req w ≡ (some res, none, w'))
          ↔ ((ctx_err ≡ none) × Gives req w res w')
    unfolding read_consul
    read_consul_iff (some x) req w res w' = (λ h. absurd (cc h), λ (c, g). absurd (cc c))
    read_consul_iff none req w res w' =
        let (to, from) = unless_missing_iff (missing_field e req) req w res w' refl in
        (λ h. (refl, to h), λ (c, g). from g)

    response-inv :
        (r : B × Option Err) (w : W) (o : Option A) (w' : W)
        → at_target e un tr (response_of e r) w ≡ (o, none, w')
        → (res : A) × (o ≡ some res)
    response-inv (b, none) w o w' h = (e.response b, cc h)
    response-inv (b, some x) w o w' h = absurd (cc h)

    missing-inv :
        (m : Option Err) (req : ConsulRequest) (w : W) (o : Option A) (w' : W)
        → unless_missing e un tr m req w ≡ (o, none, w')
        → (res : A) × (o ≡ some res)
    missing-inv (some x) req w o w' h = absurd (cc h)
    missing-inv none req w o w' h = response-inv _ _ o w' h

    -- With no error there is a response.
    read_consul-some :
        (ctx_err : Option Err) (req : ConsulRequest) (w : W) (o : Option A) (w' : W)
        → read_consul e un tr ctx_err req w ≡ (o, none, w')
        → (res : A) × (o ≡ some res)
    unfolding read_consul
    read_consul-some (some x) req w o w' h = absurd (cc h)
    read_consul-some none req w o w' h = missing-inv _ req w o w' h

    pub read_consul-Gives :
        (ctx_err : Option Err) (req : ConsulRequest) (w : W) (o : Option A) (w' : W)
        → read_consul e un tr ctx_err req w ≡ (o, none, w')
        → (res : A) × (o ≡ some res) × Gives req w res w'
    read_consul-Gives ctx_err req w o w' h =
        let (res, is_some) = read_consul-some ctx_err req w o w' h in
        (res, is_some, ((read_consul_iff ctx_err req w res w').0 (rw is_some at h)).1)
