-- ===== src/Bodies.antt =====
-- What the requests of internal/remoteflight/vault and internal/remoteflight/consul make of a run whose
-- output is a JSON body.
use terraform_provider_enos.Prelude.{◌≡◌, ◌≢◌, refl, ap, ◌↔◌, Option, none, some, [], ◌∷◌, Bytes}
use terraform_provider_enos.Go.{Err, join, join-none}
use terraform_provider_enos.Transport.{Output}

-- json.Unmarshal onto a value: the value that it leaves, and its error.
abbrev pub Unmarshal : Type 0 → Type 0
Unmarshal T = Bytes → T → T × Option Err

-- An error if a text is empty, and if it is not.
abbrev pub error_if_empty : Bytes → Err → Option Err
error_if_empty [] e = some e
error_if_empty (_ ∷ _) e = none

abbrev pub error_unless_empty : Bytes → (Bytes → Err) → Option Err
error_unless_empty [] f = none
error_unless_empty (c ∷ s) f = some (f (c ∷ s))

abbrev pub unmarshal_body : {A : Type 0} → Err → Unmarshal A → Bytes → A → A × Option Err
unmarshal_body no_body un [] res = (res, some no_body)
unmarshal_body no_body un (c ∷ s) res = un (c ∷ s) res

-- The error of the run, one for STDERR, and one for the body, in this order.
abbrev pub body_of : {A : Type 0} → (Bytes → Err) → Err → Unmarshal A → A → Output → A × Option Err
body_of stderr_error no_body un blank out =
    let (res, json_err) = unmarshal_body no_body un out.stdout blank in
    (res, join (join out.err (error_unless_empty out.stderr stderr_error)) json_err)

pub given_iff : (s : Bytes) (x : Err) → (error_if_empty s x ≡ none) ↔ (s ≢ [])
given_iff [] x = (λ h. absurd (cc h), λ h. absurd (h refl))
given_iff (c ∷ s) x = (λ h p. cc p, λ h. refl)

silent_iff : (s : Bytes) (f : Bytes → Err) → (error_unless_empty s f ≡ none) ↔ (s ≡ [])
silent_iff [] f = (λ h. refl, λ h. refl)
silent_iff (c ∷ s) f = (λ h. absurd (cc h), λ h. absurd (cc h))

-- The run had no error and wrote to its output alone, and what it wrote was decoded.
abbrev pub RunGives : {A : Type 0} → Unmarshal A → A → Output → A → Type 0
RunGives un blank out res =
    (out.err ≡ none) × (out.stderr ≡ []) × (out.stdout ≢ []) × (un out.stdout blank ≡ (res, none))

module _ {A : Type 0} (un : Unmarshal A) (blank : A) where
  body_iff :
      (no_body : Err) (stdout : Bytes) (res : A)
      → (unmarshal_body no_body un stdout blank ≡ (res, none))
        ↔ ((stdout ≢ []) × (un stdout blank ≡ (res, none)))
  body_iff no_body [] res = (λ h. absurd (cc h), λ h. absurd (h.0 refl))
  body_iff no_body (c ∷ s) res = (λ h. (λ p. cc p, h), λ h. h.1)

  pub RunGives-iff :
      (stderr_error : Bytes → Err) (no_body : Err) (out : Output) (res : A)
      → (body_of stderr_error no_body un blank out ≡ (res, none)) ↔ RunGives un blank out res
  RunGives-iff stderr_error no_body out res = (
    λ h.
        let (es, j) = (join-none _ _).0 (ap (λ x. x.1) h) in
        let (x, s) = (join-none _ _).0 es in
        let (o, d) = (body_iff no_body out.stdout res).0 (paired _ (ap (λ x. x.0) h) j) in
        (x, (silent_iff _ _).0 s, o, d),
    λ (x, s, o, d). let b = (body_iff no_body out.stdout res).1 (o, d) in rw (b, x, s) refl,
  )
    where
      paired : (p : A × Option Err) {r : A} → p.0 ≡ r → p.1 ≡ none → p ≡ (r, none)
      paired (a, o) q n = rw (q, n) refl
