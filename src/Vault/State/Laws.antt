-- ===== src/Vault/State/Laws.antt =====
-- What a state says of its node, against the sources that it was read from.
use terraform_provider_enos.Prelude.{◌≡◌, ◌↔◌, Bool, Option, none, some, arith}
use terraform_provider_enos.Go.{Err}
use terraform_provider_enos.Vault.State.{State, agree3, sealed_from, is_sealed}
use terraform_provider_enos.Vault.Status
use terraform_provider_enos.Vault.Status.Laws.{Says, is_sealed-Says}
use terraform_provider_enos.Vault.Health
use terraform_provider_enos.Vault.Health.Laws.{Says as HealthSays, is_sealed-SaysHealth}
use terraform_provider_enos.Vault.SealStatus
use terraform_provider_enos.Vault.SealStatus.{SealStatusResponse}

-- The seal-status body has data that says so.
abbrev pub BodySays : Bool → Option SealStatusResponse → Type 0
BodySays b none = ⊥
BodySays b (some r) = DataSays r.body
  where
    DataSays : Option SealStatus.SealStatusResponseData → Type 0
    DataSays none = ⊥
    DataSays (some d) = d.sealed ≡ b

body_is_sealed-BodySays :
    (b : Bool) (o : Option SealStatusResponse) → (SealStatus.is_sealed o ≡ (b, none)) ↔ BodySays b o
unfolding SealStatus.is_sealed
body_is_sealed-BodySays b none = ground arith
body_is_sealed-BodySays b (some r) = ground arith

-- All three sources say the same.
abbrev pub AllSay : Bool → Option State → Type 0
AllSay b none = ⊥
AllSay b (some s) = Says b s.status × HealthSays b s.health × BodySays b s.seal_status

agree3_iff :
    (d : Bool) (x y z : Bool × Option Err)
    → (agree3 x y z ≡ (d, none)) ↔ ((x ≡ (d, none)) × (y ≡ (d, none)) × (z ≡ (d, none)))
agree3_iff d (a, some e) y z = ground arith
agree3_iff d (a, none) (b, some e) z = ground arith
agree3_iff d (a, none) (b, none) (c, some e) = ground arith
agree3_iff d (a, none) (b, none) (c, none) = ground arith

sealed_from_iff :
    (b : Bool) (st : Option Status.StatusResponse) (h : Option Health.HealthResponse)
    (s : Option SealStatusResponse)
    → (sealed_from st h s ≡ (b, none)) ↔ (Says b st × HealthSays b h × BodySays b s)
sealed_from_iff b none h s = ground arith
sealed_from_iff b (some st) none s = ground arith
sealed_from_iff b (some st) (some h) none = ground arith
sealed_from_iff b (some st) (some h) (some s) =
    let a =
      agree3_iff b (Status.is_sealed (some st)) (SealStatus.is_sealed (some s))
        (Health.is_sealed (some h)) in
    let p = is_sealed-Says b (some st) in
    let q = is_sealed-SaysHealth b (some h) in
    let r = body_is_sealed-BodySays b (some s) in
    (λ e. (p.0 (a.0 e).0, q.0 (a.0 e).2, r.0 (a.0 e).1), λ e. a.1 (p.1 e.0, r.1 e.2, q.1 e.1))

-- A state is known to be sealed, or to be unsealed, exactly when `vault status`, /v1/sys/health and
-- /v1/sys/seal-status are all there and all say so, each consistently with its exit code.
pub is_sealed-AllSay : (b : Bool) (o : Option State) → (is_sealed o ≡ (b, none)) ↔ AllSay b o
unfolding is_sealed
is_sealed-AllSay b none = ground arith
is_sealed-AllSay b (some s) = sealed_from_iff b s.status s.health s.seal_status
