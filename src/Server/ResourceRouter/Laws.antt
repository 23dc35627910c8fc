-- ===== src/Server/ResourceRouter/Laws.antt =====
-- Which resource a router of internal/server/resourcerouter calls.
use terraform_provider_enos.Prelude.{
  ◌≡◌, refl, inl, inr, Bool, true, false, if◌then◌else◌, Option, none, some, List, [], ◌∷◌, map,
  Bytes, bytes_eq, lookup, lookup-insert, Bool-cases, ap, ◌∙◌,
}
use mathlib.Core.Option
use terraform_provider_enos.Go.{returned}
use terraform_provider_enos.Server.Terraform.{Terraform}
use terraform_provider_enos.Server.ResourceRouter.{
  Resource, Router, new_router, new, register_resource, with_resource, answered,
  unsupported_resource, validate_resource_config, upgrade_resource_state, read_resource,
  import_resource_state, schemas, schemas_of,
}
use terraform_provider_enos.Go.{apply_opts}
use terraform_provider_enos.Server.ResourceRouter.Change.{
  plan_resource_change, apply_resource_change,
}
use terraform_provider_enos.Server.ResourceRouter.Change.Proto.{ProtoPlanRequest, ProtoApplyRequest}

module _ {tf : Terraform} {W : Type 0} where
  abbrev or_else : Option (Resource tf W) → Option (Resource tf W) → Option (Resource tf W)
  or_else none b = b
  or_else (some a) b = some a

  -- The last resource of a list that has the name.
  abbrev pub last_named : Bytes → List (Resource tf W) → Option (Resource tf W)
  last_named name [] = none
  last_named name (r ∷ rs) =
      or_else (last_named name rs) (if bytes_eq r.name name then some r else none)

  abbrev pub router_of : List (Resource tf W) → Router tf W
  router_of rs = new (map register_resource rs)

  or_else-chain :
      (o : Option (Resource tf W)) (b : Bool) (r : Resource tf W) (p : Option (Resource tf W))
      → or_else o (if b then some r else p) ≡ or_else (or_else o (if b then some r else none)) p
  or_else-chain none true r p = refl
  or_else-chain none false r p = refl
  or_else-chain (some a) b r p = refl

  lookup-registered :
      (rs : List (Resource tf W)) (r : Router tf W) (name : Bytes)
      → lookup name (apply_opts (map register_resource rs) r).resources
        ≡ or_else (last_named name rs) (lookup name r.resources)
  unfolding register_resource
  lookup-registered [] r name = refl
  lookup-registered (x ∷ rs) r name =
      lookup-registered rs (register_resource x r) name
      ∙ (ap (or_else (last_named name rs)) (lookup-insert x.name name x r.resources)
          ∙ or_else-chain (last_named name rs) (bytes_eq x.name name) x (lookup name r.resources))

  or_else-none : (o : Option (Resource tf W)) → or_else o none ≡ o
  or_else-none none = refl
  or_else-none (some a) = refl

  pub lookup-router_of :
      (rs : List (Resource tf W)) (name : Bytes)
      → lookup name (router_of rs).resources ≡ last_named name rs
  unfolding lookup
  lookup-router_of rs name =
      lookup-registered rs new_router name ∙ or_else-none (last_named name rs)

  -- A router that was made from resources passes a request of each of the four kinds to the last
  -- resource that was registered under the name that the request gives, provided that the resource
  -- takes the configuration of the provider, in the world that this leaves.
  pub router_calls_last_registered :
      (rs : List (Resource tf W)) {resource : Resource tf W} (validated : tf.validate.Request)
      (upgraded : tf.upgrade.Request) (refreshed : tf.read.Request)
      (imported : tf.import_state.Request) (provider_config : tf.Value) {w w' : W} (name : Bytes)
      → last_named name rs ≡ some resource
      → resource.set_provider_config provider_config w ≡ (none, w')
      → tf.validate.type_name validated ≡ name
      → tf.upgrade.type_name upgraded ≡ name
      → tf.read.type_name refreshed ≡ name
      → tf.import_state.type_name imported ≡ name
      → (validate_resource_config (router_of rs) validated provider_config w
          ≡ answered (resource.validate_resource_config validated tf.validate.empty w'))
        × (upgrade_resource_state (router_of rs) upgraded provider_config w
            ≡ answered (resource.upgrade_resource_state upgraded tf.upgrade.empty w'))
        × (read_resource (router_of rs) refreshed provider_config w
            ≡ answered (resource.read_resource refreshed tf.read.empty w'))
        × (import_resource_state (router_of rs) imported provider_config w
            ≡ answered (resource.import_resource_state imported tf.import_state.empty w'))
  unfolding validate_resource_config upgrade_resource_state read_resource import_resource_state
      with_resource
  router_calls_last_registered rs v u f i provider_config name found config hv hu hf hi = (
    rw (hv, lookup-router_of rs name, found, config) refl,
    rw (hu, lookup-router_of rs name, found, config) refl,
    rw (hf, lookup-router_of rs name, found, config) refl,
    rw (hi, lookup-router_of rs name, found, config) refl,
  )

  -- A router that was made from resources none of which has the name that a request to read, plan
  -- or apply gives answers it with the error for an unsupported resource, and calls nothing.
  pub router_refuses_unregistered :
      (rs : List (Resource tf W)) (refreshed : tf.read.Request) (planned : ProtoPlanRequest tf)
      (applied : ProtoApplyRequest tf) (provider_config : tf.Value) (w : W) (name : Bytes)
      → last_named name rs ≡ none
      → tf.read.type_name refreshed ≡ name
      → planned.type_name ≡ name
      → applied.type_name ≡ name
      → (read_resource (router_of rs) refreshed provider_config w
          ≡ returned (none, some (unsupported_resource name), w))
        × (plan_resource_change (router_of rs) planned provider_config w
            ≡ returned (none, some (unsupported_resource name), w))
        × (apply_resource_change (router_of rs) applied provider_config w
            ≡ returned (none, some (unsupported_resource name), w))
  unfolding read_resource plan_resource_change apply_resource_change with_resource
  router_refuses_unregistered rs f p a provider_config w name missing hf hp ha = (
    rw (hf, lookup-router_of rs name, missing) refl,
    rw (hp, lookup-router_of rs name, missing) refl,
    rw (ha, lookup-router_of rs name, missing) refl,
  )

  schemas_of-lookup :
      (m : List (Bytes × Resource tf W)) (name : Bytes)
      → lookup name (schemas_of m) ≡ Option.map (λ r. r.schema) (lookup name m)
  unfolding lookup
  schemas_of-lookup [] name = refl
  schemas_of-lookup ((j, r) ∷ m) name = elim (Bool-cases (bytes_eq j name)) [
    | inl e ↦ rw e refl
    | inr e ↦ rw e (schemas_of-lookup m name)
  ]

  pub lookup-schemas :
      (rs : List (Resource tf W)) (name : Bytes)
      → lookup name (schemas (router_of rs)) ≡ Option.map (λ r. r.schema) (last_named name rs)
  lookup-schemas rs name =
      schemas_of-lookup (router_of rs).resources name
      ∙ ap (Option.map (λ r. r.schema)) (lookup-router_of rs name)
