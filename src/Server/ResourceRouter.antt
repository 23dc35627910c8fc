-- ===== src/Server/ResourceRouter.antt =====
-- internal/server/resourcerouter/router.go and internal/server/state/state.go: resources by their names,
-- and the requests that are passed on as they are. `W` is the world that the resources act on.
pub mod Change
pub mod Laws
pub mod Responses
pub mod Changes
use terraform_provider_enos.Prelude.{Bool, Option, none, some, List, [], ◌∷◌, Bytes, lookup, insert}
use terraform_provider_enos.Go.{apply_opts, Err, errorf, wrap, text, end, Ran, returned}
use terraform_provider_enos.Diags.{Diagnostic}
use terraform_provider_enos.Server.Terraform.{Terraform, Rpc}

-- What the routers use of state.State. HandleFailure may change the diagnostic that it is given.
pub record State (tf : Terraform) (W : Type 0) : Type 0 where
  pub terraform5_type : tf.ValueType
  pub terraform5_value : tf.Value
  pub handle_failure : Diagnostic tf.AttributePath → tf.Value → W → Diagnostic tf.AttributePath × W

pub record PlanResourceChangeRequest (tf : Terraform) : Type 0 where
  pub type_name : Bytes
  pub prior_state : tf.Value
  pub proposed_new_state : tf.Value
  pub config : Option tf.DynamicValue
  pub prior_private : Bytes
  pub provider_meta : Option tf.DynamicValue

-- A nil interface is `none`.
pub record PlanResourceChangeResponse (tf : Terraform) (W : Type 0) : Type 0 where
  pub planned_state : Option (State tf W)
  pub requires_replace : List tf.AttributePath
  pub planned_private : Bytes
  pub diagnostics : List (Diagnostic tf.AttributePath)
  pub unsafe_to_use_legacy_type_system : Bool

pub record ApplyResourceChangeRequest (tf : Terraform) : Type 0 where
  pub type_name : Bytes
  pub prior_state : tf.Value
  pub planned_state : tf.Value
  pub config : Option tf.DynamicValue
  pub planned_private : Bytes
  pub provider_meta : Option tf.DynamicValue

pub record ApplyResourceChangeResponse (tf : Terraform) (W : Type 0) : Type 0 where
  pub new_state : Option (State tf W)
  pub private : Bytes
  pub diagnostics : List (Diagnostic tf.AttributePath)
  pub unsafe_to_use_legacy_type_system : Bool

abbrev pub Handler : Rpc → Type 0 → Type 0
Handler rpc W = rpc.Request → rpc.Response → W → rpc.Response × W

pub record Resource (tf : Terraform) (W : Type 0) : Type 0 where
  pub name : Bytes
  pub schema : tf.Schema
  pub set_provider_config : tf.Value → W → Option Err × W
  pub validate_resource_config : Handler tf.validate W
  pub upgrade_resource_state : Handler tf.upgrade W
  pub read_resource : Handler tf.read W
  pub import_resource_state : Handler tf.import_state W
  pub plan_resource_change :
      PlanResourceChangeRequest tf
      → PlanResourceChangeResponse tf W
      → W
      → PlanResourceChangeResponse tf W × W
  pub apply_resource_change :
      ApplyResourceChangeRequest tf
      → ApplyResourceChangeResponse tf W
      → W
      → ApplyResourceChangeResponse tf W × W

pub record Router (tf : Terraform) (W : Type 0) : Type 0 where
  pub resources : List (Bytes × Resource tf W)

-- What a call gives back: a pointer to the response, an error, and the world after it.
abbrev pub Answer : Type 0 → Type 0 → Type 0
Answer R W = Option R × Option Err × W

abbrev pub unsupported_resource : Bytes → Err
unsupported_resource type_name = errorf "unsupported resource: " (text type_name end)

abbrev pub set_provider_config_error : Err → Err
set_provider_config_error err = wrap "setting provider config on resource: " end err

module _ {R W : Type 0} where
  abbrev configured : Option Err × W → (W → Ran (Answer R W)) → Ran (Answer R W)
  configured (some err, w) call = returned (none, some (set_provider_config_error err), w)
  configured (none, w) call = call w

  -- A call whose response is passed back as the resource leaves it.
  abbrev pub answered : R × W → Ran (Answer R W)
  answered (res, w) = returned (some res, none, w)

module _ {tf : Terraform} {W : Type 0} where
  abbrev pub new_router : Router tf W
  new_router = record { resources = [] }

  unfoldable pub register_resource : Resource tf W → Router tf W → Router tf W
  unfolding insert
  register_resource resource router = record {
    resources = insert resource.name resource router.resources;
  }

  abbrev pub new : List (Router tf W → Router tf W) → Router tf W
  new opts = apply_opts opts new_router

  -- The two guards that every call begins with, and the call itself.
  abbrev found :
      {R : Type 0}
      → Bytes
      → tf.Value
      → W
      → (Resource tf W → W → Ran (Answer R W))
      → Option (Resource tf W)
      → Ran (Answer R W)
  found type_name provider_config w call none =
      returned (none, some (unsupported_resource type_name), w)
  found type_name provider_config w call (some resource) =
      configured (resource.set_provider_config provider_config w) (call resource)

  unfoldable pub with_resource :
      {R : Type 0}
      → Router tf W
      → Bytes
      → tf.Value
      → W
      → (Resource tf W → W → Ran (Answer R W))
      → Ran (Answer R W)
  unfolding lookup
  with_resource r type_name provider_config w call =
      found type_name provider_config w call (lookup type_name r.resources)

  unfoldable pub validate_resource_config :
      Router tf W → tf.validate.Request → tf.Value → W → Ran (Answer tf.validate.Response W)
  unfolding with_resource
  validate_resource_config r req provider_config w =
      with_resource r (tf.validate.type_name req) provider_config w
        (λ resource w'. answered (resource.validate_resource_config req tf.validate.empty w'))

  unfoldable pub upgrade_resource_state :
      Router tf W → tf.upgrade.Request → tf.Value → W → Ran (Answer tf.upgrade.Response W)
  unfolding with_resource
  upgrade_resource_state r req provider_config w =
      with_resource r (tf.upgrade.type_name req) provider_config w
        (λ resource w'. answered (resource.upgrade_resource_state req tf.upgrade.empty w'))

  unfoldable pub read_resource :
      Router tf W → tf.read.Request → tf.Value → W → Ran (Answer tf.read.Response W)
  unfolding with_resource
  read_resource r req provider_config w =
      with_resource r (tf.read.type_name req) provider_config w
        (λ resource w'. answered (resource.read_resource req tf.read.empty w'))

  unfoldable pub import_resource_state :
      Router tf W → tf.import_state.Request → tf.Value → W → Ran (Answer tf.import_state.Response W)
  unfolding with_resource
  import_resource_state r req provider_config w =
      with_resource r (tf.import_state.type_name req) provider_config w
        (λ resource w'. answered (resource.import_resource_state req tf.import_state.empty w'))

  abbrev pub schemas_of : List (Bytes × Resource tf W) → List (Bytes × tf.Schema)
  schemas_of [] = []
  schemas_of ((name, resource) ∷ resources) = (name, resource.schema) ∷ schemas_of resources

  abbrev pub schemas : Router tf W → List (Bytes × tf.Schema)
  schemas r = schemas_of r.resources
