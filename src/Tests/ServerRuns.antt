-- ===== src/Tests/ServerRuns.antt =====
-- Runs of the routers: values are optional numbers, encoded as one more; 0 does not decode. The world
-- counts the calls.
use terraform_provider_enos.Prelude.{
  ◌≡◌, refl, ℕ, zero, suc, ◌+◌, false, Option, none, some, is_some, not, List, [], ◌∷◌, Bytes,
  codes, bytes_eq, lookup, insert,
}
use terraform_provider_enos.Go.{Err, wrap, end, new, returned, panicked}
use terraform_provider_enos.Diags.{
  set_error_diagnostic, Diagnostic, error, has_errors, get_error_diagnostic,
}
use terraform_provider_enos.Server.Terraform.{Terraform, Rpc}
use terraform_provider_enos.Server.ResourceRouter.{
  State, Resource, register_resource, with_resource,
}
use terraform_provider_enos.Server.ResourceRouter.Change.{
  apply_to_tf_proto6_response, no_apply, plan_resource_change, apply_resource_change,
}
use terraform_provider_enos.Server.ResourceRouter.Change.Proto.{
  ProtoPlanRequest, ProtoApplyRequest, plan_from_tf_proto6, apply_from_tf_proto6,
}
use terraform_provider_enos.Server.ResourceRouter.Laws.{router_of}
use terraform_provider_enos.Server.ResourceRouter.Changes.{
  apply_resource_change-Answers, undecodable_changes_panic, ApplyAnswered,
}
use terraform_provider_enos.Server.DataRouter.{DataSource}

abbrev named : Rpc
named = record { Request = Bytes; Response = ℕ; type_name = λ name. name; empty = 0 }

abbrev decode : ℕ → ℕ → Option ℕ × Option Err
decode zero ty = (none, some (new "no value"))
decode (suc zero) ty = (none, none)
decode (suc (suc n)) ty = (some n, none)

abbrev encode : ℕ → Option ℕ → ℕ × Option Err
encode ty none = (1, none)
encode ty (some n) = (suc (suc n), none)

abbrev terraform : Terraform
terraform = record {
  Value = Option ℕ;
  DynamicValue = ℕ;
  ValueType = ℕ;
  Schema = ℕ;
  AttributePath = ℕ;
  zero_value = none;
  is_null = λ v. not (is_some v);
  null_of = λ ty. none;
  value_type = λ schema. schema;
  unmarshal = decode;
  new_dynamic_value = encode;
  attribute_of = λ err. none;
  validate = named;
  upgrade = named;
  read = named;
  import_state = named;
  validate_data = named;
  read_data = named;
}

abbrev state : Option ℕ → State terraform ℕ
state value = record {
  terraform5_type = 7;
  terraform5_value = value;
  handle_failure =
      λ diag config w. (record diag { detail = wrap "apply: %w" end diag.detail }, w + 100);
}

abbrev failure : Diagnostic ℕ
failure = record { severity = error; summary = "apply"; detail = new "no host"; attribute = none }

abbrev resource : Bytes → ℕ → Resource terraform ℕ
resource name k = record {
  name = name;
  schema = 7;
  set_provider_config = λ config w. (none, w + 1);
  validate_resource_config = λ req res w. (k, w + 1);
  upgrade_resource_state = λ req res w. (k, w + 1);
  read_resource = λ req res w. (k, w + 1);
  import_resource_state = λ req res w. (k, w + 1);
  plan_resource_change =
      λ req res w. (record res { planned_state = some (state req.proposed_new_state) }, w + 1);
  apply_resource_change = λ req res w.
      (record res { new_state = some (state none); diagnostics = failure ∷ [] }, w + 1);
}

abbrev shop : List (Resource terraform ℕ)
shop =
    resource (codes "enos_file") 3
    ∷ resource (codes "enos_user") 4
    ∷ resource (codes "enos_file") 5
    ∷ []

abbrev plan_request : ℕ → ProtoPlanRequest terraform
plan_request proposed = record {
  type_name = codes "enos_user";
  prior_state = some 1;
  proposed_new_state = some proposed;
  config = none;
  prior_private = [];
  provider_meta = none;
}

abbrev apply_request : ℕ → ProtoApplyRequest terraform
apply_request planned = record {
  type_name = codes "enos_user";
  prior_state = some 1;
  planned_state = some planned;
  config = none;
  planned_private = [];
  provider_meta = none;
}

apply_resource_change-Answers_example :
    ApplyAnswered
      (record no_apply { new_state = some (state none); diagnostics = failure ∷ [] })
      (state none)
      false
      none
      2
      (apply_resource_change (router_of shop) (apply_request 4) none 0)
unfolding apply_from_tf_proto6 lookup insert bytes_eq register_resource
apply_resource_change-Answers_example =
    apply_resource_change-Answers (router_of shop) {resource = resource (codes "enos_user") 4} none
      0 refl (apply_request 4) refl refl refl refl

-- The handler's change of the failure is in the response.
handled_run :
    apply_resource_change (router_of shop) (apply_request 4) none 0
    ≡ returned (
      some (record {
        new_state = none;
        private = [];
        diagnostics = record failure { detail = wrap "apply: %w" end (new "no host") } ∷ [];
        unsafe_to_use_legacy_type_system = false;
      }),
      none,
      102,
    )
unfolding apply_resource_change with_resource apply_from_tf_proto6 apply_to_tf_proto6_response
    get_error_diagnostic has_errors set_error_diagnostic lookup insert bytes_eq register_resource
handled_run = refl

undecodable_changes_panic_example :
    (plan_resource_change (router_of shop) (plan_request 0) none 0 ≡ panicked)
    × (apply_resource_change (router_of shop) (apply_request 0) none 0 ≡ panicked)
unfolding plan_from_tf_proto6 apply_from_tf_proto6 lookup insert bytes_eq register_resource
undecodable_changes_panic_example =
    undecodable_changes_panic (router_of shop) {resource = resource (codes "enos_user") 4} none 0
      refl (plan_request 0) (apply_request 0) refl refl refl refl

abbrev source : Bytes → ℕ → DataSource terraform ℕ
source name k = record {
  name = name;
  schema = 7;
  set_provider_config = λ config w. (none, w + 1);
  validate_data_resource_config = λ req res w. (k, w + 1);
  read_data_source = λ req res w. (k, w + 1);
}
