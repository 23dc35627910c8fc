-- ===== src/Server/ResourceRouter/Change.antt =====
-- internal/server/resourcerouter/plan.go and apply.go: the two calls that change a resource. Their
-- requests are decoded before and their states encoded after the resource is called.
pub mod Proto
use terraform_provider_enos.Prelude.{Bool, true, false, Option, none, some, List, [], ◌∷◌}
use terraform_provider_enos.Go.{Err, Ran, returned, ◌>>=◌, deref}
use terraform_provider_enos.Diags.{
  Diagnostic, get_error_diagnostic, set_error_diagnostic, has_errors,
}
use terraform_provider_enos.Server.Terraform.{Terraform}
use terraform_provider_enos.Server.ResourceRouter.{
  State, PlanResourceChangeRequest, PlanResourceChangeResponse, ApplyResourceChangeRequest,
  ApplyResourceChangeResponse, Resource, Router, Answer, with_resource,
}
use terraform_provider_enos.Server.ResourceRouter.Change.Proto.{
  ProtoPlanRequest, ProtoPlanResponse, ProtoApplyRequest, ProtoApplyResponse, marshal_error,
  serialization_error, with_planned, with_new, no_plan_request, no_apply_request,
  plan_from_tf_proto6, apply_from_tf_proto6, is_delete,
}

-- The handler's changes are those of the diagnostic in the response, to which it has the pointer.
abbrev pub rewritten :
    {P W : Type 0} → List (Diagnostic P) → Diagnostic P × W → List (Diagnostic P) × W
rewritten diagnostics (diag, w) = (set_error_diagnostic diag diagnostics, w)

module _ {tf : Terraform} {W : Type 0} where
  -- state.Marshal and state.MarshalDelete.
  abbrev pub marshal : State tf W → tf.DynamicValue × Option Err
  marshal s = marshal_error tf (tf.new_dynamic_value s.terraform5_type s.terraform5_value)

  abbrev pub marshal_delete : State tf W → tf.DynamicValue × Option Err
  marshal_delete s =
      marshal_error tf (tf.new_dynamic_value s.terraform5_type (tf.null_of s.terraform5_type))

  abbrev pub marshal_apply : State tf W → Bool → tf.DynamicValue × Option Err
  marshal_apply s true = marshal_delete s
  marshal_apply s false = marshal s

  -- A state is encoded where no diagnostic is an error; a nil state panics.
  abbrev pub unless_errors :
      {R : Type 0} → Bool → R → Option (State tf W) → (State tf W → R) → Ran R
  unless_errors true resp s put = returned resp
  unless_errors false resp s put = deref s >>= λ value. returned (put value)

  abbrev pub plan_response_of : PlanResourceChangeResponse tf W → ProtoPlanResponse tf
  plan_response_of p = record {
    planned_state = none;
    requires_replace = p.requires_replace;
    planned_private = p.planned_private;
    diagnostics = p.diagnostics;
    unsafe_to_use_legacy_type_system = p.unsafe_to_use_legacy_type_system;
  }

  abbrev pub apply_response_of : ApplyResourceChangeResponse tf W → ProtoApplyResponse tf
  apply_response_of a = record {
    new_state = none;
    private = a.private;
    diagnostics = a.diagnostics;
    unsafe_to_use_legacy_type_system = a.unsafe_to_use_legacy_type_system;
  }

  unfoldable pub plan_to_tf_proto6_response :
      PlanResourceChangeResponse tf W → Ran (ProtoPlanResponse tf)
  plan_to_tf_proto6_response p =
      unless_errors (has_errors p.diagnostics) (plan_response_of p) p.planned_state
        (λ s. with_planned tf (plan_response_of p) (marshal s))

  unfoldable pub apply_to_tf_proto6_response :
      ApplyResourceChangeResponse tf W → Bool → Ran (ProtoApplyResponse tf)
  apply_to_tf_proto6_response a deletes =
      unless_errors (has_errors a.diagnostics) (apply_response_of a) a.new_state
        (λ s. with_new tf (apply_response_of a) (marshal_apply s deletes))

  -- The failure handler is called with the first error; on a nil state that panics.
  abbrev pub failed_with :
      Option (Diagnostic tf.AttributePath)
      → List (Diagnostic tf.AttributePath)
      → Option (State tf W)
      → tf.Value
      → W
      → Ran (List (Diagnostic tf.AttributePath) × W)
  failed_with none diagnostics s provider_config w = returned (diagnostics, w)
  failed_with (some diag) diagnostics s provider_config w = deref s >>= λ value.
      returned (rewritten diagnostics (value.handle_failure diag provider_config w))

  abbrev pub handle_failure :
      List (Diagnostic tf.AttributePath)
      → Option (State tf W)
      → tf.Value
      → W
      → Ran (List (Diagnostic tf.AttributePath) × W)
  handle_failure diagnostics = failed_with (get_error_diagnostic diagnostics) diagnostics

  abbrev pub no_plan : PlanResourceChangeResponse tf W
  no_plan = record {
    planned_state = none;
    requires_replace = [];
    planned_private = [];
    diagnostics = [];
    unsafe_to_use_legacy_type_system = false;
  }

  abbrev pub plan_decoded :
      Resource tf W
      → PlanResourceChangeRequest tf × Option Err
      → W
      → PlanResourceChangeResponse tf W × W
  plan_decoded resource (request, some err) w =
      (record no_plan { diagnostics = serialization_error tf err ∷ [] }, w)
  plan_decoded resource (request, none) w = resource.plan_resource_change request no_plan w

  abbrev pub plan_answer :
      tf.Value → PlanResourceChangeResponse tf W × W → Ran (Answer (ProtoPlanResponse tf) W)
  plan_answer provider_config (res, w) =
      handle_failure res.diagnostics res.planned_state provider_config w >>= λ handled.
      plan_to_tf_proto6_response (record res { diagnostics = handled.0 }) >>= λ resp.
      returned (some resp, none, handled.1)

  unfoldable pub plan_resource_change :
      Router tf W → ProtoPlanRequest tf → tf.Value → W → Ran (Answer (ProtoPlanResponse tf) W)
  plan_resource_change r req provider_config w =
      with_resource r req.type_name provider_config w (λ resource w'.
        plan_from_tf_proto6 (no_plan_request tf) req (tf.value_type resource.schema) >>= λ decoded.
        plan_answer provider_config (plan_decoded resource decoded w'))

  abbrev pub no_apply : ApplyResourceChangeResponse tf W
  no_apply = record {
    new_state = none;
    private = [];
    diagnostics = [];
    unsafe_to_use_legacy_type_system = false;
  }

  abbrev pub apply_decoded :
      Resource tf W
      → ApplyResourceChangeRequest tf × Option Err
      → W
      → ApplyResourceChangeResponse tf W × W
  apply_decoded resource (request, some err) w =
      (record no_apply { diagnostics = serialization_error tf err ∷ [] }, w)
  apply_decoded resource (request, none) w = resource.apply_resource_change request no_apply w

  abbrev pub apply_answer :
      tf.Value
      → Bool
      → ApplyResourceChangeResponse tf W × W
      → Ran (Answer (ProtoApplyResponse tf) W)
  apply_answer provider_config deletes (res, w) =
      handle_failure res.diagnostics res.new_state provider_config w >>= λ handled.
      apply_to_tf_proto6_response (record res { diagnostics = handled.0 }) deletes >>= λ resp.
      returned (some resp, none, handled.1)

  unfoldable pub apply_resource_change :
      Router tf W → ProtoApplyRequest tf → tf.Value → W → Ran (Answer (ProtoApplyResponse tf) W)
  apply_resource_change r req provider_config w =
      with_resource r req.type_name provider_config w (λ resource w'.
        apply_from_tf_proto6 (no_apply_request tf) req (tf.value_type resource.schema)
        >>= λ decoded.
            apply_answer provider_config (is_delete decoded.0) (apply_decoded resource decoded w'))
