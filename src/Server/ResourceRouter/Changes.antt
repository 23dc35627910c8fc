-- ===== src/Server/ResourceRouter/Changes.antt =====
-- What a plan or an apply of internal/server/resourcerouter answers, and what becomes of a failure.
use terraform_provider_enos.Prelude.{◌≡◌, refl, ap, ◌∙◌, ◌↔◌, List, Bool, true, none, some, lookup}
use terraform_provider_enos.Go.{Err, Ran, returned, panicked, ◌>>=◌}
use terraform_provider_enos.Diags.{
  Diagnostic, get_error_diagnostic, has_errors, err_to_diagnostic-severity,
}
use terraform_provider_enos.Server.Terraform.{Terraform}
use terraform_provider_enos.Server.ResourceRouter.{
  State, PlanResourceChangeRequest, PlanResourceChangeResponse, ApplyResourceChangeRequest,
  ApplyResourceChangeResponse, Resource, Router, Answer, with_resource,
}
use terraform_provider_enos.Server.ResourceRouter.Change.{
  marshal, marshal_apply, plan_to_tf_proto6_response, apply_to_tf_proto6_response, plan_answer,
  apply_answer, no_plan, no_apply, plan_resource_change, apply_resource_change,
}
use terraform_provider_enos.Server.ResourceRouter.Change.Proto.{
  ProtoPlanRequest, ProtoPlanResponse, ProtoApplyRequest, ProtoApplyResponse, plan_from_tf_proto6,
  apply_from_tf_proto6, is_delete, no_plan_request, no_apply_request,
}
use terraform_provider_enos.Server.ResourceRouter.Responses.{
  EncodesAs, EncodesAs-state_iff, Handled, handle_failure-Handled, plan_encoded, apply_encoded,
}

module _ {tf : Terraform} {W : Type 0} where
  -- What a plan answers for what its resource does.
  abbrev pub PlanAnswered :
      PlanResourceChangeResponse tf W
      → State tf W
      → tf.Value
      → W
      → Ran (Answer (ProtoPlanResponse tf) W)
      → Type 0
  PlanAnswered res s provider_config w o =
      (resp : ProtoPlanResponse tf) × (ds : List (Diagnostic tf.AttributePath)) × (w' : W) × (o
        ≡ returned (some resp, none, w'))
      × Handled s provider_config res.diagnostics w ds w'
      × EncodesAs tf ds (marshal s) resp.planned_state resp.diagnostics
      × ((resp.planned_state ≡ none) ↔ (has_errors resp.diagnostics ≡ true))

  -- What an apply answers for what its resource does.
  abbrev pub ApplyAnswered :
      ApplyResourceChangeResponse tf W
      → State tf W
      → Bool
      → tf.Value
      → W
      → Ran (Answer (ProtoApplyResponse tf) W)
      → Type 0
  ApplyAnswered res s deletes provider_config w o =
      (resp : ProtoApplyResponse tf) × (ds : List (Diagnostic tf.AttributePath)) × (w' : W) × (o
        ≡ returned (some resp, none, w'))
      × Handled s provider_config res.diagnostics w ds w'
      × EncodesAs tf ds (marshal_apply s deletes) resp.new_state resp.diagnostics
      × ((resp.new_state ≡ none) ↔ (has_errors resp.diagnostics ≡ true))

  plan_answer-PlanAnswered :
      (res : PlanResourceChangeResponse tf W) {s : State tf W} (provider_config : tf.Value) (w : W)
      → res.planned_state ≡ some s
      → PlanAnswered res s provider_config w (plan_answer provider_config (res, w))
  plan_answer-PlanAnswered res {s} provider_config w hs =
      let (ds, w', handles, handled) =
        handle_failure-Handled res.planned_state provider_config res.diagnostics w _ hs refl in
      let (resp, encodes, encoded) = plan_encoded (record res { diagnostics = ds }) _ hs refl in
      (
        resp,
        ds,
        w',
        ap
              (λ (m : Ran (List (Diagnostic tf.AttributePath) × W)).
                m >>= λ (handled : List (Diagnostic tf.AttributePath) × W).
                plan_to_tf_proto6_response (record res { diagnostics = handled.0 }) >>= λ resp.
                returned (some resp, none, handled.1))
              handles
            ∙ ap (λ (m : Ran (ProtoPlanResponse tf)). m >>= λ resp. returned (some resp, none, w'))
                encodes,
        handled,
        encoded,
        EncodesAs-state_iff tf ds _ _ _ encoded,
      )

  apply_answer-ApplyAnswered :
      (res : ApplyResourceChangeResponse tf W) {s : State tf W} (deletes : Bool)
      (provider_config : tf.Value) (w : W)
      → res.new_state ≡ some s
      → ApplyAnswered res s deletes provider_config w
          (apply_answer provider_config deletes (res, w))
  apply_answer-ApplyAnswered res {s} deletes provider_config w hs =
      let (ds, w', handles, handled) =
        handle_failure-Handled res.new_state provider_config res.diagnostics w _ hs refl in
      let (resp, encodes, encoded) =
        apply_encoded (record res { diagnostics = ds }) deletes _ hs refl in
      (
        resp,
        ds,
        w',
        ap
              (λ (m : Ran (List (Diagnostic tf.AttributePath) × W)).
                m >>= λ (handled : List (Diagnostic tf.AttributePath) × W).
                apply_to_tf_proto6_response (record res { diagnostics = handled.0 }) deletes
                >>= λ resp. returned (some resp, none, handled.1))
              handles
            ∙ ap (λ (m : Ran (ProtoApplyResponse tf)). m >>= λ resp. returned (some resp, none, w'))
                encodes,
        handled,
        encoded,
        EncodesAs-state_iff tf ds _ _ _ encoded,
      )

  module _ (r : Router tf W) {resource : Resource tf W} (provider_config : tf.Value) (w : W)
      {w' : W} (config : resource.set_provider_config provider_config w ≡ (none, w')) where
    -- Where the router has a resource of the name, which takes the configuration, the request
    -- decodes and the resource answers with a state, a plan returns with no error. The state's failure
    -- handler is called with the first error that the resource answers, which it may change in its
    -- place, and not called where there is none. With the diagnostics after that, the response has no
    -- state where one is an error, and else the state's encoding or one diagnostic more for its error;
    -- so it has a state exactly when none of its diagnostics is an error.
    pub plan_resource_change-Answers :
        (req : ProtoPlanRequest tf) {request : PlanResourceChangeRequest tf}
        {res : PlanResourceChangeResponse tf W} {s : State tf W} {w'' : W}
        → lookup req.type_name r.resources ≡ some resource
        → plan_from_tf_proto6 (no_plan_request tf) req (tf.value_type resource.schema)
          ≡ returned (request, none)
        → resource.plan_resource_change request no_plan w' ≡ (res, w'')
        → res.planned_state ≡ some s
        → PlanAnswered res s provider_config w'' (plan_resource_change r req provider_config w)
    unfolding plan_resource_change with_resource
    plan_resource_change-Answers req {request} {res} {s} {w''} found decoded answer hs =
        rw (found, config, decoded, answer) (plan_answer-PlanAnswered res provider_config w'' hs)

    -- Where the router has a resource of the name, which takes the configuration, the request
    -- decodes and the resource answers with a state, an apply returns with no error. The state's
    -- failure handler is called with the first error that the resource answers, which it may change in
    -- its place, and not called where there is none. With the diagnostics after that, the response has
    -- no state where one is an error, and else the encoding of the state, or of a null for a deletion,
    -- or one diagnostic more for the encoding's error; so it has a state exactly when none of its
    -- diagnostics is an error.
    pub apply_resource_change-Answers :
        (req : ProtoApplyRequest tf) {request : ApplyResourceChangeRequest tf}
        {res : ApplyResourceChangeResponse tf W} {s : State tf W} {w'' : W}
        → lookup req.type_name r.resources ≡ some resource
        → apply_from_tf_proto6 (no_apply_request tf) req (tf.value_type resource.schema)
          ≡ returned (request, none)
        → resource.apply_resource_change request no_apply w' ≡ (res, w'')
        → res.new_state ≡ some s
        → ApplyAnswered res s
            (is_delete request)
            provider_config
            w''
            (apply_resource_change r req provider_config w)
    unfolding apply_resource_change with_resource
    apply_resource_change-Answers req {request} {res} {s} {w''} found decoded answer hs =
        rw (found, config, decoded, answer)
          (apply_answer-ApplyAnswered res (is_delete request) provider_config w'' hs)

    -- Where the router has a resource of the name, which takes the configuration, a request to plan
    -- and a request to apply whose states do not decode make the provider panic: the state that is
    -- to handle the failure is nil.
    pub undecodable_changes_panic :
        (plan : ProtoPlanRequest tf) (apply : ProtoApplyRequest tf)
        {plan_request : PlanResourceChangeRequest tf}
        {apply_request : ApplyResourceChangeRequest tf} {plan_err apply_err : Err}
        → lookup plan.type_name r.resources ≡ some resource
        → lookup apply.type_name r.resources ≡ some resource
        → plan_from_tf_proto6 (no_plan_request tf) plan (tf.value_type resource.schema)
          ≡ returned (plan_request, some plan_err)
        → apply_from_tf_proto6 (no_apply_request tf) apply (tf.value_type resource.schema)
          ≡ returned (apply_request, some apply_err)
        → (plan_resource_change r plan provider_config w ≡ panicked)
          × (apply_resource_change r apply provider_config w ≡ panicked)
    unfolding plan_resource_change apply_resource_change with_resource get_error_diagnostic
    undecodable_changes_panic plan apply {plan_err = e} {apply_err = f} hp ha dp da = (
      rw (hp, config, dp, err_to_diagnostic-severity tf.attribute_of "Serialization Error" e) refl,
      rw (ha, config, da, err_to_diagnostic-severity tf.attribute_of "Serialization Error" f) refl,
    )
