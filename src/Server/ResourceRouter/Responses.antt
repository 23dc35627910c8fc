-- ===== src/Server/ResourceRouter/Responses.antt =====
-- What internal/server/resourcerouter makes of the diagnostics and of the state that a resource answers.
use terraform_provider_enos.Prelude.{
  ◌≡◌, refl, ap, ◌↔◌, ◌⊎◌, inl, inr, List, [], ◌∷◌, ◌++◌, Bool, true, false, Option, none, some,
}
use terraform_provider_enos.Go.{Err, returned}
use terraform_provider_enos.Diags.{
  Diagnostic, get_error_diagnostic, has_errors, FirstError, set_error_diagnostic,
  get_error_diagnostic-FirstError, has_errors-last, has_errors-is_some, err_to_diagnostic-severity,
}
use terraform_provider_enos.Server.Terraform.{Terraform}
use terraform_provider_enos.Server.ResourceRouter.{
  State, PlanResourceChangeResponse, ApplyResourceChangeResponse,
}
use terraform_provider_enos.Server.ResourceRouter.Change.{
  marshal, marshal_apply, failed_with, plan_to_tf_proto6_response, apply_to_tf_proto6_response,
  plan_response_of, apply_response_of,
}
use terraform_provider_enos.Server.ResourceRouter.Change.Proto.{
  ProtoPlanResponse, ProtoApplyResponse, serialization_error, with_planned, with_new,
}

module _ (tf : Terraform) where
  -- What a response has of the diagnostics and the encoding of a state: no state where a diagnostic is
  -- an error, the state where it is encoded, or one more diagnostic, for the error of the encoding.
  abbrev pub EncodesAs :
      List (Diagnostic tf.AttributePath)
      → tf.DynamicValue × Option Err
      → Option tf.DynamicValue
      → List (Diagnostic tf.AttributePath)
      → Type 0
  EncodesAs ds m state ds' =
      ((has_errors ds ≡ true) × (state ≡ none) × (ds' ≡ ds))
      ⊎ ((val : tf.DynamicValue) × (has_errors ds ≡ false)
          × (m ≡ (val, none))
          × (state ≡ some val)
          × (ds' ≡ ds))
      ⊎ ((val : tf.DynamicValue) × (err : Err) × (has_errors ds ≡ false)
          × (m ≡ (val, some err))
          × (state ≡ none)
          × (ds' ≡ ds ++ serialization_error tf err ∷ []))

  -- A response has a state exactly when none of its diagnostics is an error.
  pub EncodesAs-state_iff :
      (ds : List (Diagnostic tf.AttributePath)) (m : tf.DynamicValue × Option Err)
      (state : Option tf.DynamicValue) (ds' : List (Diagnostic tf.AttributePath))
      → EncodesAs ds m state ds'
      → (state ≡ none) ↔ (has_errors ds' ≡ true)
  EncodesAs-state_iff ds m state ds' (inl (bad, none_there, same)) =
      (λ _. rw same bad, λ _. none_there)
  EncodesAs-state_iff ds m state ds' (inr (inl (val, good, _, there, same))) =
      (λ h. absurd (cc (h, there)), λ h. absurd (cc (h, good, ap has_errors same)))
  EncodesAs-state_iff ds m state ds' (inr (inr (val, err, good, _, none_there, more))) = (
    λ _. rw more (
        has_errors-last ds (serialization_error tf err)
          (err_to_diagnostic-severity tf.attribute_of "Serialization Error" err)),
    λ _. none_there,
  )

module _ {tf : Terraform} where
  with_planned-EncodesAs :
      (resp : ProtoPlanResponse tf) (m : tf.DynamicValue × Option Err)
      → resp.planned_state ≡ none
      → has_errors resp.diagnostics ≡ false
      → EncodesAs tf resp.diagnostics m
          (with_planned tf resp m).planned_state
          (with_planned tf resp m).diagnostics
  with_planned-EncodesAs resp (val, none) hp he = inr (inl (val, he, refl, refl, refl))
  with_planned-EncodesAs resp (val, some err) hp he = inr (inr (val, err, he, refl, hp, refl))

  with_new-EncodesAs :
      (resp : ProtoApplyResponse tf) (m : tf.DynamicValue × Option Err)
      → resp.new_state ≡ none
      → has_errors resp.diagnostics ≡ false
      → EncodesAs tf resp.diagnostics m
          (with_new tf resp m).new_state
          (with_new tf resp m).diagnostics
  with_new-EncodesAs resp (val, none) hp he = inr (inl (val, he, refl, refl, refl))
  with_new-EncodesAs resp (val, some err) hp he = inr (inr (val, err, he, refl, hp, refl))

module _ {tf : Terraform} {W : Type 0} where
  -- The diagnostics and the world after a failure: as they were where no diagnostic is an error, or
  -- with what the handler of the state makes of the first error, in its place, and of the world.
  abbrev pub Handled :
      State tf W
      → tf.Value
      → List (Diagnostic tf.AttributePath)
      → W
      → List (Diagnostic tf.AttributePath)
      → W
      → Type 0
  Handled s provider_config ds w ds' w' =
      ((has_errors ds ≡ false) × (ds' ≡ ds) × (w' ≡ w))
      ⊎ ((before after : List (Diagnostic tf.AttributePath)) × (d d' : Diagnostic tf.AttributePath)
          × FirstError ds before d after
          × (s.handle_failure d provider_config w ≡ (d', w'))
          × (ds' ≡ before ++ d' ∷ after))

  pub handle_failure-Handled :
      (state : Option (State tf W)) {s : State tf W} (provider_config : tf.Value)
      (ds : List (Diagnostic tf.AttributePath)) (w : W) (o : Option (Diagnostic tf.AttributePath))
      → state ≡ some s
      → get_error_diagnostic ds ≡ o
      → (ds' : List (Diagnostic tf.AttributePath)) × (w' : W) × (failed_with o ds state
            provider_config w
          ≡ returned (ds', w'))
        × Handled s provider_config ds w ds' w'
  handle_failure-Handled state provider_config ds w none hs h =
      (ds, w, refl, inl (has_errors-is_some ds none h, refl, refl))
  handle_failure-Handled state {s} provider_config ds w (some d) hs h =
      let (before, after, first, written) = get_error_diagnostic-FirstError ds h in
      (
        set_error_diagnostic (s.handle_failure d provider_config w).0 ds,
        (s.handle_failure d provider_config w).1,
        rw hs refl,
        inr (before, after, d, (s.handle_failure d provider_config w).0, first, refl, written _),
      )

  pub plan_encoded :
      (res : PlanResourceChangeResponse tf W) {s : State tf W} (b : Bool)
      → res.planned_state ≡ some s
      → has_errors res.diagnostics ≡ b
      → (resp : ProtoPlanResponse tf) × (plan_to_tf_proto6_response res ≡ returned resp)
        × EncodesAs tf res.diagnostics (marshal s) resp.planned_state resp.diagnostics
  unfolding plan_to_tf_proto6_response
  plan_encoded res true hs h = (plan_response_of res, rw h refl, inl (h, refl, refl))
  plan_encoded res {s} false hs h = (
    with_planned tf (plan_response_of res) (marshal s),
    rw (h, hs) refl,
    with_planned-EncodesAs (plan_response_of res) (marshal s) refl h,
  )

  pub apply_encoded :
      (res : ApplyResourceChangeResponse tf W) {s : State tf W} (deletes b : Bool)
      → res.new_state ≡ some s
      → has_errors res.diagnostics ≡ b
      → (resp : ProtoApplyResponse tf) × (apply_to_tf_proto6_response res deletes ≡ returned resp)
        × EncodesAs tf res.diagnostics (marshal_apply s deletes) resp.new_state resp.diagnostics
  unfolding apply_to_tf_proto6_response
  apply_encoded res deletes true hs h = (apply_response_of res, rw h refl, inl (h, refl, refl))
  apply_encoded res {s} deletes false hs h = (
    with_new tf (apply_response_of res) (marshal_apply s deletes),
    rw (h, hs) refl,
    with_new-EncodesAs (apply_response_of res) (marshal_apply s deletes) refl h,
  )
