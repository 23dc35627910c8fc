-- ===== src/Server/ResourceRouter/Change/Proto.antt =====
-- internal/server/resourcerouter/plan.go and apply.go: the requests and the responses of tfprotov6, and the
-- requests decoded.
use terraform_provider_enos.Prelude.{
  Bool, not, ◌&&◌, Option, none, some, List, [], ◌∷◌, ◌++◌, Bytes, String,
}
use terraform_provider_enos.Go.{Err, wrap, end, Ran, returned, ◌>>=◌, deref}
use terraform_provider_enos.Diags.{Diagnostic, err_to_diagnostic}
use terraform_provider_enos.Server.Terraform.{Terraform}
use terraform_provider_enos.Server.ResourceRouter.{
  PlanResourceChangeRequest, ApplyResourceChangeRequest,
}

-- tfprotov6's requests and responses: of a state, its encoding.
pub record ProtoPlanRequest (tf : Terraform) : Type 0 where
  pub type_name : Bytes
  pub prior_state : Option tf.DynamicValue
  pub proposed_new_state : Option tf.DynamicValue
  pub config : Option tf.DynamicValue
  pub prior_private : Bytes
  pub provider_meta : Option tf.DynamicValue

pub record ProtoPlanResponse (tf : Terraform) : Type 0 where
  pub planned_state : Option tf.DynamicValue
  pub requires_replace : List tf.AttributePath
  pub planned_private : Bytes
  pub diagnostics : List (Diagnostic tf.AttributePath)
  pub unsafe_to_use_legacy_type_system : Bool

pub record ProtoApplyRequest (tf : Terraform) : Type 0 where
  pub type_name : Bytes
  pub prior_state : Option tf.DynamicValue
  pub planned_state : Option tf.DynamicValue
  pub config : Option tf.DynamicValue
  pub planned_private : Bytes
  pub provider_meta : Option tf.DynamicValue

pub record ProtoApplyResponse (tf : Terraform) : Type 0 where
  pub new_state : Option tf.DynamicValue
  pub private : Bytes
  pub diagnostics : List (Diagnostic tf.AttributePath)
  pub unsafe_to_use_legacy_type_system : Bool

abbrev pub decode_error : String → Err → Err
decode_error what err = wrap what end err

module _ (tf : Terraform) where
  -- Unmarshal on a pointer: nil panics.
  abbrev pub unmarshal_at : Option tf.DynamicValue → tf.ValueType → Ran (tf.Value × Option Err)
  unmarshal_at dyn ty = deref dyn >>= λ d. returned (tf.unmarshal d ty)

  abbrev pub and_then :
      {A : Type 0}
      → String
      → A
      → tf.Value × Option Err
      → (tf.Value → Ran (A × Option Err))
      → Ran (A × Option Err)
  and_then what a (v, some err) k = returned (a, some (decode_error what err))
  and_then what a (v, none) k = k v

  abbrev pub marshal_error : tf.DynamicValue × Option Err → tf.DynamicValue × Option Err
  marshal_error (dyn, none) = (dyn, none)
  marshal_error (dyn, some err) = (dyn, some (wrap "failed to marshal the state, due to: " end err))

  abbrev pub serialization_error : Err → Diagnostic tf.AttributePath
  serialization_error err = err_to_diagnostic tf.attribute_of "Serialization Error" err

  abbrev pub with_planned :
      ProtoPlanResponse tf → tf.DynamicValue × Option Err → ProtoPlanResponse tf
  with_planned resp (val, none) = record resp { planned_state = some val }
  with_planned resp (val, some err) = record resp {
    diagnostics = resp.diagnostics ++ serialization_error err ∷ [];
  }

  abbrev pub with_new : ProtoApplyResponse tf → tf.DynamicValue × Option Err → ProtoApplyResponse tf
  with_new resp (val, none) = record resp { new_state = some val }
  with_new resp (val, some err) = record resp {
    diagnostics = resp.diagnostics ++ serialization_error err ∷ [];
  }

  abbrev pub no_plan_request : PlanResourceChangeRequest tf
  no_plan_request = record {
    type_name = [];
    prior_state = tf.zero_value;
    proposed_new_state = tf.zero_value;
    config = none;
    prior_private = [];
    provider_meta = none;
  }

  abbrev pub no_apply_request : ApplyResourceChangeRequest tf
  no_apply_request = record {
    type_name = [];
    prior_state = tf.zero_value;
    planned_state = tf.zero_value;
    config = none;
    planned_private = [];
    provider_meta = none;
  }

module _ {tf : Terraform} where
  unfoldable pub plan_from_tf_proto6 :
      PlanResourceChangeRequest tf
      → ProtoPlanRequest tf
      → tf.ValueType
      → Ran (PlanResourceChangeRequest tf × Option Err)
  plan_from_tf_proto6 p req ty = unmarshal_at tf req.prior_state ty >>= λ prior.
      and_then tf "failed to unmarshal prior state, due to: " p prior (λ prior_state.
        unmarshal_at tf req.proposed_new_state ty >>= λ proposed.
        and_then tf "failed to unmarshal proposed state, due to: " p proposed (λ proposed_new_state.
          returned (
            record {
              type_name = req.type_name;
              prior_state = prior_state;
              proposed_new_state = proposed_new_state;
              config = req.config;
              prior_private = req.prior_private;
              provider_meta = req.provider_meta;
            },
            none,
          )))

  unfoldable pub apply_from_tf_proto6 :
      ApplyResourceChangeRequest tf
      → ProtoApplyRequest tf
      → tf.ValueType
      → Ran (ApplyResourceChangeRequest tf × Option Err)
  apply_from_tf_proto6 a req ty = unmarshal_at tf req.prior_state ty >>= λ prior.
      and_then tf "failed to unmarshal prior state, due to: " a prior (λ prior_state.
        unmarshal_at tf req.planned_state ty >>= λ planned.
        and_then tf "failed to unmarshal planned state, due to: " a planned (λ planned_state.
          returned (
            record {
              type_name = req.type_name;
              prior_state = prior_state;
              planned_state = planned_state;
              config = req.config;
              planned_private = req.planned_private;
              provider_meta = req.provider_meta;
            },
            none,
          )))

  -- ApplyResourceChangeRequest's IsDelete, IsCreate and IsUpdate.
  abbrev pub is_delete : ApplyResourceChangeRequest tf → Bool
  is_delete a = not (tf.is_null a.prior_state) && tf.is_null a.planned_state

  abbrev pub is_create : ApplyResourceChangeRequest tf → Bool
  is_create a = tf.is_null a.prior_state && not (tf.is_null a.planned_state)

  abbrev pub is_update : ApplyResourceChangeRequest tf → Bool
  is_update a = not (is_delete a) && not (is_create a)
