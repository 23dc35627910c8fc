-- ===== src/Server/Terraform.antt =====
-- What internal/server uses of Terraform's plugin libraries: values, their types, their encoding, and
-- the messages that the routers pass on unread. All are parameters of the model.
use terraform_provider_enos.Prelude.{Bool, Option, Bytes}
use terraform_provider_enos.Go.{Err}

-- A kind of request of which a router reads the name of the type, its response, and the response
-- that the router makes before the call.
pub record Rpc : Type 1 where
  pub Request : Type 0
  pub Response : Type 0
  pub type_name : Request → Bytes
  pub empty : Response

pub record Terraform : Type 1 where
  pub Value : Type 0
  pub DynamicValue : Type 0
  pub ValueType : Type 0
  pub Schema : Type 0
  pub AttributePath : Type 0
  -- `tftypes.Value{}`, Value.IsNull, and tftypes.NewValue of a type and nil.
  pub zero_value : Value
  pub is_null : Value → Bool
  pub null_of : ValueType → Value
  -- Schema.ValueType, DynamicValue.Unmarshal and tfprotov6.NewDynamicValue.
  pub value_type : Schema → ValueType
  pub unmarshal : DynamicValue → ValueType → Value × Option Err
  pub new_dynamic_value : ValueType → Value → DynamicValue × Option Err
  -- errors.As to a tftypes.AttributePathError.
  pub attribute_of : Err → Option (AttributePath × Err)
  pub validate : Rpc
  pub upgrade : Rpc
  pub read : Rpc
  pub import_state : Rpc
  pub validate_data : Rpc
  pub read_data : Rpc
