-- ===== src/Server/DataRouter.antt =====
-- internal/server/datarouter/router.go: data sources by their names; and internal/server/server.go: the
-- server passes a request on to its router with the configuration that its provider holds.
pub mod Laws
use terraform_provider_enos.Prelude.{Option, none, some, List, [], ◌∷◌, Bytes, lookup, insert}
use terraform_provider_enos.Go.{Err, errorf, wrap, text, end, Ran, returned}
use terraform_provider_enos.Server.Terraform.{Terraform}
use terraform_provider_enos.Server.ResourceRouter
use terraform_provider_enos.Server.ResourceRouter.{Handler, Answer, answered}
use terraform_provider_enos.Server.ResourceRouter.Change
use terraform_provider_enos.Server.ResourceRouter.Change.Proto.{
  ProtoPlanRequest, ProtoPlanResponse, ProtoApplyRequest, ProtoApplyResponse,
}

pub record DataSource (tf : Terraform) (W : Type 0) : Type 0 where
  pub name : Bytes
  pub schema : tf.Schema
  pub set_provider_config : tf.Value → W → Option Err × W
  pub validate_data_resource_config : Handler tf.validate_data W
  pub read_data_source : Handler tf.read_data W

pub record DataRouter (tf : Terraform) (W : Type 0) : Type 0 where
  pub data_sources : List (Bytes × DataSource tf W)

abbrev pub unsupported_data_source : Bytes → Err
unsupported_data_source type_name = errorf "unsupported data source: " (text type_name end)

abbrev pub set_source_config_error : Err → Err
set_source_config_error err = wrap "setting provider config on data source: " end err

module _ {R W : Type 0} where
  abbrev source_configured : Option Err × W → (W → Ran (Answer R W)) → Ran (Answer R W)
  source_configured (some err, w) call = returned (none, some (set_source_config_error err), w)
  source_configured (none, w) call = call w

module _ {tf : Terraform} {W : Type 0} where
  abbrev pub new_data_router : DataRouter tf W
  new_data_router = record { data_sources = [] }

  unfoldable pub register_data_source : DataSource tf W → DataRouter tf W → DataRouter tf W
  unfolding insert
  register_data_source data_source router = record {
    data_sources = insert data_source.name data_source router.data_sources;
  }

  abbrev pub apply_data_opts :
      List (DataRouter tf W → DataRouter tf W) → DataRouter tf W → DataRouter tf W
  apply_data_opts [] r = r
  apply_data_opts (opt ∷ opts) r = apply_data_opts opts (opt r)

  abbrev pub new_data : List (DataRouter tf W → DataRouter tf W) → DataRouter tf W
  new_data opts = apply_data_opts opts new_data_router

  abbrev source_found :
      {R : Type 0}
      → Bytes
      → tf.Value
      → W
      → (DataSource tf W → W → Ran (Answer R W))
      → Option (DataSource tf W)
      → Ran (Answer R W)
  source_found type_name meta w call none =
      returned (none, some (unsupported_data_source type_name), w)
  source_found type_name meta w call (some ds) =
      source_configured (ds.set_provider_config meta w) (call ds)

  unfoldable pub validate_data_resource_config :
      DataRouter tf W
      → tf.validate_data.Request
      → tf.Value
      → W
      → Ran (Answer tf.validate_data.Response W)
  unfolding lookup
  validate_data_resource_config r req meta w =
      let type_name = tf.validate_data.type_name req in
      source_found type_name meta w
        (λ ds w'. answered (ds.validate_data_resource_config req tf.validate_data.empty w'))
        (lookup type_name r.data_sources)

  unfoldable pub read_data_source :
      DataRouter tf W → tf.read_data.Request → tf.Value → W → Ran (Answer tf.read_data.Response W)
  unfolding lookup
  read_data_source r req meta w =
      let type_name = tf.read_data.type_name req in
      source_found type_name meta w
        (λ ds w'. answered (ds.read_data_source req tf.read_data.empty w'))
        (lookup type_name r.data_sources)

  abbrev pub data_schemas_of : List (Bytes × DataSource tf W) → List (Bytes × tf.Schema)
  data_schemas_of [] = []
  data_schemas_of ((name, ds) ∷ sources) = (name, ds.schema) ∷ data_schemas_of sources

  abbrev pub data_schemas : DataRouter tf W → List (Bytes × tf.Schema)
  data_schemas r = data_schemas_of r.data_sources

-- The server's schema response, of which the routers' part is modelled: the schemas of the provider are
-- an argument.
pub record SchemaResponse (tf : Terraform) : Type 0 where
  pub provider : tf.Schema
  pub provider_meta : tf.Schema
  pub resource_schemas : List (Bytes × tf.Schema)
  pub data_source_schemas : List (Bytes × tf.Schema)

-- What the server uses of its provider: its schemas and the configuration that it holds.
pub record Provider (tf : Terraform) (W : Type 0) : Type 0 where
  pub schema : tf.Schema
  pub meta_schema : tf.Schema
  pub config : W → tf.Value

pub record Server (tf : Terraform) (W : Type 0) : Type 0 where
  pub provider : Provider tf W
  pub resource_router : ResourceRouter.Router tf W
  pub data_router : DataRouter tf W

module _ {tf : Terraform} {W : Type 0} where
  abbrev pub get_provider_schema : Server tf W → SchemaResponse tf
  get_provider_schema s = record {
    provider = s.provider.schema;
    provider_meta = s.provider.meta_schema;
    resource_schemas = ResourceRouter.schemas s.resource_router;
    data_source_schemas = data_schemas s.data_router;
  }

  abbrev pub server_read_resource :
      Server tf W → tf.read.Request → W → Ran (Answer tf.read.Response W)
  server_read_resource s req w =
      ResourceRouter.read_resource s.resource_router req (s.provider.config w) w

  abbrev pub server_plan_resource_change :
      Server tf W → ProtoPlanRequest tf → W → Ran (Answer (ProtoPlanResponse tf) W)
  server_plan_resource_change s req w =
      Change.plan_resource_change s.resource_router req (s.provider.config w) w

  abbrev pub server_apply_resource_change :
      Server tf W → ProtoApplyRequest tf → W → Ran (Answer (ProtoApplyResponse tf) W)
  server_apply_resource_change s req w =
      Change.apply_resource_change s.resource_router req (s.provider.config w) w

  abbrev pub server_read_data_source :
      Server tf W → tf.read_data.Request → W → Ran (Answer tf.read_data.Response W)
  server_read_data_source s req w = read_data_source s.data_router req (s.provider.config w) w
