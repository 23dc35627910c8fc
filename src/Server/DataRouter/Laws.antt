-- ===== src/Server/DataRouter/Laws.antt =====
-- Which data source a router of internal/server/datarouter calls.
use terraform_provider_enos.Prelude.{
  ◌≡◌, refl, ◌∙◌, arith, Bool, true, none, some, List, [], ◌∷◌, map, Bytes, bytes_eq, lookup,
  lookup-insert, Some, inr, ◌++◌, bytes_eq_refl,
}
use terraform_provider_enos.Server.Terraform.{Terraform}
use terraform_provider_enos.Server.ResourceRouter.{answered}
use terraform_provider_enos.Server.DataRouter.{
  DataSource, DataRouter, new_data_router, register_data_source, apply_data_opts, new_data,
  validate_data_resource_config, read_data_source,
}

module _ {tf : Terraform} {W : Type 0} where
  unfoldable pub has_name : Bytes → DataSource tf W → Bool
  has_name name ds = bytes_eq ds.name name

  abbrev pub data_router_of : List (DataSource tf W) → DataRouter tf W
  data_router_of sources = new_data (map register_data_source sources)

  -- A registered data source that no later one replaces is the one that the router holds.
  kept :
      (sources : List (DataSource tf W)) (r : DataRouter tf W) (name : Bytes)
      → ¬ Some (λ s. has_name name s ≡ true) sources
      → lookup name (apply_data_opts (map register_data_source sources) r).data_sources
        ≡ lookup name r.data_sources
  unfolding register_data_source has_name
  kept [] r name h = refl
  kept (s ∷ sources) r name h =
      kept sources (register_data_source s r) name (λ k. h (inr k))
      ∙ ground (arith, lookup-insert s.name name s r.data_sources)

  registered :
      (before : List (DataSource tf W)) (ds : DataSource tf W) (after : List (DataSource tf W))
      (r : DataRouter tf W)
      → ¬ Some (λ s. has_name ds.name s ≡ true) after
      → lookup ds.name
          (apply_data_opts (map register_data_source (before ++ ds ∷ after)) r).data_sources
        ≡ some ds
  unfolding register_data_source
  registered [] ds after r h =
      kept after (register_data_source ds r) ds.name h
      ∙ ground (arith, lookup-insert ds.name ds.name ds r.data_sources, bytes_eq_refl ds.name)
  registered (b ∷ before) ds after r h = registered before ds after (register_data_source b r) h

  -- A router that was made from data sources passes both kinds of request that give a source's name
  -- to that source, in the world that the configuration leaves, where the source takes it and no
  -- source that was registered later has the name.
  pub data_router_calls_registered :
      (before : List (DataSource tf W)) (ds : DataSource tf W) (after : List (DataSource tf W))
      (validated : tf.validate_data.Request) (refreshed : tf.read_data.Request) (meta : tf.Value)
      (w : W) {w' : W}
      → ¬ Some (λ s. has_name ds.name s ≡ true) after
      → ds.set_provider_config meta w ≡ (none, w')
      → tf.validate_data.type_name validated ≡ ds.name
      → tf.read_data.type_name refreshed ≡ ds.name
      → (validate_data_resource_config (data_router_of (before ++ ds ∷ after)) validated meta w
          ≡ answered (ds.validate_data_resource_config validated tf.validate_data.empty w'))
        × (read_data_source (data_router_of (before ++ ds ∷ after)) refreshed meta w
            ≡ answered (ds.read_data_source refreshed tf.read_data.empty w'))
  unfolding validate_data_resource_config read_data_source
  data_router_calls_registered before ds after v f meta w h config hv hf = (
    rw (hv, registered before ds after new_data_router h, config) refl,
    rw (hf, registered before ds after new_data_router h, config) refl,
  )
