-- ===== src/Consul/Checks/Laws.antt =====
-- When the Consul checks pass.
use terraform_provider_enos.Prelude.{
  ℕ, ◌+◌, ◌≤◌, ◌≡◌, refl, ◌↔◌, ◌≢◌, Bool, true, false, Option, none, some, List, [], ◌∷◌, Bytes,
  bytes_eq, bytes_eq_iff, map, arith, count_if, any_of, any_of-Some, Some-any_of, Some, leb,
  leb_iff, if◌then◌else◌,
}
use terraform_provider_enos.Go.{Err, Ran, returned, panicked, ◌>>=◌}
use terraform_provider_enos.Systemd.Properties.{
  UnitProperties, enabled_and_running_properties, find_properties, has_properties,
}
use terraform_provider_enos.Systemd.Properties.Laws.{Shares, find_properties_iff}
use terraform_provider_enos.Vault.Checks.Base.{pass, find_flag_values, count_flag_values}
use terraform_provider_enos.Consul.Responses.{
  ConsulState, NodeHealth, HealthStatePassingResponse, RaftServer, raft_to_string,
  passing_to_string,
}
use terraform_provider_enos.Consul.Checks.{
  ConsulCheck, node_health_status_healthy, unit_result, check_consul_unit, check_node_is_healthy,
  health_node_nodes, one_healthy_node, healthy_node, check_cluster_has_leader,
  check_cluster_has_min_n_voters, check_cluster_has_min_n_healthy_nodes, leader_result,
  enough_voters, enough_healthy, passing_error,
}

abbrev pub ConsulPasses : ConsulCheck → ConsulState → Type 0
ConsulPasses check s = check (some s) ≡ pass

unit_result_iff :
    (r : UnitProperties × Option Err)
    → (unit_result r ≡ pass)
      ↔ ((r.1 ≡ none) × (has_properties r.0 enabled_and_running_properties ≡ true))
unit_result_iff (props, some e) = ground arith
unit_result_iff (props, none) = ground arith

-- The check on the unit passes exactly when the unit's properties have each of the four that an
-- enabled and running unit has, with its value.
pub check_consul_unit_iff :
    (s : ConsulState)
    → ConsulPasses check_consul_unit s ↔ Shares s.unit_properties enabled_and_running_properties
unfolding check_consul_unit
check_consul_unit_iff s =
    let u = unit_result_iff (find_properties s.unit_properties enabled_and_running_properties) in
    let f = find_properties_iff s.unit_properties enabled_and_running_properties in
    (λ h. f.0 (u.0 h), λ h. u.1 (f.1 h))

-- One node, whose status is healthy.
abbrev pub OneHealthy : Option (List (Option NodeHealth)) → Type 0
OneHealthy none = ⊥
OneHealthy (some []) = ⊥
OneHealthy (some (none ∷ nodes)) = ⊥
OneHealthy (some (some n ∷ [])) = n.status ≡ node_health_status_healthy
OneHealthy (some (some n ∷ m ∷ nodes)) = ⊥

healthy_node_iff :
    (n : NodeHealth) → (healthy_node n ≡ pass) ↔ (n.status ≡ node_health_status_healthy)
healthy_node_iff n = ground (arith, bytes_eq_iff n.status node_health_status_healthy)

one_healthy_node_iff :
    (nodes : Option (List (Option NodeHealth))) → (one_healthy_node nodes ≡ pass) ↔ OneHealthy nodes
one_healthy_node_iff none = ground arith
one_healthy_node_iff (some []) = ground arith
one_healthy_node_iff (some (none ∷ [])) = ground arith
one_healthy_node_iff (some (none ∷ m ∷ nodes)) = ground arith
one_healthy_node_iff (some (some n ∷ [])) = healthy_node_iff n
one_healthy_node_iff (some (some n ∷ m ∷ nodes)) = ground arith

passing_error-fails : (min n : ℕ) (r : Ran Bytes) → (r >>= passing_error min n) ≢ pass
passing_error-fails min n panicked = λ e. ground arith
passing_error-fails min n (returned t) = λ e. ground arith

enough_healthy_iff :
    (min n : ℕ) (r : HealthStatePassingResponse) → (enough_healthy min r (0 + n) ≡ pass) ↔ (min ≤ n)
enough_healthy_iff min n r = go (leb min (0 + n)) (leb_iff min (0 + n))
  where
    go :
        (b : Bool)
        → (b ≡ true) ↔ (min ≤ 0 + n)
        → ((if b then pass else passing_to_string r >>= passing_error min (0 + n)) ≡ pass)
          ↔ (min ≤ n)
    go true h = (λ _. omega (arith, h.0 refl), λ _. refl)
    go false h = (
      λ e. absurd (passing_error-fails min (0 + n) (passing_to_string r) e),
      λ l. ground (arith, h.1),
    )

-- The check on the node passes exactly when its health has one node, which is passing. Where no node is
-- a nil pointer, the check for a minimum of healthy nodes passes exactly when that many are passing.
pub check_health_iff :
    (s : ConsulState) (nodes : List NodeHealth) (min : ℕ)
    → s.health_state_passing ≡ some (record { nodes = some (map some nodes) })
    → (ConsulPasses check_node_is_healthy s ↔ OneHealthy (health_node_nodes s.health_node))
      × (ConsulPasses (check_cluster_has_min_n_healthy_nodes min) s
          ↔ (min ≤ count_if (λ n. bytes_eq n.status node_health_status_healthy) nodes))
unfolding check_node_is_healthy check_cluster_has_min_n_healthy_nodes
check_health_iff s nodes min has = (
  one_healthy_node_iff (health_node_nodes s.health_node),
  rw (has, count_flag_values (λ n. bytes_eq n.status node_health_status_healthy) 0 nodes)
      (enough_healthy_iff min (count_if (λ n. bytes_eq n.status node_health_status_healthy) nodes)
        (record { nodes = some (map some nodes) })),
)

leader_result_iff : (t : Bytes) (b : Bool) → (leader_result t b ≡ pass) ↔ (b ≡ true)
leader_result_iff t true = ground arith
leader_result_iff t false = ground arith

enough_voters_iff : (min n : ℕ) (t : Bytes) → (enough_voters min t (0 + n) ≡ pass) ↔ (min ≤ n)
enough_voters_iff min n t = ground (arith, leb_iff min (0 + n))

-- With raft servers none of which is a nil pointer, the check for a leader passes exactly when one of
-- them leads, and the check for a minimum of voters exactly when that many of them vote.
pub check_raft_iff :
    (s : ConsulState) (servers : List RaftServer) (min : ℕ)
    → s.raft_configuration ≡ some (record { servers = some (map some servers) })
    → (ConsulPasses check_cluster_has_leader s ↔ Some (λ v. v.leader ≡ true) servers)
      × (ConsulPasses (check_cluster_has_min_n_voters min) s
          ↔ (min ≤ count_if (λ v. v.voter) servers))
unfolding check_cluster_has_leader check_cluster_has_min_n_voters
check_raft_iff s servers min has =
    let f =
      leader_result_iff (raft_to_string (record { servers = some (map some servers) }))
        (any_of (λ v. v.leader) servers) in
    (
      rw (has, find_flag_values (λ v. v.leader) servers)
          (
            λ h. any_of-Some (λ v. v.leader) servers (f.0 h),
            λ h. f.1 (Some-any_of (λ v. v.leader) servers h),
          ),
      rw (has, count_flag_values (λ v. v.voter) 0 servers)
          (enough_voters_iff min (count_if (λ v. v.voter) servers)
            (raft_to_string (record { servers = some (map some servers) }))),
    )
