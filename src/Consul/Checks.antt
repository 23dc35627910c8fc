-- ===== src/Consul/Checks.antt =====
-- internal/remoteflight/consul/checks.go.
pub mod Laws
use terraform_provider_enos.Prelude.{
  ℕ, Bool, true, false, Option, none, some, List, [], ◌∷◌, Bytes, codes, bytes_eq, length, leb,
  if◌then◌else◌,
}
use terraform_provider_enos.Go.{Err, errorf, text, num, cause, end, new, Ran, ◌>>=◌, deref}
use terraform_provider_enos.Systemd.Properties.{
  UnitProperties, enabled_and_running_properties, find_properties, has_properties, to_string,
}
use terraform_provider_enos.Vault.Checks.Base.{pass, fail, find_flag, count_flag}
use terraform_provider_enos.Consul.Responses.{
  ConsulState, NodeHealth, HealthNodeResponse, HealthStatePassingResponse, ConsulRaftConfiguration,
  RaftServer, node_to_string, passing_to_string, raft_to_string,
}

-- CheckStater
abbrev pub ConsulCheck : Type 0
ConsulCheck = Option ConsulState → Ran (Option Err)

abbrev pub node_health_status_healthy : Bytes
node_health_status_healthy = codes "passing"

abbrev pub unit_result : UnitProperties × Option Err → Ran (Option Err)
unit_result (props, some e) =
    fail (errorf "expected consul systemd unit to be enabled and running, got: %s" (cause e end))
unit_result (props, none) =
    if has_properties props enabled_and_running_properties
    then pass
    else fail (
        errorf "expected consul system unit to be enabled and running, got: %s"
          (text (to_string props) end))

-- CheckStateHasSystemdEnabledAndRunningProperties
unfoldable pub check_consul_unit : ConsulCheck
check_consul_unit state = deref state >>= λ s.
    unit_result (find_properties s.unit_properties enabled_and_running_properties)

abbrev pub health_node_nodes : Option HealthNodeResponse → Option (List (Option NodeHealth))
health_node_nodes none = none
health_node_nodes (some r) = r.nodes

abbrev pub healthy_node : NodeHealth → Ran (Option Err)
healthy_node n =
    if bytes_eq n.status node_health_status_healthy
    then pass
    else fail (
        errorf "expected node health status to be: %s, got: %s"
          (text node_health_status_healthy (text (node_to_string n) end)))

abbrev wrong_number : ℕ → Ran (Option Err)
wrong_number n = fail (errorf "expected one node health node, got: %d" (num n end))

abbrev pub one_healthy_node : Option (List (Option NodeHealth)) → Ran (Option Err)
one_healthy_node none = fail (new "node health was not found in state")
one_healthy_node (some []) = wrong_number 0
one_healthy_node (some (n ∷ [])) = deref n >>= healthy_node
one_healthy_node (some (n ∷ m ∷ nodes)) = wrong_number (length (n ∷ m ∷ nodes))

-- CheckStateNodeIsHealthy
unfoldable pub check_node_is_healthy : ConsulCheck
unfolding node_to_string bytes_eq
check_node_is_healthy state =
    deref state >>= λ s. one_healthy_node (health_node_nodes s.health_node)

-- What a check on the raft servers makes of them; the response is printed in an error.
abbrev pub on_servers :
    Option ConsulRaftConfiguration
    → (Bytes → List (Option RaftServer) → Ran (Option Err))
    → Ran (Option Err)
on_servers none f = fail (new "no raft servers were found in state")
on_servers (some r) f = servers_of r.servers
  where
    servers_of : Option (List (Option RaftServer)) → Ran (Option Err)
    servers_of none = fail (new "no raft servers were found in state")
    servers_of (some servers) = f (raft_to_string r) servers

abbrev pub leader_result : Bytes → Bool → Ran (Option Err)
leader_result response true = pass
leader_result response false =
    fail (errorf "no raft servers are leader, got response: %v" (text response end))

-- CheckStateClusterHasLeader
unfoldable pub check_cluster_has_leader : ConsulCheck
unfolding raft_to_string find_flag
check_cluster_has_leader state = deref state >>= λ s.
    on_servers s.raft_configuration
      λ response servers. find_flag (λ v. v.leader) servers >>= leader_result response

abbrev passing_error : ℕ → ℕ → Bytes → Ran (Option Err)
passing_error min healthy response = fail (
    errorf "expected minimum of %d healthy nodes, got %d, response: %s"
      (num min (num healthy (text response end))))

-- The response is printed only for an error.
abbrev pub enough_healthy : ℕ → HealthStatePassingResponse → ℕ → Ran (Option Err)
enough_healthy min r healthy =
    if leb min healthy then pass else passing_to_string r >>= passing_error min healthy

abbrev pub passing_nodes :
    ℕ → HealthStatePassingResponse → Option (List (Option NodeHealth)) → Ran (Option Err)
passing_nodes min r none = fail (new "node health was not found in state")
passing_nodes min r (some nodes) =
    count_flag (λ n. bytes_eq n.status node_health_status_healthy) 0 nodes >>= enough_healthy min r

abbrev pub on_passing : ℕ → Option HealthStatePassingResponse → Ran (Option Err)
on_passing min none = fail (new "node health was not found in state")
on_passing min (some r) = passing_nodes min r r.nodes

-- CheckStateClusterHasMinNHealthyNodes
unfoldable pub check_cluster_has_min_n_healthy_nodes : ℕ → ConsulCheck
unfolding passing_to_string count_flag bytes_eq
check_cluster_has_min_n_healthy_nodes min state =
    deref state >>= λ s. on_passing min s.health_state_passing

abbrev pub enough_voters : ℕ → Bytes → ℕ → Ran (Option Err)
enough_voters min response voters =
    if leb min voters
    then pass
    else fail (
        errorf "expected minimum of %d raft voters, got %d, response: %s"
          (num min (num voters (text response end))))

-- CheckStateClusterHasMinNVoters
unfoldable pub check_cluster_has_min_n_voters : ℕ → ConsulCheck
unfolding raft_to_string count_flag
check_cluster_has_min_n_voters min state = deref state >>= λ s.
    on_servers s.raft_configuration
      λ response servers. count_flag (λ v. v.voter) 0 servers >>= enough_voters min response
