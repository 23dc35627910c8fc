-- ===== src/Tests/CheckRuns.antt =====
-- Runs of the checks on a state.
use terraform_provider_enos.Prelude.{◌≡◌, refl, true, false, Option, some, List, [], ◌∷◌, codes}
use terraform_provider_enos.Go.{new, join, returned}
use terraform_provider_enos.Vault.State.{State, new_state}
use terraform_provider_enos.Vault.Responses.{RaftAutopilotStateServer}
use terraform_provider_enos.Vault.Checks.Pods.{not_ready, check_all_containers_are_ready}
use terraform_provider_enos.Vault.Checks.Pods.Laws.{check_all_containers_reports_last}
use terraform_provider_enos.Vault.Checks.Cluster.{
  check_has_min_n_raft_voters, check_has_min_n_ha_nodes, check_has_min_n_raft_servers,
  check_has_min_n_autopilot_servers, check_has_min_n_autopilot_voters,
  check_has_min_n_autopilot_healthy_nodes,
}
use terraform_provider_enos.Vault.Checks.Cluster.Laws.{
  PanicsOnlyAtZero, check_has_min_n_zero_panics,
}
use terraform_provider_enos.Tests.Samples.{state_of_node, running, container, autopilot_server}

abbrev unsealed : Option State
unsealed = some (state_of_node false)

check_all_containers_reports_last_example :
    check_all_containers_are_ready unsealed
    ≡ returned (
        join
          (some (new "checking all containers in kubernetes state are ready"))
          (some (not_ready (container (codes "agent") false))))
check_all_containers_reports_last_example =
    check_all_containers_reports_last unsealed [] running (container (codes "vault") true ∷ [])
      (container (codes "agent") false) refl refl refl

check_has_min_n_zero_panics_example :
    PanicsOnlyAtZero check_has_min_n_ha_nodes new_state
    × PanicsOnlyAtZero check_has_min_n_raft_servers new_state
    × PanicsOnlyAtZero check_has_min_n_raft_voters new_state
    × PanicsOnlyAtZero check_has_min_n_autopilot_servers new_state
    × PanicsOnlyAtZero check_has_min_n_autopilot_voters new_state
    × PanicsOnlyAtZero check_has_min_n_autopilot_healthy_nodes new_state
check_has_min_n_zero_panics_example = check_has_min_n_zero_panics new_state refl refl refl

abbrev autopilot_servers : List RaftAutopilotStateServer
autopilot_servers =
    autopilot_server (codes "node_2") (codes "voter")
    ∷ autopilot_server (codes "node_1") (codes "leader")
    ∷ []
