-- ===== src/Tests/ConsulRuns.antt =====
-- Runs of the Consul checks, and of Indent.
use terraform_provider_enos.Prelude.{
  ℕ, suc, ◌≡◌, refl, true, none, some, List, [], ◌∷◌, Bytes, codes,
}
use terraform_provider_enos.Systemd.Properties.{enabled_and_running_properties}
use terraform_provider_enos.Indent.{indent}
use terraform_provider_enos.Indent.Lines.{indented, indent-indented}
use terraform_provider_enos.Consul.Responses.{ConsulState, NodeHealth, RaftServer}
use terraform_provider_enos.Consul.Checks.{check_cluster_has_leader}
use terraform_provider_enos.Consul.GetState.{ConsulReaders, ConsulStateRequest, wait_for_consul}
use terraform_provider_enos.Consul.GetState.Waits.{ConsulDesired, wait_for_consul-ConsulDesired}

abbrev health : Bytes → Bytes → NodeHealth
health name status = record { node = name; status = status; output = []; notes = [] }

abbrev nodes : List NodeHealth
nodes = health (codes "a") (codes "passing") ∷ health (codes "b") (codes "critical") ∷ []

abbrev consul_server : Bytes → RaftServer
consul_server name = record {
  id = name;
  node = name;
  address = codes "127.0.0.1:8300";
  leader = true;
  protocol_version = codes "3";
  voter = true;
}

abbrev consul_servers : List RaftServer
consul_servers = consul_server (codes "a") ∷ []

abbrev consul : ConsulState
consul = record {
  agent_host = none;
  health_node = some (record { nodes = some (some (health (codes "a") (codes "passing")) ∷ []) });
  health_state_passing = some (record {
    nodes = some (
        some (health (codes "a") (codes "passing"))
        ∷ some (health (codes "b") (codes "critical"))
        ∷ []);
  });
  raft_configuration = some (record { servers = some (some (consul_server (codes "a")) ∷ []) });
  unit_properties = enabled_and_running_properties;
}

indent-indented_example :
    indent (codes "  ") (codes "a\nb\n") ≡ indented (codes "  ") true (codes "a\nb\n")
indent-indented_example = indent-indented (codes "  ") (codes "a\nb\n")

indent_run : indent (codes "  ") (codes "a\nb\n") ≡ codes "  a\n  b\n"
unfolding indent
indent_run = refl

-- A node that answers each read, and counts them.
abbrev pub consul_readers : ConsulReaders ℕ
consul_readers = record {
  ctx_err = λ n. none;
  install_flight_control = λ path n. (codes "fc", none, suc n);
  show_properties = λ unit n. (enabled_and_running_properties, none, suc n);
  agent_host = λ addr path n. (none, none, suc n);
  health_node = λ addr path name n. (consul.health_node, none, suc n);
  health_state_passing = λ addr path n. (consul.health_state_passing, none, suc n);
  raft_configuration = λ addr path n. (consul.raft_configuration, none, suc n);
}

abbrev pub consul_request : ConsulStateRequest
consul_request = record {
  flight_control_path = codes "fc";
  flight_control_use_home_dir = true;
  systemd_unit_name = codes "consul";
  consul_addr = codes "http://127.0.0.1:8500";
}

wait_for_consul-ConsulDesired_example :
    ConsulDesired consul_readers consul_request
      (check_cluster_has_leader ∷ [])
      (wait_for_consul consul_readers consul_request 1 (λ d n. n) (check_cluster_has_leader ∷ []) 0)
wait_for_consul-ConsulDesired_example =
    wait_for_consul-ConsulDesired consul_readers consul_request 1 (λ d n. n)
      (check_cluster_has_leader ∷ []) 0
