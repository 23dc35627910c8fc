-- ===== src/Consul/Requests/Composed.antt =====
-- GetState of internal/remoteflight/consul/state.go over the requests that it makes.
use terraform_provider_enos.Prelude.{◌≡◌, none, some, Bytes}
use terraform_provider_enos.Go.{returned}
use terraform_provider_enos.Transport.{Run}
use terraform_provider_enos.Systemd.Client.{show_properties}
use terraform_provider_enos.Consul.Responses.{
  ConsulState, AgentHostResponse, HealthNodeResponse, HealthStatePassingResponse,
  ConsulRaftConfiguration,
}
use terraform_provider_enos.Consul.GetState.{
  ConsulReaders, ConsulStateRequest, hostname, install, get_consul_state,
}
use terraform_provider_enos.Consul.GetState.Reads.{get_consul_state-AllRead}
use terraform_provider_enos.Consul.Requests.{
  ConsulDecoders, agent_host, health_node, health_state_passing, raft_configuration, request_for,
  run_readers,
}
use terraform_provider_enos.Consul.Requests.Laws.{Gives, read_consul-Gives}

module _ {W : Type 0} (un : ConsulDecoders) (tr : Run W) (others : ConsulReaders W)
    (req : ConsulStateRequest) where
  -- The installation, systemctl show and the four requests had no error, one after the other; each
  -- response is there and is the body that its run printed, the node's health for the agent's name.
  abbrev pub AllRun : W → ConsulState → W → Type 0
  AllRun w0 s w' =
      (path : Bytes) × (w1 : W) × (w2 : W) × (w3 : W) × (w4 : W) × (w5 : W)
      × (agent : AgentHostResponse) × (node : HealthNodeResponse)
      × (passing : HealthStatePassingResponse) × (raft : ConsulRaftConfiguration) × (install others
            req w0
          ≡ (path, none, w1))
      × (show_properties tr req.systemd_unit_name w1 ≡ (s.unit_properties, none, w2))
      × ((s.agent_host ≡ some agent)
          × Gives agent_host un.agent_body tr (request_for req.consul_addr path) w2 agent w3)
      × ((s.health_node ≡ some node)
          × Gives (health_node (hostname (some agent))) un.nodes_body tr
              (request_for req.consul_addr path) w3 node w4)
      × ((s.health_state_passing ≡ some passing)
          × Gives health_state_passing un.nodes_body tr (request_for req.consul_addr path) w4
              passing w5)
      × ((s.raft_configuration ≡ some raft)
          × Gives raft_configuration un.raft_body tr (request_for req.consul_addr path) w5 raft w')

  -- A state that Consul's GetState returns with no error, over the requests themselves, has four
  -- responses, each one the body that decodes from what a run printed to its output alone and with no
  -- error, one run after the other; the node's health is that of the name that the agent gave, which
  -- is not empty.
  pub get_consul_state-AllRun :
      (w : W) (s : ConsulState) (w' : W)
      → get_consul_state (run_readers un tr others) req w ≡ returned (some s, none, w')
      → AllRun w s w'
  unfolding run_readers
  get_consul_state-AllRun w s w' h =
      let (path, w1, w2, w3, w4, w5, i, p2, p3, p4, p5, p6) =
        get_consul_state-AllRead (run_readers un tr others) req w s w' h in
      let (agent, is_agent, g3) = read_consul-Gives agent_host un.agent_body tr _ _ w2 _ w3 p3 in
      let (node, is_node, g4) =
        read_consul-Gives (health_node (hostname s.agent_host)) un.nodes_body tr (others.ctx_err w3)
          (request_for req.consul_addr path) w3 s.health_node w4 p4 in
      let (passing, is_passing, g5) =
        read_consul-Gives health_state_passing un.nodes_body tr _ _ w4 _ w5 p5 in
      let (raft, is_raft, g6) =
        read_consul-Gives raft_configuration un.raft_body tr _ _ w5 _ w' p6 in
      (
        path,
        w1,
        w2,
        w3,
        w4,
        w5,
        agent,
        node,
        passing,
        raft,
        i,
        p2,
        (is_agent, g3),
        (is_node, rw is_agent at g4),
        (is_passing, g5),
        (is_raft, g6),
      )
