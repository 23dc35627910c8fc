-- ===== src/Consul/Requests.antt =====
-- The requests of internal/remoteflight/consul: agent_host.go, health_node.go, health_state_passing.go
-- and raft_configuration.go. They have one body, which differs by an endpoint.
pub mod Laws
pub mod Composed
use terraform_provider_enos.Prelude.{Option, none, some, List, [], ◌∷◌, ◌++◌, Bytes, codes, String}
use terraform_provider_enos.Go.{apply_opts, Err, errorf, text, end, new, join}
use terraform_provider_enos.Bodies.{Unmarshal, error_if_empty, body_of}
use terraform_provider_enos.Transport.{Command, Run, new_command}
use terraform_provider_enos.Flight.Unzip.{default_flight_control_path}
use terraform_provider_enos.Systemd.Client.{show_properties}
use terraform_provider_enos.Consul.Responses.{
  AgentHostResponse, NodeHealth, HealthNodeResponse, HealthStatePassingResponse,
  ConsulRaftConfiguration,
}
use terraform_provider_enos.Consul.GetState.{ConsulReaders}

-- The fields that the four requests share.
pub record ConsulRequest : Type 0 where
  pub flight_control_path : Bytes
  pub consul_addr : Bytes

abbrev pub ConsulRequestOpt : Type 0
ConsulRequestOpt = ConsulRequest → ConsulRequest

-- NewAgentHostRequest, NewHealthNodeRequest and NewRaftConfigurationRequest.
abbrev pub new_consul_request : List ConsulRequestOpt → ConsulRequest
new_consul_request opts = apply_opts opts (record {
  flight_control_path = default_flight_control_path;
  consul_addr = codes "http://127.0.0.1:8500";
})

-- NewHealthStatePassingRequest, which has no address.
abbrev pub new_health_state_passing_request : List ConsulRequestOpt → ConsulRequest
new_health_state_passing_request opts =
    apply_opts opts (record { flight_control_path = default_flight_control_path; consul_addr = [] })

abbrev pub with_flight_control_path : Bytes → ConsulRequestOpt
with_flight_control_path path u = record u { flight_control_path = path }

abbrev pub with_consul_addr : Bytes → ConsulRequestOpt
with_consul_addr addr u = record u { consul_addr = addr }

-- What the four differ by: the path, a text that has to be given with its error, the message before an
-- error, the value that the body is decoded onto, and the response that it is put into.
pub record ConsulEndpoint (B A : Type 0) : Type 0 where
  pub path : Bytes
  pub argument_error : Option Err
  pub message : String
  pub blank : B
  pub response : B → A

abbrev pub unexpected_write : Bytes → Err
unexpected_write stderr = errorf "unexpected write to STDERR: %s" (text stderr end)

abbrev pub no_json : Err
no_json = new "no JSON body was written to STDOUT"

module _ {B A : Type 0} (e : ConsulEndpoint B A) where
  abbrev pub missing_field : ConsulRequest → Option Err
  missing_field req =
      join
        (join
          (error_if_empty req.flight_control_path
            (new "you must supply an enos-flight-control path"))
          (error_if_empty req.consul_addr (new "you must supply a consul listen address")))
        e.argument_error

  -- The String method of the request.
  abbrev pub request_command : ConsulRequest → Command
  request_command req = new_command (
      req.flight_control_path
      ++ (codes " download --url '" ++ (req.consul_addr ++ (e.path ++ codes "' --stdout"))))

  abbrev pub response_of : B × Option Err → Option A × Option Err
  response_of (body, none) = (some (e.response body), none)
  response_of (body, some x) = (none, some (Err.joined (new e.message) x))

  module _ {W : Type 0} (un : Unmarshal B) (tr : Run W) where
    abbrev pub at_target : Option A × Option Err → W → Option A × Option Err × W
    at_target (res, x) w = (res, x, w)

    abbrev pub unless_missing : Option Err → ConsulRequest → W → Option A × Option Err × W
    unless_missing (some x) req w = (none, some (Err.joined (new e.message) x), w)
    unless_missing none req w =
        let (out, w') = tr (request_command req) w in
        at_target (response_of (body_of unexpected_write no_json un e.blank out)) w'

    abbrev pub unless_done : Option Err → ConsulRequest → W → Option A × Option Err × W
    unless_done (some x) req w = (none, some x, w)
    unless_done none req w = unless_missing (missing_field req) req w

    -- The body that the four share; `ctx_err` is ctx.Err() where the context is done.
    unfoldable pub read_consul : Option Err → ConsulRequest → W → Option A × Option Err × W
    read_consul ctx_err req w = unless_done ctx_err req w

-- GetAgentHost
abbrev pub agent_host : ConsulEndpoint AgentHostResponse AgentHostResponse
agent_host = record {
  path = codes "/v1/agent/host";
  argument_error = none;
  message = "read /v1/agent/host";
  blank = record { host = some (record { hostname = []; id = [] }) };
  response = λ r. r;
}

abbrev pub Nodes : Type 0
Nodes = Option (List (Option NodeHealth))

-- GetHealthNode for the node of a name.
abbrev pub health_node : Bytes → ConsulEndpoint Nodes HealthNodeResponse
health_node node_name = record {
  path = codes "/v1/health/node/" ++ node_name;
  argument_error = error_if_empty node_name (new "you must supply a node name");
  message = "read /v1/health/node";
  blank = some [];
  response = λ nodes. record { nodes = nodes };
}

-- GetHealthStatePassing
abbrev pub health_state_passing : ConsulEndpoint Nodes HealthStatePassingResponse
health_state_passing = record {
  path = codes "/v1/health/state/passing";
  argument_error = none;
  message = "read /v1/health/state/passing";
  blank = some [];
  response = λ nodes. record { nodes = nodes };
}

-- GetRaftConfiguration
abbrev pub raft_configuration : ConsulEndpoint ConsulRaftConfiguration ConsulRaftConfiguration
raft_configuration = record {
  path = codes "/v1/operator/raft/configuration";
  argument_error = none;
  message = "read /v1/operator/raft/configuruation";
  blank = record { servers = some [] };
  response = λ r. r;
}

pub record ConsulDecoders : Type 0 where
  pub agent_body : Unmarshal AgentHostResponse
  pub nodes_body : Unmarshal Nodes
  pub raft_body : Unmarshal ConsulRaftConfiguration

abbrev pub request_for : Bytes → Bytes → ConsulRequest
request_for addr path =
    new_consul_request (with_consul_addr addr ∷ with_flight_control_path path ∷ [])

-- The readers of GetState over one transport; the installation of enos-flight-control is given.
unfoldable pub run_readers :
    {W : Type 0} → ConsulDecoders → Run W → ConsulReaders W → ConsulReaders W
unfolding read_consul show_properties
run_readers un tr others = record others {
  show_properties = λ unit w. show_properties tr unit w;
  agent_host = λ addr path w.
      read_consul agent_host un.agent_body tr (others.ctx_err w) (request_for addr path) w;
  health_node = λ addr path node_name w.
      read_consul (health_node node_name) un.nodes_body tr (others.ctx_err w)
        (request_for addr path) w;
  health_state_passing = λ addr path w.
      read_consul health_state_passing un.nodes_body tr (others.ctx_err w)
        (new_health_state_passing_request
          (with_flight_control_path path ∷ with_consul_addr addr ∷ []))
        w;
  raft_configuration = λ addr path w.
      read_consul raft_configuration un.raft_body tr (others.ctx_err w) (request_for addr path) w;
}
