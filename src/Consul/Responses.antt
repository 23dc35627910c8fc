-- ===== src/Consul/Responses.antt =====
-- The responses that the Consul checks read (agent_host.go, health_node.go, health_state_passing.go and
-- raft_configuration.go of internal/remoteflight/consul) with their String methods, and State.
use terraform_provider_enos.Prelude.{Bool, Option, none, some, List, [], ◌∷◌, ◌++◌, Bytes, codes}
use terraform_provider_enos.Go.{Ran, returned, panicked, ◌>>=◌, bool_text}
use terraform_provider_enos.Indent.{indent}
use terraform_provider_enos.Systemd.Properties.{UnitProperties}

pub record AgentHostResponseHost : Type 0 where
  pub hostname : Bytes
  pub id : Bytes

pub record AgentHostResponse : Type 0 where
  pub host : Option AgentHostResponseHost

pub record NodeHealth : Type 0 where
  pub node : Bytes
  pub status : Bytes
  pub output : Bytes
  pub notes : Bytes

pub record HealthNodeResponse : Type 0 where
  pub nodes : Option (List (Option NodeHealth))

pub record HealthStatePassingResponse : Type 0 where
  pub nodes : Option (List (Option NodeHealth))

pub record RaftServer : Type 0 where
  pub id : Bytes
  pub node : Bytes
  pub address : Bytes
  pub leader : Bool
  pub protocol_version : Bytes
  pub voter : Bool

pub record ConsulRaftConfiguration : Type 0 where
  pub servers : Option (List (Option RaftServer))

-- State: its embedded pointers, by their types' names.
pub record ConsulState : Type 0 where
  pub agent_host : Option AgentHostResponse
  pub health_node : Option HealthNodeResponse
  pub health_state_passing : Option HealthStatePassingResponse
  pub raft_configuration : Option ConsulRaftConfiguration
  pub unit_properties : UnitProperties

abbrev field : Bytes → Bytes → Bytes
field name [] = []
field name (c ∷ value) = name ++ (codes ": " ++ ((c ∷ value) ++ codes "\n"))

-- NodeHealth.String, on a pointer that is not nil.
unfoldable pub node_to_string : NodeHealth → Bytes
node_to_string n =
    field (codes "Node") n.node
    ++ (field (codes "Status") n.status
        ++ (field (codes "Output") n.output ++ field (codes "Notes") n.notes))

-- The loop of HealthStatePassingResponse.String: a nil pointer panics.
unfoldable pub indent_nodes : List (Option NodeHealth) → Ran Bytes
unfolding node_to_string indent
indent_nodes [] = returned []
indent_nodes (none ∷ nodes) = panicked
indent_nodes (some n ∷ nodes) =
    indent_nodes nodes >>= λ rest. returned (indent (codes "  ") (node_to_string n) ++ rest)

abbrev passing_text : Option (List (Option NodeHealth)) → Ran Bytes
passing_text none = returned []
passing_text (some []) = returned []
passing_text (some (n ∷ nodes)) =
    indent_nodes (n ∷ nodes) >>= λ body. returned (codes "Healthy Nodes" ++ body)

-- HealthStatePassingResponse.String
unfoldable pub passing_to_string : HealthStatePassingResponse → Ran Bytes
unfolding indent_nodes
passing_to_string r = passing_text r.nodes

-- RaftServer.String
unfoldable pub server_to_string : Option RaftServer → Bytes
server_to_string none = []
server_to_string (some s) =
    codes "Node: "
    ++ (s.node
        ++ (codes "\nID: "
            ++ (s.id
                ++ (codes "\nAddress: "
                    ++ (s.address
                        ++ (codes "\nLeader: "
                            ++ (bool_text s.leader
                                ++ (codes "\nProtocolVersion: "
                                    ++ (s.protocol_version
                                        ++ (codes "\nVoter: "
                                            ++ (bool_text s.voter ++ codes "\n")))))))))))

unfoldable pub indent_servers : List (Option RaftServer) → Bytes
unfolding server_to_string indent
indent_servers [] = []
indent_servers (s ∷ servers) = indent (codes "  ") (server_to_string s) ++ indent_servers servers

abbrev servers_text : Option (List (Option RaftServer)) → Bytes
servers_text none = []
servers_text (some []) = []
servers_text (some (s ∷ servers)) = codes "Servers\n" ++ indent_servers (s ∷ servers)

-- RaftConfigurationResponse.String
unfoldable pub raft_to_string : ConsulRaftConfiguration → Bytes
unfolding indent_servers
raft_to_string r = servers_text r.servers
