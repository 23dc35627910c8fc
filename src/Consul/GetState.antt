-- ===== src/Consul/GetState.antt =====
-- GetState and WaitForState of internal/remoteflight/consul/state.go. The readers are an interface over
-- the state `W` of the target.
pub mod Reads
pub mod Waits
use terraform_provider_enos.Prelude.{
  ℕ, Bool, Option, none, some, List, [], ◌∷◌, Bytes, if◌then◌else◌,
}
use terraform_provider_enos.Go.{Err, wrap, end, new, returned, ◌>>=◌}
use terraform_provider_enos.Stages.{Read, Progress, Result, as_is, ◌then◌, fetch, result_of}
use terraform_provider_enos.Waiting.{run_checks, checked, env_of, Waited, wait}
use terraform_provider_enos.Systemd.Properties.{UnitProperties}
use terraform_provider_enos.Consul.Responses.{
  ConsulState, AgentHostResponse, AgentHostResponseHost, HealthNodeResponse,
  HealthStatePassingResponse, ConsulRaftConfiguration,
}
use terraform_provider_enos.Consul.Checks.{ConsulCheck}

-- StateRequest: the address goes to the readers with it.
pub record ConsulStateRequest : Type 0 where
  pub flight_control_path : Bytes
  pub flight_control_use_home_dir : Bool
  pub systemd_unit_name : Bytes
  pub consul_addr : Bytes

-- What GetState reads of the target: GetAgentHost and GetHealthStatePassing take the address and the
-- path of enos-flight-control, as GetRaftConfiguration does, and GetHealthNode a node's name as well.
pub record ConsulReaders (W : Type 0) : Type 0 where
  pub ctx_err : W → Option Err
  pub install_flight_control : Option Bytes → Read W Bytes
  pub show_properties : Bytes → Read W UnitProperties
  pub agent_host : Bytes → Bytes → Read W (Option AgentHostResponse)
  pub health_node : Bytes → Bytes → Bytes → Read W (Option HealthNodeResponse)
  pub health_state_passing : Bytes → Bytes → Read W (Option HealthStatePassingResponse)
  pub raft_configuration : Bytes → Bytes → Read W (Option ConsulRaftConfiguration)

abbrev pub new_consul_state : ConsulState
new_consul_state = record {
  agent_host = none;
  health_node = none;
  health_state_passing = none;
  raft_configuration = none;
  unit_properties = List.[];
}

abbrev host_name : Option AgentHostResponseHost → Bytes
host_name none = []
host_name (some h) = h.hostname

-- AgentHostResponse.Hostname, on a pointer that may be nil.
unfoldable pub hostname : Option AgentHostResponse → Bytes
hostname none = []
hostname (some r) = host_name r.host

-- Without checks the state is returned as it is, a nil one too.
abbrev pub check_consul_result :
    {W : Type 0} → List ConsulCheck → Option ConsulState × Option Err × W → Result ConsulState W
check_consul_result checks (state, some e, w) = returned (state, some e, w)
check_consul_result [] (state, none, w) = returned (state, none, w)
check_consul_result (c ∷ checks) (none, none, w) =
    returned (none, some (new "no state data found"), w)
check_consul_result (c ∷ checks) (some s, none, w) = run_checks (c ∷ checks) s >>= checked s w

module _ {W : Type 0} (readers : ConsulReaders W) (req : ConsulStateRequest) where
  -- The reads after the installation at a path, in their order.
  unfoldable pub consul_stages : Bytes → W → Progress ConsulState W
  unfolding hostname
  consul_stages path w =
      fetch (readers.show_properties req.systemd_unit_name w)
        (λ r. record new_consul_state { unit_properties = r })
        (λ e. wrap "getting the systemd unit properties: %w" end e)
      then λ s w.
          fetch (readers.agent_host req.consul_addr path w) (λ r. record s { agent_host = r }) as_is
          then λ s w.
              fetch (readers.health_node req.consul_addr path (hostname s.agent_host) w)
                (λ r. record s { health_node = r }) as_is
              then λ s w.
                  fetch (readers.health_state_passing req.consul_addr path w)
                    (λ r. record s { health_state_passing = r }) as_is
                  then λ s w.
                      fetch (readers.raft_configuration req.consul_addr path w)
                        (λ r. record s { raft_configuration = r }) as_is

  abbrev pub after_install : Bytes × Option Err × W → Result ConsulState W
  after_install (path, some e, w) =
      returned
        (none, some (wrap "installing enos-flight-control binary to get consul state: %w" end e), w)
  after_install (path, none, w) = result_of (consul_stages path w)

  abbrev pub install : W → Bytes × Option Err × W
  install w =
      readers.install_flight_control
        (if req.flight_control_use_home_dir then none else some req.flight_control_path) w

  abbrev pub get_consul_state_unless : Option Err → W → Result ConsulState W
  get_consul_state_unless (some e) w = returned (none, some e, w)
  get_consul_state_unless none w = after_install (install w)

  -- GetState
  unfoldable pub get_consul_state : W → Result ConsulState W
  unfolding consul_stages
  get_consul_state w = get_consul_state_unless (readers.ctx_err w) w

  abbrev pub check_consul_unless : Option Err → List ConsulCheck → W → Result ConsulState W
  check_consul_unless (some e) checks w = returned (none, some e, w)
  check_consul_unless none checks w = get_consul_state w >>= check_consul_result checks

  -- checkState
  unfoldable pub check_consul_state : List ConsulCheck → W → Result ConsulState W
  unfolding get_consul_state run_checks
  check_consul_state checks w = check_consul_unless (readers.ctx_err w) checks w

  -- WaitForState, on fuel for the turns of the retry loop.
  unfoldable pub wait_for_consul : ℕ → (ℕ → W → W) → List ConsulCheck → W → Waited ConsulState
  unfolding check_consul_state wait
  wait_for_consul fuel sleep checks w =
      wait "waiting for consul to enter desired state: %w" fuel (env_of readers.ctx_err sleep)
        (check_consul_state checks) w
