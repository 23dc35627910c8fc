-- ===== src/Tests/RequestRuns.antt =====
-- Runs of the reads that GetState makes of a Vault and of a Consul node.
use terraform_provider_enos.Prelude.{Bytes, ◌≡◌, ◌↔◌, refl, ℕ, suc, Option, none, some, [], codes}
use terraform_provider_enos.Go.{Err, sentinel, Ran, returned, panicked}
use terraform_provider_enos.Transport.{Run}
use terraform_provider_enos.Bodies.{Unmarshal, RunGives}
use terraform_provider_enos.Vault.Endpoints.{host_info, new_host_info_response}
use terraform_provider_enos.Vault.Endpoints.Read.{read_endpoint}
use terraform_provider_enos.Vault.Endpoints.Read.{read_command}
use terraform_provider_enos.Vault.Endpoints.Laws.{MayRead, read_endpoint_iff}
use terraform_provider_enos.Systemd.Systemctl
use terraform_provider_enos.Systemd.Decode.{decode_unit_properties_from_show}
use terraform_provider_enos.Consul.Responses.{ConsulState}
use terraform_provider_enos.Consul.GetState.{get_consul_state}
use terraform_provider_enos.Consul.Requests.{ConsulDecoders, run_readers}
use terraform_provider_enos.Consul.Requests.Composed.{AllRun, get_consul_state-AllRun}
use terraform_provider_enos.Tests.Samples.{cli, output}
use terraform_provider_enos.Tests.ConsulRuns.{consul_readers, consul_request}

-- Each run prints one line, and is counted.
abbrev pub printer : Run ℕ
printer command n = (output (codes "Id=consul.service\\n") none, suc n)

abbrev as_given : {A : Type 0} → Unmarshal A
as_given body a = (a, none)

read_endpoint_iff_example :
    (read_endpoint host_info as_given printer none cli 0 ≡ (some new_host_info_response, none, 1))
    ↔ (MayRead host_info none cli
        × RunGives as_given new_host_info_response
            (printer (read_command host_info cli) 0).0
            new_host_info_response
        × ((printer (read_command host_info cli) 0).1 ≡ 1))
read_endpoint_iff_example =
    read_endpoint_iff host_info as_given printer none cli 0 new_host_info_response 1

abbrev over : Option Err
over = some (sentinel "context deadline exceeded")

abbrev pub consul_decoders : ConsulDecoders
consul_decoders = record {
  agent_body =
      λ body r. (record { host = some (record { hostname = codes "a"; id = codes "1" }) }, none);
  nodes_body = as_given;
  raft_body = as_given;
}

abbrev state_in : Ran (Option ConsulState × Option Err × ℕ) → Option ConsulState
state_in panicked = none
state_in (returned (s, e, w)) = s

abbrev or_new : Option ConsulState → ConsulState
or_new (some s) = s
or_new none = record {
  agent_host = none;
  health_node = none;
  health_state_passing = none;
  raft_configuration = none;
  unit_properties = [];
}

abbrev pub read_state : ConsulState
read_state = or_new (
    state_in
      (get_consul_state (run_readers consul_decoders printer consul_readers) consul_request 0))

get_consul_state-AllRun_example :
    AllRun consul_decoders printer consul_readers consul_request 0 read_state 6
unfolding get_consul_state run_readers Systemctl.to_string decode_unit_properties_from_show
get_consul_state-AllRun_example =
    get_consul_state-AllRun consul_decoders printer consul_readers consul_request 0 read_state 6
      refl

-- A parser that takes any text.
abbrev any_version : Bytes → Bytes × Option Err
any_version v = (v, none)
