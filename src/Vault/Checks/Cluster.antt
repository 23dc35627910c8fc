-- ===== src/Vault/Checks/Cluster.antt =====
-- The checks of vault/checks.go on the cluster: HA nodes, raft servers, autopilot. A minimum is a uint.
pub mod Laws
use terraform_provider_enos.Prelude.{
  ℕ, zero, suc, Bool, true, false, Option, none, some, List, [], ◌∷◌, map, Bytes, codes, bytes_eq,
  ltb, leb, length, if◌then◌else◌,
}
use terraform_provider_enos.Go.{Err, errorf, text, num, end, new, Ran, panicked, ◌>>=◌, deref}
use terraform_provider_enos.Vault.Responses.{
  HaStatusData, HaStatusNode, RaftConfigurationDataConfig, RaftConfigurationData,
  RaftAutopilotStateResponseData, RaftAutopilotStateServer,
}
use terraform_provider_enos.Vault.State.{State}
use terraform_provider_enos.Vault.Checks.Base.{CheckStater, pass, fail, find_flag, count_flag}

-- The data that the checks look at, `none` where a pointer on the way is nil.
abbrev pub ha_data : State → Option HaStatusData
ha_data s = elim s.ha_status [ none ↦ none | some r ↦ r.body ]

abbrev raft_config_of : Option RaftConfigurationData → Option RaftConfigurationDataConfig
raft_config_of none = none
raft_config_of (some d) = d.config

abbrev pub raft_data : State → Option RaftConfigurationDataConfig
raft_data s = elim s.raft_config [ none ↦ none | some r ↦ raft_config_of r.body ]

abbrev pub autopilot_data : State → Option RaftAutopilotStateResponseData
autopilot_data s = elim s.autopilot_state [ none ↦ none | some r ↦ r.body ]

abbrev flag_result : Err → Bool → Ran (Option Err)
flag_result e true = pass
flag_result e false = fail e

abbrev err_no_active_node : Err
err_no_active_node =
    new "checking vault HA status for active node: no active nodes were found in state"

abbrev active_nodes : Option (List (Option HaStatusNode)) → Ran (Option Err)
active_nodes none = fail err_no_active_node
active_nodes (some nodes) = find_flag (λ n. n.active_node) nodes >>= flag_result err_no_active_node

abbrev ha_active : Option HaStatusData → Ran (Option Err)
ha_active none = fail err_no_active_node
ha_active (some d) = active_nodes d.nodes

-- CheckStateHasHAActiveNode
unfoldable pub check_has_ha_active_node : CheckStater
unfolding find_flag
check_has_ha_active_node state = deref state >>= λ s. ha_active (ha_data s)

-- The shape of the checks for a minimum: data that is not there is an error if the minimum is above
-- 0, and is dereferenced, so that the check panics, if it is 0.
abbrev pub min_of : {D : Type 0} → ℕ → Err → Option D → (D → Ran (Option Err)) → Ran (Option Err)
min_of zero e d f = deref d >>= f
min_of (suc n) e none f = fail e
min_of (suc n) e (some d) f = f d

-- `uint(l) < min` is an error.
abbrev pub enough : ℕ → (ℕ → Err) → ℕ → Ran (Option Err)
enough min e n = if ltb n min then fail (e n) else pass

abbrev pub nil_length {ℓ} : {A : Type ℓ} → Option (List A) → ℕ
nil_length none = 0
nil_length (some xs) = length xs

-- CheckStateHasMinNHANodes
unfoldable pub check_has_min_n_ha_nodes : ℕ → CheckStater
check_has_min_n_ha_nodes min state = deref state >>= λ s.
    min_of min
      (errorf "checking if vault has minimum of %d HA nodes: no HA status was found in state"
        (num min end))
      (ha_data s)
      λ d.
        enough min
          (λ l.
            errorf
              "checking if vault has minimum of %d HA nodes: expected at least %[1]d HA nodes, got %d"
              (num min (num l end)))
          (nil_length d.nodes)

-- CheckStateHasMinNRaftServers
unfoldable pub check_has_min_n_raft_servers : ℕ → CheckStater
check_has_min_n_raft_servers min state = deref state >>= λ s.
    min_of min
      (errorf
        "checking if vault has minimum of %d raft servers: no raft config data was found in state"
        (num min end))
      (raft_data s)
      λ d.
        enough min
          (λ l.
            errorf
              "checking if vault has minimum of %d raft servers: expected %[1]d raft servers, got %d"
              (num min (num l end)))
          (length d.servers)

-- CheckStateHasMinNRaftVoters
unfoldable pub check_has_min_n_raft_voters : ℕ → CheckStater
unfolding count_flag
check_has_min_n_raft_voters min state = deref state >>= λ s.
    min_of min
      (errorf
        "checking if vault has minimum of %d raft voters: no raft config data was found in state"
        (num min end))
      (raft_data s)
      λ d. count_flag (λ v. v.voter) 0 d.servers >>= λ voters.
        if leb min voters
        then pass
        else fail (
            errorf
              "checking if vault has minimum of %d raft voters: expected %[1]d raft servers, got %d"
              (num min (num voters end)))

abbrev raft_leader : Option RaftConfigurationDataConfig → Ran (Option Err)
raft_leader none =
    fail (new "checking if vault has a raft leader: no raft config data was found in state")
raft_leader (some d) =
    find_flag (λ v. v.leader) d.servers
    >>= flag_result (new "checking if vault has a raft leader: unable to find raft leader")

-- CheckStateHasRaftLeader
unfoldable pub check_has_raft_leader : CheckStater
unfolding find_flag
check_has_raft_leader state = deref state >>= λ s. raft_leader (raft_data s)

-- CheckStateHasMinNAutopilotServers
unfoldable pub check_has_min_n_autopilot_servers : ℕ → CheckStater
check_has_min_n_autopilot_servers min state = deref state >>= λ s.
    min_of min
      (errorf
        "checking if vault has minimum of %d autopilot servers: no autopilot data was found in state"
        (num min end))
      (autopilot_data s)
      λ d.
        enough min
          (λ l.
            errorf
              "checking if vault has minimum of %d autopilot servers: expected %[1]d servers, got %d"
              (num min (num l end)))
          (length d.servers)

-- CheckStateHasMinNAutopilotVoters
unfoldable pub check_has_min_n_autopilot_voters : ℕ → CheckStater
check_has_min_n_autopilot_voters min state = deref state >>= λ s.
    min_of min
      (errorf
        "checking if vault has minimum of %d autopilot voters: no autopilot data was found in state"
        (num min end))
      (autopilot_data s)
      λ d.
        enough min
          (λ l.
            errorf
              "checking if vault has minimum of %d autopilot voters: expected %[1]d autopilot voters, got %d"
              (num min (num l end)))
          (length d.voters)

-- CheckStateHasMinNAutopilotHealthyNodes
unfoldable pub check_has_min_n_autopilot_healthy_nodes : ℕ → CheckStater
unfolding count_flag
check_has_min_n_autopilot_healthy_nodes min state = deref state >>= λ s.
    min_of min
      (errorf
        "checking if vault has minimum of %d autopilot healthy nodes: no autopilot data was found in state"
        (num min end))
      (autopilot_data s)
      λ d.
        count_flag (λ v. v.healthy) 0 (map (λ e. e.1) d.servers)
        >>= enough min (λ healthy.
          errorf
            "checking if vault has minimum of %d autopilot healthy nodes: expected %[1]d autopilot voters, got %d"
            (num min (num healthy end)))

abbrev autopilot_health : Option RaftAutopilotStateResponseData → Ran (Option Err)
autopilot_health none =
    fail (new "checking if vault autopilot is healthy: no autopilot data was found in state")
autopilot_health (some d) =
    if d.healthy
    then pass
    else fail (new "checking if vault autopilot is healthy: autopilot is not healthy")

-- CheckStateAutopilotIsHealthy
unfoldable pub check_autopilot_is_healthy : CheckStater
check_autopilot_is_healthy state = deref state >>= λ s. autopilot_health (autopilot_data s)

-- The loop over the map of servers, in the order of one iteration.
unfoldable pub find_autopilot_leader :
    Bytes → List (Option RaftAutopilotStateServer) → Ran (Option Err)
unfolding bytes_eq
find_autopilot_leader leader [] =
    fail (new "checking if vault has an autopilot leader: unable to find autopilot leader")
find_autopilot_leader leader (none ∷ servers) = panicked
find_autopilot_leader leader (some v ∷ servers) =
    let rest = find_autopilot_leader leader servers in
    if bytes_eq v.status (codes "leader")
    then if bytes_eq v.name leader
      then pass
      else fail (
          errorf
            "checking if vault has an autopilot leader: mismatch on leader, servers data has %s, data has %s"
            (text v.name (text leader end)))
    else rest

abbrev autopilot_leader : Option RaftAutopilotStateResponseData → Ran (Option Err)
autopilot_leader none =
    fail (new "checking if vault has an autopilot leader: no autopilot data was found in state")
autopilot_leader (some d) = find_autopilot_leader d.leader (map (λ e. e.1) d.servers)

-- CheckStateAutopilotHasLeader
unfoldable pub check_autopilot_has_leader : CheckStater
unfolding find_autopilot_leader
check_autopilot_has_leader state = deref state >>= λ s. autopilot_leader (autopilot_data s)
