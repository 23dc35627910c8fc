-- ===== src/Vault/Checks/Cluster/Laws.antt =====
-- When the checks on the cluster pass.
use terraform_provider_enos.Prelude.{
  ℕ, zero, suc, ◌+◌, ◌≤◌, ◌≡◌, refl, ◌↔◌, ◌≢◌, ◌⊎◌, Bool, true, false, Option, none, some, List, [],
  ◌∷◌, Bytes, codes, map, bytes_eq_iff, Some, arith, count_if, any_of, any_of-Some, Some-any_of,
  leb, leb_iff, if◌then◌else◌,
}
use terraform_provider_enos.Go.{Err, Ran, panicked}
use terraform_provider_enos.Vault.Responses.{
  RaftConfigurationDataConfig, RaftConfigurationServer, RaftAutopilotStateServer,
}
use terraform_provider_enos.Vault.State.{State}
use terraform_provider_enos.Vault.Checks.Base.{
  Passes, pass, fail, find_flag_values, count_flag_values,
}
use terraform_provider_enos.Vault.Checks.Cluster.{
  raft_data, autopilot_data, ha_data, min_of, check_has_min_n_raft_voters, check_has_min_n_ha_nodes,
  check_has_min_n_raft_servers, check_has_min_n_autopilot_servers, check_has_min_n_autopilot_voters,
  check_has_min_n_autopilot_healthy_nodes, check_has_raft_leader, find_autopilot_leader,
  flag_result,
}

min_of-some :
    {D : Type 0} (n : ℕ) (e : Err) (d : D) (f : D → Ran (Option Err)) → min_of n e (some d) f ≡ f d
min_of-some zero e d f = refl
min_of-some (suc n) e d f = refl

if_passes : (b : Bool) (e : Err) → ((if b then pass else fail e) ≡ pass) ↔ (b ≡ true)
if_passes true e = ground arith
if_passes false e = ground arith

enough_voters :
    (min n : ℕ) (e : Err) → ((if leb min (0 + n) then pass else fail e) ≡ pass) ↔ (min ≤ n)
enough_voters min n e = ground (arith, if_passes (leb min (0 + n)) e, leb_iff min (0 + n))

flag_passes : (b : Bool) (e : Err) → (flag_result e b ≡ pass) ↔ (b ≡ true)
flag_passes true e = ground arith
flag_passes false e = ground arith

-- With a raft configuration none of whose servers is a nil pointer, the check for a minimum of raft
-- voters passes exactly when at least that many of its servers vote.
pub check_has_min_n_raft_voters_iff :
    (min : ℕ) (s : State) (d : RaftConfigurationDataConfig) (servers : List RaftConfigurationServer)
    → raft_data s ≡ some d
    → d.servers ≡ map some servers
    → Passes (check_has_min_n_raft_voters min) (some s) ↔ (min ≤ count_if (λ v. v.voter) servers)
unfolding check_has_min_n_raft_voters
check_has_min_n_raft_voters_iff min s d servers has all =
    rw (has, min_of-some min, all, count_flag_values (λ v. v.voter) 0 servers)
      (enough_voters min (count_if (λ v. v.voter) servers) _)

-- The check panics for a minimum of 0 and fails for every other.
abbrev pub PanicsOnlyAtZero : (ℕ → Option State → Ran (Option Err)) → State → Type 0
PanicsOnlyAtZero check s =
    (check 0 (some s) ≡ panicked) × ((n : ℕ) → (e : Err) × (check (suc n) (some s) ≡ fail e))

-- Where the data that a check for a minimum counts is not there, the check fails with an error for
-- every minimum above 0 and panics, on a nil pointer, for a minimum of 0.
pub check_has_min_n_zero_panics :
    (s : State)
    → ha_data s ≡ none
    → raft_data s ≡ none
    → autopilot_data s ≡ none
    → PanicsOnlyAtZero check_has_min_n_ha_nodes s
      × PanicsOnlyAtZero check_has_min_n_raft_servers s
      × PanicsOnlyAtZero check_has_min_n_raft_voters s
      × PanicsOnlyAtZero check_has_min_n_autopilot_servers s
      × PanicsOnlyAtZero check_has_min_n_autopilot_voters s
      × PanicsOnlyAtZero check_has_min_n_autopilot_healthy_nodes s
unfolding check_has_min_n_ha_nodes check_has_min_n_raft_servers check_has_min_n_raft_voters
    check_has_min_n_autopilot_servers check_has_min_n_autopilot_voters
    check_has_min_n_autopilot_healthy_nodes
check_has_min_n_zero_panics s h r a = (
  (rw h refl, λ n. rw h (_, refl)),
  (rw r refl, λ n. rw r (_, refl)),
  (rw r refl, λ n. rw r (_, refl)),
  (rw a refl, λ n. rw a (_, refl)),
  (rw a refl, λ n. rw a (_, refl)),
  (rw a refl, λ n. rw a (_, refl)),
)

-- A raft configuration none of whose servers is a nil pointer passes the check for a leader exactly
-- when some server of it leads.
pub check_has_raft_leader_iff :
    (s : State) (d : RaftConfigurationDataConfig) (servers : List RaftConfigurationServer)
    → raft_data s ≡ some d
    → d.servers ≡ map some servers
    → Passes check_has_raft_leader (some s) ↔ Some (λ v. v.leader ≡ true) servers
unfolding check_has_raft_leader
check_has_raft_leader_iff s d servers has all =
    rw (has, all, find_flag_values (λ v. v.leader) servers)
      (let f = flag_passes (any_of (λ v. v.leader) servers) _ in
        (
          λ h. any_of-Some (λ v. v.leader) servers (f.0 h),
          λ h. f.1 (Some-any_of (λ v. v.leader) servers h),
        ))

-- The first server with the status of a leader has the name.
abbrev pub FirstLeads : Bytes → List RaftAutopilotStateServer → Type 0
FirstLeads leader [] = ⊥
FirstLeads leader (v ∷ servers) =
    ((v.status ≡ codes "leader") × (v.name ≡ leader))
    ⊎ ((v.status ≢ codes "leader") × FirstLeads leader servers)

-- Over autopilot servers none of which is nil, the search for the leader passes exactly when the first
-- server with the status of a leader has the name that the autopilot state gives for the leader.
pub find_autopilot_leader_iff :
    (leader : Bytes) (servers : List RaftAutopilotStateServer)
    → (find_autopilot_leader leader (map some servers) ≡ pass) ↔ FirstLeads leader servers
unfolding find_autopilot_leader
find_autopilot_leader_iff leader [] = ground arith
find_autopilot_leader_iff leader (v ∷ servers) = ground (
  arith,
  find_autopilot_leader_iff leader servers,
  bytes_eq_iff v.status (codes "leader"),
  bytes_eq_iff v.name leader,
)
