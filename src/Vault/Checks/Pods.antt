-- ===== src/Vault/Checks/Pods.antt =====
-- The checks of vault/checks.go on the node's Kubernetes pods.
pub mod Laws
pub mod Containers
use terraform_provider_enos.Prelude.{
  Option, none, some, List, [], ◌∷◌, Bytes, bytes_eq, if◌then◌else◌,
}
use terraform_provider_enos.Go.{Err, errorf, text, end, new, join, Ran, returned}
use terraform_provider_enos.Vault.State.{State, Pod, PodList, ListPodsResponse, ContainerStatus}
use terraform_provider_enos.Vault.Checks.Base.{CheckStater, pass, fail}

abbrev or_nil {ℓ} : {A : Type ℓ} → Option (List A) → List A
or_nil none = []
or_nil (some xs) = xs

abbrev listed : Option PodList → List Pod
listed none = []
listed (some l) = or_nil l.items

abbrev response_pods : Option ListPodsResponse → List Pod
response_pods none = []
response_pods (some r) = listed r.pods

-- The pods of a state, none where a pointer or the slice on the way is nil. The checks treat such a
-- state and one with an empty slice alike.
abbrev pub pods_of : Option State → List Pod
pods_of none = []
pods_of (some s) = response_pods s.pod_list

abbrev phase_error : Bytes → Pod → Err
phase_error phase pod =
    errorf "expected pod %s to have phase %s, got %s, message: %s, reason: %s"
      (text pod.name (text phase (text pod.phase (text pod.message (text pod.reason end)))))

unfoldable pub phase_errors : Bytes → Option Err → List Pod → Option Err
unfolding bytes_eq
phase_errors phase err [] = err
phase_errors phase err (pod ∷ pods) =
    phase_errors phase
      (if bytes_eq pod.phase phase then err else join err (some (phase_error phase pod))) pods

abbrev titled : Err → Option Err → Option Err
titled title none = none
titled title (some e) = join (some title) (some e)

abbrev all_phases : Bytes → List Pod → Ran (Option Err)
all_phases phase [] = fail (new "checking kubernetes for pod phases: no pods found in state")
all_phases phase (pod ∷ pods) = returned (
    titled (errorf "checking all kubernetes pods have phase %s" (text phase end))
      (phase_errors phase none (pod ∷ pods)))

-- CheckStateAllPodsHavePhase
unfoldable pub check_all_pods_have_phase : Bytes → CheckStater
unfolding phase_errors
check_all_pods_have_phase phase state = all_phases phase (pods_of state)

unfoldable pub find_phase : Bytes → Bytes → List Pod → Ran (Option Err)
unfolding bytes_eq
find_phase name phase [] = fail (
    errorf "checking kubernetes for pod %s phase: no pods named %[1]s found in state"
      (text name end))
find_phase name phase (pod ∷ pods) =
    let rest = find_phase name phase pods in
    if bytes_eq pod.name name
    then if bytes_eq pod.phase phase then pass else fail (phase_error phase pod)
    else rest

abbrev pod_phase : Bytes → Bytes → List Pod → Ran (Option Err)
pod_phase name phase [] =
    fail (errorf "checking kubernetes for pod %s phase: no pods found in state" (text name end))
pod_phase name phase (pod ∷ pods) = find_phase name phase (pod ∷ pods)

-- CheckStatePodHasPhase
unfoldable pub check_pod_has_phase : Bytes → Bytes → CheckStater
unfolding find_phase
check_pod_has_phase name phase state = pod_phase name phase (pods_of state)

abbrev pub containers : Pod → List ContainerStatus
containers pod = or_nil pod.container_statuses

abbrev pub not_ready : ContainerStatus → Err
not_ready c = errorf "container %s is not ready" (text c.name end)

-- The inner loop: `err = errors.Join(fmt.Errorf(...))` puts each error in the last one's place.
unfoldable pub last_not_ready : Option Err → List ContainerStatus → Option Err
last_not_ready err [] = err
last_not_ready err (c ∷ cs) = last_not_ready (if c.ready then err else some (not_ready c)) cs

unfoldable pub pods_not_ready : Option Err → List Pod → Option Err
unfolding last_not_ready
pods_not_ready err [] = err
pods_not_ready err (pod ∷ pods) = pods_not_ready (last_not_ready err (containers pod)) pods

abbrev all_ready : List Pod → Ran (Option Err)
all_ready [] = fail (new "checking all containers in kubernetes states are Ready")
all_ready (pod ∷ pods) = returned (
    titled (new "checking all containers in kubernetes state are ready")
      (pods_not_ready none (pod ∷ pods)))

-- CheckStateAllContainersAreReady
unfoldable pub check_all_containers_are_ready : CheckStater
unfolding pods_not_ready
check_all_containers_are_ready state = all_ready (pods_of state)

unfoldable pub find_pod_ready : Bytes → List Pod → Ran (Option Err)
unfolding bytes_eq last_not_ready
find_pod_ready pod_name [] = fail (
    errorf "checking all containers in kubernetes pod %s are in Ready state: pod not found in state"
      (text pod_name end))
find_pod_ready pod_name (pod ∷ pods) =
    let rest = find_pod_ready pod_name pods in
    if bytes_eq pod.name pod_name
    then returned (
        titled (errorf "checking all containers in kubernetes pod %s are ready" (text pod_name end))
          (last_not_ready none (containers pod)))
    else rest

abbrev pod_ready : Bytes → List Pod → Ran (Option Err)
pod_ready pod_name [] =
    fail (errorf "checking all containers in kubernetes pod %s are Ready" (text pod_name end))
pod_ready pod_name (pod ∷ pods) = find_pod_ready pod_name (pod ∷ pods)

-- CheckStateAllPodContainersAreReady
unfoldable pub check_all_pod_containers_are_ready : Bytes → CheckStater
unfolding find_pod_ready
check_all_pod_containers_are_ready pod_name state = pod_ready pod_name (pods_of state)

-- The loop over one pod's containers: its return, or `none` where none has the name.
unfoldable pub find_container : Bytes → Bytes → List ContainerStatus → Option (Ran (Option Err))
unfolding bytes_eq
find_container pod_name container_name [] = none
find_container pod_name container_name (c ∷ cs) =
    let rest = find_container pod_name container_name cs in
    if bytes_eq c.name container_name
    then some (
        if c.ready
        then pass
        else fail (
            errorf "checking pod %s container %s for Ready state: container is not Ready"
              (text pod_name (text container_name end))))
    else rest

abbrev return_or : Option (Ran (Option Err)) → Ran (Option Err) → Ran (Option Err)
return_or none rest = rest
return_or (some r) rest = r

-- A pod whose container statuses are nil is passed over, as one without the container is.
unfoldable pub find_container_ready : Bytes → Bytes → List Pod → Ran (Option Err)
unfolding find_container
find_container_ready pod_name container_name [] = fail (
    errorf
      "checking kubernetes for pod %s container %s for Ready state: no pod/container found in state"
      (text pod_name (text container_name end)))
find_container_ready pod_name container_name (pod ∷ pods) =
    let rest = find_container_ready pod_name container_name pods in
    if bytes_eq pod.name pod_name
    then return_or (find_container pod_name container_name (containers pod)) rest
    else rest

abbrev container_ready : Bytes → Bytes → List Pod → Ran (Option Err)
container_ready pod_name container_name [] = fail (
    errorf "checking kubernetes for pod %s container %s for Ready state: no pods found in state"
      (text pod_name (text container_name end)))
container_ready pod_name container_name (pod ∷ pods) =
    find_container_ready pod_name container_name (pod ∷ pods)

-- CheckStatePodContainerIsReady
unfoldable pub check_pod_container_is_ready : Bytes → Bytes → CheckStater
unfolding find_container_ready
check_pod_container_is_ready pod_name container_name state =
    container_ready pod_name container_name (pods_of state)
