-- ===== src/Vault/Checks/Pods/Containers.antt =====
-- When the check on one container of internal/remoteflight/vault/checks.go passes.
use terraform_provider_enos.Prelude.{
  ◌≡◌, refl, ◌↔◌, ◌≢◌, ◌⊎◌, Option, none, some, List, [], ◌∷◌, Bytes, bytes_eq_iff, All, arith,
}
use terraform_provider_enos.Vault.State.{State, Pod, ContainerStatus}
use terraform_provider_enos.Vault.Checks.Base.{Passes, pass}
use terraform_provider_enos.Vault.Checks.Pods.{
  pods_of, containers, find_container, find_container_ready, container_ready,
  check_pod_container_is_ready,
}
use terraform_provider_enos.Vault.Checks.Pods.Laws.{Ready}

-- The first container of a name is ready; none has the name.
abbrev pub FirstReady : Bytes → List ContainerStatus → Type 0
FirstReady name [] = ⊥
FirstReady name (c ∷ cs) = ((c.name ≡ name) × Ready c) ⊎ ((c.name ≢ name) × FirstReady name cs)

abbrev pub NoneNamed : Bytes → List ContainerStatus → Type 0
NoneNamed name = All (λ c. c.name ≢ name)

-- In the first pod of the name that has such a container, the first such container is ready.
abbrev pub ContainerReady : Bytes → Bytes → List Pod → Type 0
ContainerReady pod_name container_name [] = ⊥
ContainerReady pod_name container_name (pod ∷ pods) =
    ((pod.name ≡ pod_name) × FirstReady container_name (containers pod))
    ⊎ (((pod.name ≢ pod_name) ⊎ NoneNamed container_name (containers pod))
        × ContainerReady pod_name container_name pods)

find_container-some :
    (pod_name name : Bytes) (cs : List ContainerStatus)
    → (find_container pod_name name cs ≡ some pass) ↔ FirstReady name cs
unfolding find_container
find_container-some pod_name name [] = ground arith
find_container-some pod_name name (c ∷ cs) =
    ground (arith, bytes_eq_iff c.name name, find_container-some pod_name name cs)

find_container-none :
    (pod_name name : Bytes) (cs : List ContainerStatus)
    → (find_container pod_name name cs ≡ none) ↔ NoneNamed name cs
unfolding find_container
find_container-none pod_name name [] = (λ _. tt, λ _. refl)
find_container-none pod_name name (c ∷ cs) =
    ground (arith, bytes_eq_iff c.name name, find_container-none pod_name name cs)

find_container_ready_iff :
    (pod_name name : Bytes) (pods : List Pod)
    → (find_container_ready pod_name name pods ≡ pass) ↔ ContainerReady pod_name name pods
unfolding find_container_ready
find_container_ready_iff pod_name name [] = ground arith
find_container_ready_iff pod_name name (pod ∷ pods) = ground (
  arith,
  bytes_eq_iff pod.name pod_name,
  find_container-some pod_name name (containers pod),
  find_container-none pod_name name (containers pod),
  find_container_ready_iff pod_name name pods,
)

-- The check on one container passes exactly when some pod of the name has a container of the name,
-- and the first such container of the first such pod is ready.
pub check_pod_container_is_ready_iff :
    (pod_name name : Bytes) (s : Option State)
    → Passes (check_pod_container_is_ready pod_name name) s
      ↔ ContainerReady pod_name name (pods_of s)
unfolding check_pod_container_is_ready
check_pod_container_is_ready_iff pod_name name s = go (pods_of s)
  where
    go :
        (pods : List Pod)
        → (container_ready pod_name name pods ≡ pass) ↔ ContainerReady pod_name name pods
    go [] = ground arith
    go (p ∷ ps) = find_container_ready_iff pod_name name (p ∷ ps)
