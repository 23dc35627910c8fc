-- ===== src/Vault/Checks/Pods/Laws.antt =====
-- When the checks on Kubernetes pods pass.
use terraform_provider_enos.Prelude.{
  if◌then◌else◌, ◌++◌, ◌≡◌, refl, ◌↔◌, ◌≢◌, ◌⊎◌, ◌∙◌, true, false, Option, none, some, List, [],
  ◌∷◌, Bytes, bytes_eq_iff, All, arith,
}
use terraform_provider_enos.Go.{Err, new, join, returned}
use terraform_provider_enos.Vault.State.{State, Pod, ContainerStatus}
use terraform_provider_enos.Vault.Checks.Base.{Passes, pass}
use terraform_provider_enos.Vault.Checks.Pods.{
  pods_of, containers, phase_error, phase_errors, titled, all_phases, check_all_pods_have_phase,
  not_ready, last_not_ready, pods_not_ready, all_ready, check_all_containers_are_ready, find_phase,
  pod_phase, check_pod_has_phase,
}

titled-none : (title : Err) (err : Option Err) → (returned (titled title err) ≡ pass) ↔ (err ≡ none)
titled-none title none = ground arith
titled-none title (some e) = ground arith

join-some : (a : Option Err) (e : Err) → join a (some e) ≢ none
join-some none e = λ h. ground arith
join-some (some a) e = λ h. ground arith

phase_errors-none :
    (phase : Bytes) (err : Option Err) (pods : List Pod)
    → (phase_errors phase err pods ≡ none) ↔ ((err ≡ none) × All (λ p. p.phase ≡ phase) pods)
unfolding phase_errors
phase_errors-none phase err [] = (λ h. (h, tt), λ h. h.0)
phase_errors-none phase err (pod ∷ pods) = ground (
  arith,
  bytes_eq_iff pod.phase phase,
  join-some err (phase_error phase pod),
  phase_errors-none phase err pods,
  phase_errors-none phase (join err (some (phase_error phase pod))) pods,
)

-- The check on all phases passes exactly when there is a pod and every pod has the phase.
pub check_all_pods_have_phase_iff :
    (phase : Bytes) (s : Option State)
    → Passes (check_all_pods_have_phase phase) s
      ↔ ((pods_of s ≢ []) × All (λ p. p.phase ≡ phase) (pods_of s))
unfolding check_all_pods_have_phase
check_all_pods_have_phase_iff phase s = go (pods_of s)
  where
    go :
        (pods : List Pod)
        → (all_phases phase pods ≡ pass) ↔ ((pods ≢ []) × All (λ p. p.phase ≡ phase) pods)
    go [] = (λ h. ground arith, λ h. absurd (h.0 refl))
    go (p ∷ ps) = (
      λ h. (
        λ e. ground arith,
        ((phase_errors-none phase none (p ∷ ps)).0 ((titled-none _ _).0 h)).1,
      ),
      λ h. (titled-none _ _).1 ((phase_errors-none phase none (p ∷ ps)).1 (refl, h.1)),
    )

-- The first pod of a name has a property.
abbrev pub FirstNamed : (Pod → Type 0) → Bytes → List Pod → Type 0
FirstNamed P name [] = ⊥
FirstNamed P name (pod ∷ pods) =
    ((pod.name ≡ name) × P pod) ⊎ ((pod.name ≢ name) × FirstNamed P name pods)

find_phase_iff :
    (name phase : Bytes) (pods : List Pod)
    → (find_phase name phase pods ≡ pass) ↔ FirstNamed (λ p. p.phase ≡ phase) name pods
unfolding find_phase
find_phase_iff name phase [] = ground arith
find_phase_iff name phase (pod ∷ pods) = ground (
  arith,
  bytes_eq_iff pod.name name,
  bytes_eq_iff pod.phase phase,
  find_phase_iff name phase pods,
)

-- The check on one pod's phase passes exactly when there is a pod of the name and the first one has
-- the phase.
pub check_pod_has_phase_iff :
    (name phase : Bytes) (s : Option State)
    → Passes (check_pod_has_phase name phase) s ↔ FirstNamed (λ p. p.phase ≡ phase) name (pods_of s)
unfolding check_pod_has_phase
check_pod_has_phase_iff name phase s = go (pods_of s)
  where
    go :
        (pods : List Pod)
        → (pod_phase name phase pods ≡ pass) ↔ FirstNamed (λ p. p.phase ≡ phase) name pods
    go [] = ground arith
    go (p ∷ ps) = find_phase_iff name phase (p ∷ ps)

abbrev pub Ready : ContainerStatus → Type 0
Ready c = c.ready ≡ true

last_not_ready-none :
    (err : Option Err) (cs : List ContainerStatus)
    → (last_not_ready err cs ≡ none) ↔ ((err ≡ none) × All Ready cs)
unfolding last_not_ready
last_not_ready-none err [] = (λ h. (h, tt), λ h. h.0)
last_not_ready-none err (c ∷ cs) =
    ground (arith, last_not_ready-none err cs, last_not_ready-none (some (not_ready c)) cs)

pods_not_ready-none :
    (err : Option Err) (pods : List Pod)
    → (pods_not_ready err pods ≡ none) ↔ ((err ≡ none) × All (λ p. All Ready (containers p)) pods)
unfolding pods_not_ready
pods_not_ready-none err [] = (λ h. (h, tt), λ h. h.0)
pods_not_ready-none err (pod ∷ pods) = ground (
  arith,
  last_not_ready-none err (containers pod),
  pods_not_ready-none (last_not_ready err (containers pod)) pods,
)

-- The check on all containers passes exactly when there is a pod and every container of every pod is
-- ready.
pub check_all_containers_are_ready_iff :
    (s : Option State)
    → Passes check_all_containers_are_ready s
      ↔ ((pods_of s ≢ []) × All (λ p. All Ready (containers p)) (pods_of s))
unfolding check_all_containers_are_ready
check_all_containers_are_ready_iff s = go (pods_of s)
  where
    go :
        (pods : List Pod)
        → (all_ready pods ≡ pass) ↔ ((pods ≢ []) × All (λ p. All Ready (containers p)) pods)
    go [] = (λ h. ground arith, λ h. absurd (h.0 refl))
    go (p ∷ ps) = (
      λ h. (λ e. ground arith, ((pods_not_ready-none none (p ∷ ps)).0 ((titled-none _ _).0 h)).1),
      λ h. (titled-none _ _).1 ((pods_not_ready-none none (p ∷ ps)).1 (refl, h.1)),
    )

-- Of several containers that are not ready only the last is reported: for a pod whose containers
-- end in such a one, the error is that of this container alone, whatever the others are.
pub last_not_ready_alone :
    (err : Option Err) (cs : List ContainerStatus) (c : ContainerStatus)
    → c.ready ≡ false
    → last_not_ready err (cs ++ c ∷ []) ≡ some (not_ready c)
unfolding last_not_ready
last_not_ready_alone err [] c h = rw h
last_not_ready_alone err (d ∷ cs) c h =
    last_not_ready_alone (if d.ready then err else some (not_ready d)) cs c h

pods_not_ready_last :
    (err : Option Err) (pods : List Pod) (pod : Pod)
    → pods_not_ready err (pods ++ pod ∷ [])
      ≡ last_not_ready (pods_not_ready err pods) (containers pod)
unfolding pods_not_ready
pods_not_ready_last err [] pod = refl
pods_not_ready_last err (p ∷ pods) pod =
    pods_not_ready_last (last_not_ready err (containers p)) pods pod

-- Where the last container of the last pod is not ready, the check's error names that container and
-- no other, whatever the states of the other containers are.
pub check_all_containers_reports_last :
    (s : Option State) (pods : List Pod) (pod : Pod) (cs : List ContainerStatus)
    (c : ContainerStatus)
    → pods_of s ≡ pods ++ pod ∷ []
    → containers pod ≡ cs ++ c ∷ []
    → c.ready ≡ false
    → check_all_containers_are_ready s
      ≡ returned (
          join
            (some (new "checking all containers in kubernetes state are ready"))
            (some (not_ready c)))
unfolding check_all_containers_are_ready
check_all_containers_reports_last s pods pod cs c e d h = rw e (shape pods last)
  where
    last : pods_not_ready none (pods ++ pod ∷ []) ≡ some (not_ready c)
    last =
        pods_not_ready_last none pods pod
        ∙ rw d (last_not_ready_alone (pods_not_ready none pods) cs c h)

    shape :
        (ps : List Pod)
        → pods_not_ready none (ps ++ pod ∷ []) ≡ some (not_ready c)
        → all_ready (ps ++ pod ∷ [])
          ≡ returned (
              join
                (some (new "checking all containers in kubernetes state are ready"))
                (some (not_ready c)))
    shape [] l = rw l
    shape (p ∷ ps) l = rw l
