-- ===== src/Vault/GetState/Guards.antt =====
-- What is guarded in the states that GetState returns, and its stages up to the seal.
use terraform_provider_enos.Prelude.{
  ◌≡◌, ◌≢◌, ◌⊎◌, inl, inr, Bool, true, false, Option, none, some, [], Bytes, arith, if◌then◌else◌,
  not,
}
use terraform_provider_enos.Go.{Err, Ran, returned, panicked}
use terraform_provider_enos.Vault.State.{State, is_initialized, is_sealed, ListPodsResponse}
use terraform_provider_enos.Stages.Rules.{
  Holds, goes_on, is_back, then-Holds, fetch-Holds, value-Holds, value_of-Holds, if-Holds,
}
use terraform_provider_enos.Stages.{Progress, proceed, finish, ◌then◌, fetch, value, Read}
use terraform_provider_enos.Vault.GetState.{
  Readers, StateRequest, by_process_manager, pods_stage, process_stage, status_stage,
  endpoints_stage, seal_stage,
}

-- Nothing that the node answers only when unsealed is there.
abbrev pub Bare : State → Type 0
Bare s =
    (s.config_sanitized ≡ none)
    × (s.host_info ≡ none)
    × (s.ha_status ≡ none)
    × (s.raft_config ≡ none)
    × (s.autopilot_config ≡ none)
    × (s.autopilot_state ≡ none)

-- All sources agree that the node is initialized and unsealed.
abbrev pub Open : State → Type 0
Open s = (is_initialized (some s) ≡ (true, none)) × (is_sealed (some s) ≡ (false, none))

-- Whether the node is initialized is known, and, where it is, whether it is sealed.
abbrev pub Known : State → Type 0
Known s =
    (is_initialized (some s) ≡ (false, none))
    ⊎ ((is_initialized (some s) ≡ (true, none))
        × ((is_sealed (some s) ≡ (true, none)) ⊎ (is_sealed (some s) ≡ (false, none))))

abbrev pub Guarded : Bytes → State → Option Err → Type 0
Guarded token s err = (Bare s ⊎ (Open s × (token ≢ []))) × ((err ≢ none) ⊎ Known s)

-- A property of what GetState returns, that a panic does not have.
abbrev pub OnState :
    {W : Type 0} → (State → Option Err → Type 0) → Ran (Option State × Option Err × W) → Type 0
OnState P panicked = ⊥
OnState P (returned (none, err, w)) = err ≢ none
OnState P (returned (some s, err, w)) = P s err

abbrev pub BareOpen : State → Type 0
BareOpen s = Bare s × Open s

-- A stage goes on with `R` from a state with `Q`, and what it returns is guarded.
abbrev pub Stage :
    {W : Type 0}
    → Bytes
    → (State → Type 0)
    → (State → Type 0)
    → (State → W → Progress State W)
    → Type 0
Stage {W} token Q R stage = (s : State) (w : W) → Q s → Holds (Guarded token) R (stage s w)

-- An error that is returned asks nothing of the state but its guard.
pub error-Bare : (token : Bytes) (s : State) (e : Err) → Bare s → Guarded token s (some e)
error-Bare token s e b = (inl b, inl (λ h. ground arith))

pub error-Open :
    (token : Bytes) (s : State) (e : Err) → Open s → token ≢ [] → Guarded token s (some e)
error-Open token s e o t = (inr (o, t), inl (λ h. ground arith))

pub unsealed-Open : (token : Bytes) (s : State) → Bare s → Open s → Guarded token s none
unsealed-Open token s b (i, u) = (inl b, inr (inr (i, inr u)))

module _ {W : Type 0} (readers : Readers W) (req : StateRequest) where
  -- A read of a bare state that leaves it bare.
  fetch-Bare :
      {A : Type 0} (s : State) (r : A × Option Err × W) (put : A → State) (err : Err → Err)
      → ((a : A) → Bare (put a))
      → Holds (Guarded req.token) Bare (fetch r put err)
  fetch-Bare s r put err b = fetch-Holds r put err b (λ a e. error-Bare req.token (put a) e (b a))

  pods-Bare :
      (l : Option (Read W (Option ListPodsResponse)))
      → Stage req.token Bare Bare (pods_stage readers req l)
  pods-Bare none s w b = is_back (error-Bare req.token s _ b)
  pods-Bare (some list_pods) s w b = fetch-Bare s (list_pods w) _ _ (λ a. b)

  pub process-Bare : Stage req.token Bare Bare (process_stage readers req)
  unfolding process_stage by_process_manager
  process-Bare s w b =
      value_of-Holds s (readers.process_manager w) _ _ (λ e. error-Bare req.token s e b)
        (λ manager w'.
          if-Holds _ _ _
            (fetch-Bare s (readers.show_properties req.systemd_unit_name w') _ _ (λ a. b))
            (if-Holds _ _ _ (pods-Bare readers.list_pods s w' b) (goes_on b)))

  pub status-Bare : Stage req.token Bare Bare (status_stage readers req)
  unfolding status_stage
  status-Bare s w b = fetch-Bare s (readers.status w) _ _ (λ a. b)

  pub endpoints-Bare : Stage req.token Bare Bare (endpoints_stage readers req)
  unfolding endpoints_stage
  endpoints-Bare s w b =
      value_of-Holds s _ _ _ (λ e. error-Bare req.token s e b)
        (λ path w'.
          then-Holds (fetch-Bare s (readers.seal_status path w') _ _ (λ a. b))
            (λ s' w'' b'. fetch-Bare s' (readers.health path w'') _ _ (λ a. b')))

  sealed-Open :
      (s : State) (w : W)
      → Bare s
      → is_initialized (some s) ≡ (true, none)
      → (sealed : Bool) → is_sealed (some s) ≡ (sealed, none)
      → Holds (Guarded req.token) BareOpen (if sealed then finish s none w else proceed s w)
  sealed-Open s w b i true e = is_back (inl b, inr (inr (i, inl e)))
  sealed-Open s w b i false e = goes_on (b, (i, e))

  initialized-Open :
      (s : State) (w : W)
      → Bare s
      → (initialized : Bool) → is_initialized (some s) ≡ (initialized, none)
      → Holds (Guarded req.token) BareOpen (
          if not initialized
          then finish s none w
          else value s w
              (is_sealed (some s))
              λ sealed. if sealed then finish s none w else proceed s w)
  initialized-Open s w b false e = is_back (inl b, inr (inl e))
  initialized-Open s w b true e =
      value-Holds s w (is_sealed (some s)) _ (λ x. error-Bare req.token s x b) (sealed-Open s w b e)

  pub seal-Open : Stage req.token Bare BareOpen (seal_stage readers req)
  unfolding seal_stage
  seal-Open s w b =
      value-Holds s w (is_initialized (some s)) _ (λ e. error-Bare req.token s e b)
        (initialized-Open s w b)
