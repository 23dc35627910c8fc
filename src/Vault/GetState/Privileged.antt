-- ===== src/Vault/GetState/Privileged.antt =====
-- What GetState has read of the node when it returns, and that it does not panic.
use terraform_provider_enos.Prelude.{
  ◌≡◌, ◌≢◌, refl, inr, Bool, true, false, Option, none, some, [], ◌∷◌, Bytes, arith, if◌then◌else◌,
}
use terraform_provider_enos.Go.{Err, returned}
use terraform_provider_enos.Vault.State.{
  State, is_initialized, is_sealed, ha_enabled, storage_type, replication_enabled, new_state,
  replication_from,
}
use terraform_provider_enos.Vault.Health.{HealthResponse, status_is_one_of}
use terraform_provider_enos.Stages.Rules.{
  Holds, goes_on, is_back, then-Holds, fetch-Holds, value-Holds,
}
use terraform_provider_enos.Stages.{Progress, ◌then◌, fetch, result_of}
use terraform_provider_enos.Vault.GetState.{
  Readers, StateRequest, replication_stage, replication_if, is_active, token_stage, token_stage_of,
  config_stage, ha_if, raft_stage, raft_if, stages, get_state, get_state_unless,
}
use terraform_provider_enos.Vault.GetState.Guards.{
  Open, Guarded, OnState, BareOpen, Stage, error-Bare, error-Open, unsealed-Open, process-Bare,
  status-Bare, endpoints-Bare, seal-Open,
}

module _ {W : Type 0} (readers : Readers W) (req : StateRequest) where
  replication-Open :
      (s : State) (w : W)
      → BareOpen s
      → (h : Option HealthResponse) (enabled : Bool) → replication_from h ≡ (enabled, none)
      → Holds (Guarded req.token) BareOpen (
          replication_if readers req s w
            (if enabled then is_active readers req h else returned false))
  unfolding is_initialized is_sealed
  replication-Open s w b none enabled e = ground arith
  replication-Open s w b (some h) false e = goes_on b
  replication-Open s w (b, o) (some h) true e = active (status_is_one_of h _)
    where
      active :
          (a : Bool)
          → Holds (Guarded req.token) BareOpen (replication_if readers req s w (returned a))
      active false = goes_on (b, o)
      active true =
          fetch-Holds (readers.replication_status w) (λ r. record s { replication_status = r }) _
            (λ r. (b, o)) (λ r x. error-Bare req.token s x b)

  replication_stage-Open : Stage req.token BareOpen BareOpen (replication_stage readers req)
  unfolding replication_stage replication_enabled
  replication_stage-Open s w b =
      value-Holds s w (replication_from s.health) _ (λ e. error-Bare req.token s e b.0)
        (replication-Open s w b s.health)

  abbrev Privileged : State → Type 0
  Privileged s = Open s × (req.token ≢ [])

  token-Privileged :
      (token : Bytes) (s : State) (w : W)
      → req.token ≡ token
      → BareOpen s
      → Holds (Guarded req.token) Privileged (token_stage_of readers req token s w)
  token-Privileged [] s w e (b, o) = is_back (unsealed-Open req.token s b o)
  token-Privileged (c ∷ token) s w e (b, o) = goes_on (o, λ h. ground arith)

  fetch-Privileged :
      {A : Type 0} (s : State) (r : A × Option Err × W) (put : A → State) (err : Err → Err)
      → ((a : A) → Privileged (put a))
      → Holds (Guarded req.token) Privileged (fetch r put err)
  fetch-Privileged s r put err b =
      fetch-Holds r put err b (λ a e. error-Open req.token (put a) e (b a).0 (b a).1)

  ha-Privileged :
      (s : State) (w : W) (enabled : Bool)
      → Privileged s
      → Holds (Guarded req.token) Privileged (ha_if readers req s w enabled)
  unfolding is_initialized is_sealed
  ha-Privileged s w false p = goes_on p
  ha-Privileged s w true p =
      fetch-Privileged s (readers.ha_status w) (λ r. record s { ha_status = r }) _ (λ a. p)

  config-Privileged : Stage req.token Privileged Privileged (config_stage readers req)
  unfolding config_stage is_initialized is_sealed
  config-Privileged s w p =
      then-Holds
        (then-Holds
          (fetch-Privileged s (readers.config_sanitized w) (λ r. record s { config_sanitized = r })
            _ (λ a. p))
          (λ s' w' p'.
            fetch-Privileged s' (readers.host_info w') (λ r. record s' { host_info = r }) _
              (λ a. p')))
        (λ s' w' p'.
          value-Holds s' w' (ha_enabled (some s')) _ (λ e. error-Open req.token s' e p'.0 p'.1)
            (λ enabled e. ha-Privileged s' w' enabled p'))

  raft_if-Privileged :
      (s : State) (w : W) (raft : Bool)
      → Privileged s
      → Holds (Guarded req.token) Privileged (raft_if readers req s w raft)
  unfolding is_initialized is_sealed
  raft_if-Privileged s w false p = goes_on p
  raft_if-Privileged s w true p =
      then-Holds
        (then-Holds
          (fetch-Privileged s (readers.raft_config w) (λ r. record s { raft_config = r }) _
            (λ a. p))
          (λ s' w' p'.
            fetch-Privileged s' (readers.autopilot_config w')
              (λ r. record s' { autopilot_config = r }) _ (λ a. p')))
        (λ s' w' p'.
          fetch-Privileged s' (readers.autopilot_state w') (λ r. record s' { autopilot_state = r })
            _ (λ a. p'))

  raft-Privileged : Stage req.token Privileged Privileged (raft_stage readers req)
  unfolding raft_stage
  raft-Privileged s w p =
      value-Holds s w (storage_type (some s)) _ (λ e. error-Open req.token s e p.0 p.1)
        (λ storage e. raft_if-Privileged s w _ p)

  stages-Guarded : (w : W) → Holds (Guarded req.token) Privileged (stages readers req w)
  unfolding stages token_stage
  stages-Guarded w =
      then-Holds
        (then-Holds
          (then-Holds
            (then-Holds
              (then-Holds
                (then-Holds
                  (then-Holds
                    (process-Bare readers req new_state w (refl, refl, refl, refl, refl, refl))
                    (status-Bare readers req))
                  (endpoints-Bare readers req))
                (seal-Open readers req))
              replication_stage-Open)
            (λ s w' b. token-Privileged req.token s w' refl b))
          config-Privileged)
        raft-Privileged

  result-OnState :
      (p : Progress State W)
      → Holds (Guarded req.token) Privileged p
      → OnState (Guarded req.token) (result_of p)
  result-OnState _ (goes_on {s} ((i, u), t)) = (inr ((i, u), t), inr (inr (i, inr u)))
  result-OnState _ (is_back h) = h

  -- GetState does not panic. It returns no state only with an error. In a state that it returns, the
  -- configuration, the host, HA, raft and autopilot data are there only if the sources agree that the
  -- node is initialized and unsealed, and a token was given; and if it returns no error, it is known
  -- whether the node is initialized and, if so, whether it is sealed.
  pub get_state-OnState : (w : W) → OnState (Guarded req.token) (get_state readers req w)
  unfolding get_state
  get_state-OnState w = unless (readers.ctx_err w)
    where
      unless : (e : Option Err) → OnState (Guarded req.token) (get_state_unless readers req e w)
      unless none = result-OnState (stages readers req w) (stages-Guarded w)
      unless (some e) = λ h. ground arith
