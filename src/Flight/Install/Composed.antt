-- ===== src/Flight/Install/Composed.antt =====
-- The two GetState of internal/remoteflight/vault/state.go and internal/remoteflight/consul/state.go with
-- the installation of enos-flight-control that they make.
use terraform_provider_enos.Prelude.{◌≡◌, ◌≢◌, refl, false, Option, none, some, [], ◌∷◌, Bytes}
use terraform_provider_enos.Go.{Err, returned, pos}
use terraform_provider_enos.Transport.{Run}
use terraform_provider_enos.Stages.{Read, Progress, as_is, ◌then◌, fetch, result_of}
use terraform_provider_enos.Stages.Rules.{
  Holds, goes_on, is_back, then-Holds, fetch-Holds, value_of-Holds, read-Holds, if-Holds,
}
use terraform_provider_enos.Retry.{with_max_retries}
use terraform_provider_enos.Retry.Outcome.{SaysWhy}
use terraform_provider_enos.Flight.Target.Request.{
  new_target_request, with_target_request_retry_opts,
}
use terraform_provider_enos.Flight.Install.{
  Host, InstallRequest, new_install_request, with_target_request, with_use_home_dir,
  with_install_path, install_flight_control,
}
use terraform_provider_enos.Flight.Install.Laws.{install_flight_control-no_path}
use terraform_provider_enos.Vault.Status.{CliRequest}
use terraform_provider_enos.Vault.State.{State, ListPodsResponse, new_state}
use terraform_provider_enos.Vault.SealStatus.{Decoders, get_seal_status}
use terraform_provider_enos.Vault.GetState.{
  Readers, StateRequest, by_process_manager, pods_stage, process_stage, status_stage,
  endpoints_stage, stages, get_state_unless, get_state,
}
use terraform_provider_enos.Vault.NodeReaders.{NodeDecoders, node_readers}
use terraform_provider_enos.Consul.Responses.{ConsulState}
use terraform_provider_enos.Consul.GetState.{ConsulReaders, ConsulStateRequest, get_consul_state}
use terraform_provider_enos.Consul.Requests.{ConsulDecoders, run_readers}
use terraform_provider_enos.Consul.Requests.Composed.{get_consul_state-AllRun}

module _ {W C : Type 0} (host : Host W C) where
  -- The request of both GetState, at a path or in the home directory. Its retrier has no retries, so
  -- that it does not matter what its attempts are.
  abbrev pub state_install_request : Option Bytes → InstallRequest W
  state_install_request o = new_install_request host.wide (
      with_target_request (
        new_target_request host.wide
          (with_target_request_retry_opts (with_max_retries (pos 0) ∷ []) ∷ []))
      ∷ (elim o [ none ↦ with_use_home_dir | some path ↦ with_install_path path ])
      ∷ [])

  -- A reader that answers with no error only as InstallFlightControl does.
  abbrev pub InstallsBy : (Option Bytes → Read W Bytes) → Type 0
  InstallsBy install =
      (o : Option Bytes) (w : W) (p : Bytes) (w' : W)
      → install o w ≡ (p, none, w')
      → install_flight_control host (state_install_request o) w ≡ some (returned (p, none, w'))

  no_path :
      (install : Option Bytes → Read W Bytes)
      → SaysWhy host.env
      → InstallsBy install
      → (path : Bytes) (w : W) (p : Bytes) (w' : W) → install (some path) w ≡ (p, none, w')
      → p ≡ []
  no_path install why by path w p w' h =
      install_flight_control-no_path host (state_install_request (some path)) w why refl
        (by (some path) w p w' h)

  -- Consul's GetState, asked for a path and not for the home directory, gives no state without an
  -- error, whatever the node answers.
  pub get_consul_state_needs_home :
      (un : ConsulDecoders) (tr : Run W) (others : ConsulReaders W) (req : ConsulStateRequest)
      → SaysWhy host.env
      → InstallsBy others.install_flight_control
      → req.flight_control_use_home_dir ≡ false
      → (w : W) (s : ConsulState) (w' : W)
      → get_consul_state (run_readers un tr others) req w ≢ returned (some s, none, w')
  get_consul_state_needs_home un tr others req why by away w s w' h =
      let (path, w1, _, _, _, _, _, _, _, _, installed, _, (_, ((given, _, _), _, _)), _, _, _) =
        get_consul_state-AllRun un tr others req w s w' h in
      given (
        no_path others.install_flight_control why by req.flight_control_path w path w1
          (rw away at installed))

-- A status that is asked of no path has an error.
get_seal_status-no_path :
    {W : Type 0} (un : Decoders) (tr : Run W) (ctx_err : Option Err) (addr : Bytes) (w : W)
    → (e : Err) × (get_seal_status un tr ctx_err
          (record { vault_addr = addr; flight_control_path = [] })
          w
        ≡ (none, some e, w))
unfolding get_seal_status
get_seal_status-no_path un tr none [] w = (_, refl)
get_seal_status-no_path un tr none (c ∷ addr) w = (_, refl)
get_seal_status-no_path un tr (some e) [] w = (_, refl)
get_seal_status-no_path un tr (some e) (c ∷ addr) w = (_, refl)

abbrev HasError : State → Option Err → Type 0
HasError s e = e ≢ none

an_error : (e : Err) → some e ≢ none
an_error e h = cc h

-- With a property that says nothing, and with one that nothing has.
abbrev Any : State → Type 0
Any s = Unit

abbrev None : State → Type 0
None s = ⊥

module _ {W : Type 0} (readers : Readers W) (req : StateRequest) where
  pods-Any :
      (o : Option (Read W (Option ListPodsResponse))) (s : State) (w : W)
      → Holds HasError Any (pods_stage readers req o s w)
  pods-Any none s w = is_back (an_error _)
  pods-Any (some list_pods) s w = fetch-Holds (list_pods w) _ _ (λ a. tt) (λ a e. an_error e)

  process-Any : (s : State) (w : W) → Holds HasError Any (process_stage readers req s w)
  unfolding process_stage by_process_manager
  process-Any s w =
      value_of-Holds s (readers.process_manager w) _ _ (λ e. an_error e)
        (λ manager w'.
          if-Holds _ _ _
            (fetch-Holds (readers.show_properties req.systemd_unit_name w') _ _ (λ a. tt)
              (λ a e. an_error e))
            (if-Holds _ _ _ (pods-Any readers.list_pods s w') (goes_on tt)))

  status-Any : (s : State) (w : W) → Holds HasError Any (status_stage readers req s w)
  unfolding status_stage
  status-Any s w = fetch-Holds (readers.status w) _ _ (λ a. tt) (λ a e. an_error e)

  module _
      (lost : (w : W) (p : Bytes) (w' : W)
        → readers.install_flight_control (some req.flight_control_path) w ≡ (p, none, w')
        → p ≡ [])
      (fails : (w : W) → (e : Err) × (readers.seal_status [] w ≡ (none, some e, w)))
      (away : req.flight_control_use_home_dir ≡ false) where
    seal_status-None :
        (s : State) (path : Bytes) (w : W) (k : State → W → Progress State W)
        → path ≡ []
        → Holds HasError None
            (fetch (readers.seal_status path w) (λ r. record s { seal_status = r }) as_is then k)
    seal_status-None s path w k nowhere =
        let (e, bad) = fails w in rw (nowhere, bad) (is_back (an_error e))

    endpoints-None : (s : State) (w : W) → Holds HasError None (endpoints_stage readers req s w)
    unfolding endpoints_stage
    endpoints-None s w = rw away (
        read-Holds s (readers.install_flight_control (some req.flight_control_path) w) _ _ an_error
          (λ path w' h. seal_status-None s path w' _ (lost w path w' h)))

    stages-None : (w : W) → Holds HasError None (stages readers req w)
    unfolding stages
    stages-None w =
        then-Holds
          (then-Holds
            (then-Holds
              (then-Holds
                (then-Holds
                  (then-Holds (then-Holds (process-Any new_state w) (λ s w h. status-Any s w))
                    (λ s w h. endpoints-None s w))
                  (λ s w b. absurd b))
                (λ s w b. absurd b))
              (λ s w b. absurd b))
            (λ s w b. absurd b))
          (λ s w b. absurd b)

    result-Fails :
        (p : Progress State W) {s : State} {w' : W}
        → Holds HasError None p
        → result_of p ≢ returned (some s, none, w')
    result-Fails _ (goes_on b) h = b
    result-Fails _ (is_back {e} bad) h = bad (cc h)

    get_state-Fails :
        (w : W) (s : State) (w' : W) → get_state readers req w ≢ returned (some s, none, w')
    unfolding get_state
    get_state-Fails w s w' = unless (readers.ctx_err w)
      where
        unless : (e : Option Err) → get_state_unless readers req e w ≢ returned (some s, none, w')
        unless none = result-Fails (stages readers req w) (stages-None w)
        unless (some e) = λ h. cc h

module _ {W C : Type 0} (host : Host W C) where
  -- GetState of a Vault node, asked for a path and not for the home directory, gives no state without
  -- an error, whatever the node answers.
  pub get_state_needs_home :
      (un : NodeDecoders) (tr : Run W) (cli : CliRequest) (others : Readers W) (req : StateRequest)
      → SaysWhy host.env
      → InstallsBy host others.install_flight_control
      → req.flight_control_use_home_dir ≡ false
      → (w : W) (s : State) (w' : W)
      → get_state (node_readers un tr cli others) req w ≢ returned (some s, none, w')
  unfolding node_readers
  get_state_needs_home un tr cli others req why by away =
      get_state-Fails (node_readers un tr cli others) req
        (λ w p w' h.
          no_path host others.install_flight_control why by req.flight_control_path w p w' h)
        (λ w. get_seal_status-no_path un.seal_status tr (others.ctx_err w) cli.vault_addr w) away
