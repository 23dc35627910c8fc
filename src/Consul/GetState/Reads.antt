-- ===== src/Consul/GetState/Reads.antt =====
-- What Consul's GetState has read when it returns a state with no error.
use terraform_provider_enos.Prelude.{◌≡◌, refl, subst, Option, none, some, Bytes, arith}
use terraform_provider_enos.Go.{Err, returned}
use terraform_provider_enos.Stages.{Progress, Result, ◌then◌, fetch, result_of}
use terraform_provider_enos.Consul.Responses.{ConsulState}
use terraform_provider_enos.Consul.GetState.{
  ConsulReaders, ConsulStateRequest, hostname, consul_stages, install, after_install,
  get_consul_state, get_consul_state_unless,
}

module _ {S W : Type 0} where
  -- A stage that leads to a state with no error comes from a read with no error.
  fetch-inverse :
      {A : Type 0} (r : A × Option Err × W) (put : A → S) (err : Err → Err)
      (k : S → W → Progress S W) (s : S) (w' : W)
      → result_of (fetch r put err then k) ≡ returned (some s, none, w')
      → (a : A) × (w : W) × (r ≡ (a, none, w))
        × (result_of (k (put a) w) ≡ returned (some s, none, w'))
  fetch-inverse (a, none, w) put err k s w' h = (a, w, refl, h)
  fetch-inverse (a, some e, w) put err k s w' h = ground arith

  last-inverse :
      {A : Type 0} (r : A × Option Err × W) (put : A → S) (err : Err → Err) (s : S) (w' : W)
      → result_of (fetch r put err) ≡ returned (some s, none, w')
      → (a : A) × (r ≡ (a, none, w')) × (put a ≡ s)
  last-inverse (a, none, w) put err s w' h = (a, rw (same h).1 refl, (same h).0)
    where
      same :
          Path (Result S W) (returned (some (put a), none, w)) (returned (some s, none, w'))
          → (put a ≡ s) × (w ≡ w')
      same e = (cc e, cc e)
  last-inverse (a, some e, w) put err s w' h = ground arith

module _ {W : Type 0} (readers : ConsulReaders W) (req : ConsulStateRequest) where
  -- The installation and the five reads had no error, one after the other, and are the state's fields;
  -- the node's health was asked for by the name that the agent gave.
  abbrev pub AllRead : W → ConsulState → W → Type 0
  AllRead w0 s w' =
      (path : Bytes) × (w1 : W) × (w2 : W) × (w3 : W) × (w4 : W) × (w5 : W) × (install readers req
          w0
        ≡ (path, none, w1))
      × (readers.show_properties req.systemd_unit_name w1 ≡ (s.unit_properties, none, w2))
      × (readers.agent_host req.consul_addr path w2 ≡ (s.agent_host, none, w3))
      × (readers.health_node req.consul_addr path (hostname s.agent_host) w3
          ≡ (s.health_node, none, w4))
      × (readers.health_state_passing req.consul_addr path w4 ≡ (s.health_state_passing, none, w5))
      × (readers.raft_configuration req.consul_addr path w5 ≡ (s.raft_configuration, none, w'))

  stages-AllRead :
      (w0 : W) (path : Bytes) (w1 : W) (s : ConsulState) (w' : W)
      → install readers req w0 ≡ (path, none, w1)
      → result_of (consul_stages readers req path w1) ≡ returned (some s, none, w')
      → AllRead w0 s w'
  unfolding consul_stages
  stages-AllRead w0 path w1 s w' i h =
      let (u, w2, p2, h2) =
        fetch-inverse (readers.show_properties req.systemd_unit_name w1) _ _ _ s w' h in
      let (a, w3, p3, h3) =
        fetch-inverse (readers.agent_host req.consul_addr path w2) _ _ _ s w' h2 in
      let (n, w4, p4, h4) =
        fetch-inverse (readers.health_node req.consul_addr path (hostname a) w3) _ _ _ s w' h3 in
      let (p, w5, p5, h5) =
        fetch-inverse (readers.health_state_passing req.consul_addr path w4) _ _ _ s w' h4 in
      let (r, p6, e) =
        last-inverse (readers.raft_configuration req.consul_addr path w5) _ _ s w' h5 in
      subst (λ t. AllRead w0 t w') e (path, w1, w2, w3, w4, w5, i, p2, p3, p4, p5, p6)

  -- A state that Consul's GetState returns with no error has what the installation of
  -- enos-flight-control and the five reads gave, one after the other and each with no error, the node's
  -- health for the name that the agent gave.
  pub get_consul_state-AllRead :
      (w : W) (s : ConsulState) (w' : W)
      → get_consul_state readers req w ≡ returned (some s, none, w')
      → AllRead w s w'
  unfolding get_consul_state
  get_consul_state-AllRead w s w' h = unless (readers.ctx_err w) h
    where
      installed :
          (r : Bytes × Option Err × W)
          → install readers req w ≡ r
          → after_install readers req r ≡ returned (some s, none, w')
          → AllRead w s w'
      installed (path, none, w1) i h = stages-AllRead w path w1 s w' i h
      installed (path, some e, w1) i h = ground arith

      unless :
          (e : Option Err)
          → get_consul_state_unless readers req e w ≡ returned (some s, none, w')
          → AllRead w s w'
      unless none h = installed (install readers req w) refl h
      unless (some e) h = ground arith
